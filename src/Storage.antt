-- ===== src/Storage.antt =====
-- storage.c: the records of the firmware, kept in flash (Flash) or, in a build without storage, in
-- RAM (Ram).
pub mod Flash
pub mod Ram
pub mod Laws
mod Tests
