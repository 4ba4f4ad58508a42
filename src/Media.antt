-- ===== src/Media.antt =====
-- media.c: the memory card, read only. Card has the code, Pages the proofs on its listing.
pub mod Card
pub mod Pages
mod Tests
