-- ===== src/Core.antt =====
-- core.c: the thread that runs the commands on the core and routes the core's effects.
pub mod Effects
pub mod Confirming
mod Tests
