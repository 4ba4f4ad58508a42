-- ===== src/Bluetooth.antt =====
-- bluetooth/bluetooth.c with CONFIG_OSKEY_BLUETOOTH: one connection at a time, its session number, and
-- the bytes both ways. Transport has the code; Sessions, Stale, Sending and Insecure are
-- proofs.
pub mod Transport
pub mod Sessions
pub mod Stale
pub mod Sending
pub mod Insecure
mod Tests
