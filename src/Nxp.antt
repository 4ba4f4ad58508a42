-- ===== src/Nxp.antt =====
-- The NXP A5000 secure element, src/security/nxp: device.c, store.c and host_crypto_psa.c.
pub mod Device
pub mod Store
pub mod Sent
pub mod Unlocking
pub mod Closing
pub mod Calls
mod Tests
