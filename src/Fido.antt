-- ===== src/Fido.antt =====
-- usb/fido2.c: requests of the FIDO2 authenticator to the core, one at a time.
pub mod Request
pub mod Requests
mod Tests
