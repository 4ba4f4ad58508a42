-- ===== src/Bus.antt =====
-- bus.c: the payloads and the queues between the transports, the display, FIDO2 and the core.
pub mod Payload
pub mod Queues
pub mod Ownership
mod Tests
