-- ===== src/Entropy.antt =====
-- The entropy collector, src/entropy/entropy.c and entropy.h.
pub mod Source
pub mod Smf
pub mod Machine
pub mod Dispatch
pub mod Api
pub mod Client
pub mod Transition
pub mod Order
pub mod Invariant
pub mod Entering
pub mod Feeding
pub mod Preserved
pub mod Calls
pub mod Sessions
pub mod Skipping
pub mod Beginning
pub mod Transcript
mod Tests
