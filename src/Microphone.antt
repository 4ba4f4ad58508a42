-- ===== src/Microphone.antt =====
-- audio/microphone.c: the microphone for USB audio and for entropy. Ring has the buffer of samples,
-- Capture the rest; Frames, InStep and Runs are proofs.
pub mod Ring
pub mod Capture
pub mod Frames
pub mod InStep
pub mod Runs
mod Tests
