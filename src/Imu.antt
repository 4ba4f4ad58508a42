-- ===== src/Imu.antt =====
-- imu/imu.c: the motion sensor, its thread and its clients. Acquisition has the code; History, Turns
-- and Failures are proofs.
pub mod Acquisition
pub mod History
pub mod Turns
pub mod Failures
mod Tests
