-- ===== src/Camera.antt =====
-- camera/camera.c, camera/qr_scanner.c and camera/qr_decoder.c: the camera's buffers, the scanner's
-- sessions and the decoder's crop. Capture, Scanner and Decoder have the code; Stuck, Results and
-- Cropping are proofs.
pub mod Capture
pub mod Scanner
pub mod Decoder
pub mod Cropping
pub mod Stuck
pub mod Results
mod Tests
