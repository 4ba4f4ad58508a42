-- ===== src/Portal.antt =====
-- net/wifi_portal.c: the web portal of the access point. Endpoints has the checks of the forms and the
-- three POST endpoints, Requests the handler that gathers a body for them, Firmware the upload of an
-- image; Guarded, Forms and Uploads are proofs.
pub mod Endpoints
pub mod Requests
pub mod Firmware
pub mod Guarded
pub mod Forms
pub mod Uploads
mod Tests
