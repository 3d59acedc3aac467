-- ===== src/Tour.antt =====
-- bayserver_core/tour: a tour is one request with its response.
pub mod Flow
pub mod State
pub mod Request
pub mod Response
pub mod Store
pub mod Ship
