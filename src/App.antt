-- ===== src/App.antt =====
-- The application service, internal/app.
pub mod Errors
pub mod Ports
pub mod Service
pub mod Containers
pub mod Lifecycle
