-- ===== src/Api.antt =====
-- The HTTP boundary, internal/api.
pub mod Version
pub mod Errors
pub mod Limiter
pub mod Router
