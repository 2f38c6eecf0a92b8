-- ===== src/Daemon.antt =====
-- The daemon's command, cmd/dockerdless.
pub mod Startup
