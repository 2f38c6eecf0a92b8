-- ===== src/Streams.antt =====
-- internal/streams: Docker's stream framing and the container logs.
pub mod Io
pub mod Frame
pub mod Logs
