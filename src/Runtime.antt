-- ===== src/Runtime.antt =====
-- The containerd adapter, internal/adapters/containerd.
pub mod Errors
