-- ===== src/Cni.antt =====
-- internal/adapters/cni: host ports, networks and the attachment of containers.
pub mod Ports
pub mod Modes
pub mod Addresses
pub mod Config
pub mod Networks
pub mod Inspect
pub mod Attach
pub mod Detach
