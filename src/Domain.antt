-- ===== src/Domain.antt =====
-- internal/domain: the container model, the registry and the reconciliation of stored metadata
-- with runtime tasks.
pub mod Model
pub mod Registry
pub mod Reconcile
pub mod Events
