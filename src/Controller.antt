-- ===== src/Controller.antt =====
-- controllers: one reconciliation, step by step.
pub mod Managing
pub mod Status
pub mod Lifecycle
pub mod Reconcile
pub mod Watch
mod Tests
