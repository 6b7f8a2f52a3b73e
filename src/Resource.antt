-- ===== src/Resource.antt =====
-- internal/resource: the secrets that a rotator owns.
pub mod Ownership
pub mod Removal
pub mod Docker
pub mod Certs
pub mod Writing
pub mod Failures
mod Tests
