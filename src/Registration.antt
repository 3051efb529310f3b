-- ===== src/Registration.antt =====
-- platform-plugins/data-postgres/src/registry_validation.rs: the checks before a plugin is installed.
pub mod Failures
pub mod Dependencies
pub mod Workflows
pub mod Manifests
pub mod Locks
mod Tests
