-- ===== src/Sdk.antt =====
-- crates/sdk/src/lib.rs: the public surface of domain plugins.
pub mod Errors
pub mod Versions
pub mod Package
pub mod Invocation
pub mod Machine
mod Tests
