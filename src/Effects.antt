-- ===== src/Effects.antt =====
-- platform-plugins/data-postgres/src/effect_commands.rs: the effects of one tenant in the database.
pub mod Tables
pub mod Dispatch
pub mod Recording
pub mod Admission
pub mod Operations
pub mod Requests
pub mod Rows
pub mod Lifecycle
pub mod Resend
pub mod Reservations
pub mod Timeouts
pub mod Approved
pub mod Covered
pub mod Invariant
pub mod Idempotency
mod Tests
mod ProposalTests
mod RequestTests
