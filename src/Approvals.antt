-- ===== src/Approvals.antt =====
-- platform-plugins/data-postgres/src/approval_commands.rs: decisions on the proposals of one tenant.
pub mod Tables
pub mod Decide
pub mod Reasons
pub mod Blank
pub mod Laws
pub mod Answers
pub mod Outcomes
pub mod FourEyes
mod Tests
