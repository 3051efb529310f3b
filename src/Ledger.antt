-- ===== src/Ledger.antt =====
-- platform-plugins/data-postgres/src/budget_ledger.rs: the budget ledger of one tenant.
pub mod Tables
pub mod Accounts
pub mod Rows
pub mod Operations
pub mod Solvent
pub mod Balance
pub mod Sums
pub mod Written
pub mod Changes
pub mod Balanced
pub mod Settlement
mod Tests
