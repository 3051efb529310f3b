-- ===== src/Contracts.antt =====
-- crates/contracts: the values that every part of the program exchanges.
pub mod Wire
pub mod Values
