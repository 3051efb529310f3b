-- ===== src/Kernel.antt =====
-- crates/kernel: host-side invariants, one module for each source file.
pub mod State
pub mod Budget
pub mod Effects
pub mod Grants
pub mod Scope
pub mod Approval
pub mod LoopGuard
pub mod Runtime
pub mod Registry
mod Tests
