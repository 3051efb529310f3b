-- ===== src/Kernel/Tests.antt =====
-- Tests of the kernel's definitions, and its theorems at concrete inputs.
mod State
mod Registry
mod Records
