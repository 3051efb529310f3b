-- ===== src/Worker.antt =====
-- crates/worker: step selection of durable runs, and their resumption from recorded checkpoints.
pub mod StepKeys
pub mod Interpreter
pub mod Resume
mod Tests
