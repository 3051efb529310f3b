-- ===== src/Kernel/Runtime/Kind.antt =====
-- crates/kernel/src/runtime.rs: the kinds of failures.
pub data FailureKind : Type 0 where
  invalid not_found denied conflict precondition unavailable exhausted expired : FailureKind
