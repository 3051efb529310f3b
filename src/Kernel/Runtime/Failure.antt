-- ===== src/Kernel/Runtime/Failure.antt =====
-- crates/kernel/src/runtime.rs: `CommandFailure` and its constructors. A code is a constant text.
use masonwing.Prelude.{Option, none, Text, text}
use masonwing.Contracts.Wire.{ArtifactRef}
use masonwing.Kernel.Runtime.Kind.{FailureKind}

pub record CommandFailure : Type 0 where
  pub code : Text
  pub kind : FailureKind
  pub integrity_reference : Option ArtifactRef

abbrev pub new : Text → FailureKind → CommandFailure
new code kind = record { code = code; kind = kind; integrity_reference = none }

abbrev pub invalid : Text → CommandFailure
invalid code = new code FailureKind.invalid

abbrev pub not_found : CommandFailure
not_found = new (text "RESOURCE_NOT_FOUND") FailureKind.not_found

abbrev pub denied : Text → CommandFailure
denied code = new code FailureKind.denied

abbrev pub conflict : Text → CommandFailure
conflict code = new code FailureKind.conflict

abbrev pub precondition : Text → CommandFailure
precondition code = new code FailureKind.precondition

abbrev pub unavailable : Text → CommandFailure
unavailable code = new code FailureKind.unavailable
