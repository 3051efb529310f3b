-- ===== src/Effects/Operations.antt =====
-- platform-plugins/data-postgres/src/effect_commands.rs: sequences of commands and records on the effects
-- that exist.
use masonwing.Prelude.{ℕ, List, [], ◌∷◌, ℤ, ok, err, Text}
use masonwing.Kernel.Effects.{ReconciliationEvidence}
use masonwing.Effects.Tables.{Store, Answer}
use masonwing.Effects.Dispatch.{dispatch_effect, reconcile_effect}
use masonwing.Effects.Recording.{
  Success, Evidence, record_effect_unknown, record_effect_succeeded, apply_reconciliation_evidence,
}

pub data Command : Type 0 where
  do_dispatch : (now : ℕ) (id : Text) (expected : ℤ) → Command
  do_reconcile : (id : Text) (expected : ℤ) → Command
  do_time_out : (id : Text) → Command
  do_succeed : (now : ℕ) (id : Text) (x : Success) → Command
  do_resolve : (now : ℕ) (id : Text) (e : ReconciliationEvidence) (x : Evidence) → Command

unfoldable pub perform : Store → Command → Answer
unfolding dispatch_effect reconcile_effect record_effect_unknown record_effect_succeeded
    apply_reconciliation_evidence
perform s (do_dispatch now id expected) = dispatch_effect s now id expected
perform s (do_reconcile id expected) = reconcile_effect s id expected
perform s (do_time_out id) = record_effect_unknown s id
perform s (do_succeed now id x) = record_effect_succeeded s now id x
perform s (do_resolve now id e x) = apply_reconciliation_evidence s now id e x

-- The tables that a transaction leaves.
abbrev pub stored : Store → Answer → Store
stored s (ok (after, _)) = after
stored s (err _) = s

unfoldable pub perform_all : Store → List Command → Store
unfolding perform
perform_all s [] = s
perform_all s (o ∷ rest) = perform_all (stored s (perform s o)) rest

-- The effect that a command is about.
abbrev pub effect_of : Command → Text
effect_of (do_dispatch now id expected) = id
effect_of (do_reconcile id expected) = id
effect_of (do_time_out id) = id
effect_of (do_succeed now id x) = id
effect_of (do_resolve now id e x) = id
