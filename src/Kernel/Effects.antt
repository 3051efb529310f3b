-- ===== src/Kernel/Effects.antt =====
-- crates/kernel/src/effects.rs: one external effect, its transmissions and its reconciliation.
pub mod Laws
use masonwing.Prelude.{
  ℕ, ◌+◌, ◌%◌, ◌^◌, Bool, true, false, not, List, [], ◌∷◌, Result, ok, err, if◌then◌else◌,
}
use masonwing.Kernel.State.Machines.{
  EffectState, authorized, executing, succeeded, failed_confirmed, outcome_unknown, reconciling,
  manual_review,
}

-- `transmit_count` is a u32, whose `+= 1` wraps in a release build.
pub record EffectRecord : Type 0 where
  pub state : EffectState
  pub transmit_count : ℕ
  pub reconciliation_queued : Bool

pub data ReconciliationEvidence : Type 0 where
  confirmed_present confirmed_failure proven_absent_and_reauthorized unresolved :
      ReconciliationEvidence

pub data EffectError : Type 0 where
  outcome_unknown_blocks_resend invalid_effect_state : EffectError

abbrev pub Outcome : Type 0
Outcome = EffectRecord × Result (Unit {0}) EffectError

-- The constructor `EffectRecord::authorized`.
unfoldable pub new_authorized : EffectRecord
new_authorized = record { state = authorized; transmit_count = 0; reconciliation_queued = false }

abbrev is_authorized : EffectState → Bool
is_authorized authorized = true
is_authorized _ = false

abbrev is_executing : EffectState → Bool
is_executing executing = true
is_executing _ = false

abbrev is_reconciling : EffectState → Bool
is_reconciling reconciling = true
is_reconciling _ = false

abbrev can_reconcile : EffectState → Bool
can_reconcile outcome_unknown = true
can_reconcile manual_review = true
can_reconcile _ = false

-- The error of `transmit` in a state from which it does not transmit.
abbrev pub transmit_error : EffectState → EffectError
transmit_error outcome_unknown = outcome_unknown_blocks_resend
transmit_error reconciling = outcome_unknown_blocks_resend
transmit_error manual_review = outcome_unknown_blocks_resend
transmit_error _ = invalid_effect_state

unfoldable pub transmit : EffectRecord → Outcome
transmit r =
    if not (is_authorized r.state)
    then (r, err (transmit_error r.state))
    else (record r { state = executing; transmit_count = (r.transmit_count + 1) % 2 ^ 32 }, ok tt)

unfoldable pub mark_ambiguous_timeout : EffectRecord → Outcome
mark_ambiguous_timeout r =
    if not (is_executing r.state)
    then (r, err invalid_effect_state)
    else (record r { state = outcome_unknown; reconciliation_queued = true }, ok tt)

unfoldable pub begin_reconciliation : EffectRecord → Outcome
begin_reconciliation r =
    if not (can_reconcile r.state)
    then (r, err invalid_effect_state)
    else (record r { state = reconciling; reconciliation_queued = false }, ok tt)

abbrev reconciled : ReconciliationEvidence → EffectState
reconciled confirmed_present = succeeded
reconciled confirmed_failure = failed_confirmed
reconciled proven_absent_and_reauthorized = authorized
reconciled unresolved = manual_review

unfoldable pub reconcile : EffectRecord → ReconciliationEvidence → Outcome
reconcile r evidence =
    if not (is_reconciling r.state)
    then (r, err invalid_effect_state)
    else (record r { state = reconciled evidence }, ok tt)

-- A call of one of the four methods, and a sequence of calls.
pub data Call : Type 0 where
  send time_out begin : Call
  decide : ReconciliationEvidence → Call

unfoldable pub call : EffectRecord → Call → Outcome
unfolding transmit mark_ambiguous_timeout begin_reconciliation reconcile
call r send = transmit r
call r time_out = mark_ambiguous_timeout r
call r begin = begin_reconciliation r
call r (decide evidence) = reconcile r evidence

unfoldable pub calls : EffectRecord → List Call → EffectRecord
calls r [] = r
calls r (c ∷ rest) = calls (call r c).0 rest
