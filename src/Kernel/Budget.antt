-- ===== src/Kernel/Budget.antt =====
-- crates/kernel/src/budget.rs: one cost reservation and its settlement. Amounts are u64 microunits;
-- the code only compares and copies them, so no arithmetic of theirs can wrap.
pub mod Laws
use masonwing.Prelude.{
  ℕ, ◌==◌, ltb, Bool, true, false, not, ◌||◌, Option, none, some, List, [], ◌∷◌, Result, ok, err,
  if◌then◌else◌,
}
use masonwing.Kernel.State.Machines.{CostState, reserved, settled, unknown, released}

pub data BudgetError : Type 0 where
  price_bound_unknown illegal_cost_state settlement_conflict usage_exceeds_reservation : BudgetError

pub record CostReservation : Type 0 where
  pub upper_bound_microunits : ℕ
  pub held_microunits : ℕ
  pub charged_microunits : Option ℕ
  pub state : CostState
  pub reconciliation_queued : Bool

abbrev pub Outcome : Type 0
Outcome = CostReservation × Result (Unit {0}) BudgetError

unfoldable pub reserve : ℕ → Result CostReservation BudgetError
reserve upper_bound =
    if upper_bound == 0
    then err price_bound_unknown
    else ok (record {
      upper_bound_microunits = upper_bound;
      held_microunits = upper_bound;
      charged_microunits = none;
      state = reserved;
      reconciliation_queued = false;
    })

abbrev is_reserved : CostState → Bool
is_reserved reserved = true
is_reserved _ = false

abbrev is_settled : CostState → Bool
is_settled settled = true
is_settled _ = false

abbrev is_unknown : CostState → Bool
is_unknown unknown = true
is_unknown _ = false

-- `==` of an optional amount and an amount.
abbrev is_charged : Option ℕ → ℕ → Bool
is_charged none used = false
is_charged (some charged) used = charged == used

unfoldable pub mark_usage_unknown : CostReservation → Outcome
mark_usage_unknown r =
    if not (is_reserved r.state)
    then (r, err illegal_cost_state)
    else (record r { state = unknown; reconciliation_queued = true }, ok tt)

unfoldable pub settle_authoritative_usage : CostReservation → ℕ → Outcome
settle_authoritative_usage r used =
    if is_settled r.state
    then (r, if is_charged r.charged_microunits used then ok tt else err settlement_conflict)
    else if not (is_reserved r.state || is_unknown r.state)
    then (r, err illegal_cost_state)
    else if ltb r.upper_bound_microunits used
    then (r, err usage_exceeds_reservation)
    else (
      record r {
        state = settled;
        charged_microunits = some used;
        held_microunits = 0;
        reconciliation_queued = false;
      },
      ok tt,
    )

-- A call of one of the two methods that change a reservation, and a sequence of calls.
pub data Call : Type 0 where
  unknown_usage : Call
  settle : (used : ℕ) → Call

unfoldable pub call : CostReservation → Call → Outcome
unfolding mark_usage_unknown settle_authoritative_usage
call r unknown_usage = mark_usage_unknown r
call r (settle used) = settle_authoritative_usage r used

unfoldable pub calls : CostReservation → List Call → CostReservation
calls r [] = r
calls r (c ∷ rest) = calls (call r c).0 rest
