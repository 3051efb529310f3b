-- ===== src/Kernel/Budget/Laws.antt =====
-- Calls on a reservation and its settlement (crates/kernel/src/budget.rs).
use masonwing.Prelude.{
  ℕ, ◌+◌, ◌≤◌, ◌<◌, true, Option, none, some, List, [], ◌∷◌, ok, err, ◌≡◌, refl, ◌≢◌, ◌⊎◌, arith,
  ◌==◌, if◌then◌else◌, ◌∙◌,
}
use masonwing.Kernel.State.Machines.{reserved, settled, unknown, released, cost_edge}
use masonwing.Kernel.Budget.{
  BudgetError, price_bound_unknown, settlement_conflict, CostReservation, Outcome, reserve, Call,
  settle, call, calls,
}

-- There is a charge, and it is within the bound.
abbrev pub IsCharge : Option ℕ → ℕ → Type 0
IsCharge none bound = ⊥
IsCharge (some used) bound = used ≤ bound

-- An open reservation holds its whole bound and charges nothing; a settled one holds nothing and
-- charges at most the bound; reconciliation is queued exactly while the usage is unknown.
pub record IsValid (r : CostReservation) : Type 0 where
  pub priced : 0 < r.upper_bound_microunits
  pub never_released : r.state ≢ released
  pub open_holds : r.state ≢ settled → r.held_microunits ≡ r.upper_bound_microunits
  pub open_charges : r.state ≢ settled → r.charged_microunits ≡ none
  pub settled_holds : r.state ≡ settled → r.held_microunits ≡ 0
  pub settled_charges : r.state ≡ settled → IsCharge r.charged_microunits r.upper_bound_microunits
  pub queued_unknown : r.reconciliation_queued ≡ true → r.state ≡ unknown
  pub unknown_queued : r.state ≡ unknown → r.reconciliation_queued ≡ true

-- A new reservation is refused at the price zero, and otherwise holds its whole bound.
pub reserve-IsValid :
    (upper_bound : ℕ) {r : CostReservation}
    → reserve upper_bound ≡ ok r
    → IsValid r × (r.state ≡ reserved) × (r.upper_bound_microunits ≡ upper_bound)
unfolding reserve
reserve-IsValid upper_bound h = ground arith

pub reserve-zero : reserve 0 ≡ err price_bound_unknown
unfolding reserve
reserve-zero = refl

-- Each call keeps a reservation valid, keeps its bound, and follows an edge of the cost machine or
-- leaves the reservation as it was; on an error it always does the latter.
pub record CallLaws (r : CostReservation) (o : Outcome) : Type 0 where
  pub valid : IsValid o.0
  pub bound_kept : o.0.upper_bound_microunits ≡ r.upper_bound_microunits
  pub edge : (o.0 ≡ r) ⊎ (cost_edge r.state o.0.state ≡ true)
  pub error_unchanged : (e : BudgetError) → o.1 ≡ err e → o.0 ≡ r

call-IsValid : (r : CostReservation) (c : Call) → IsValid r → IsValid (call r c).0
unfolding call
call-IsValid r c v = ground arith

call_bound :
    (r : CostReservation) (c : Call)
    → (call r c).0.upper_bound_microunits ≡ r.upper_bound_microunits
unfolding call
call_bound r c = ground arith

call_edge :
    (r : CostReservation) (c : Call)
    → ((call r c).0 ≡ r) ⊎ (cost_edge r.state (call r c).0.state ≡ true)
unfolding call cost_edge
call_edge r c = ground arith

call_error :
    (r : CostReservation) (c : Call) (e : BudgetError) → (call r c).1 ≡ err e → (call r c).0 ≡ r
unfolding call
call_error r c e h = ground arith

-- Every call on a valid reservation, refused or not, keeps it valid, keeps its bound, and follows an
-- edge of the cost machine or leaves the reservation as it was; after an error it is as it was.
pub cost-CallLaws : (r : CostReservation) (c : Call) → IsValid r → CallLaws r (call r c)
cost-CallLaws r c v = record {
  valid = call-IsValid r c v;
  bound_kept = call_bound r c;
  edge = call_edge r c;
  error_unchanged = λ e. call_error r c e;
}

pub calls-IsValid : (r : CostReservation) (cs : List Call) → IsValid r → IsValid (calls r cs)
unfolding calls
calls-IsValid r [] v = v
calls-IsValid r (c ∷ rest) v = calls-IsValid (call r c).0 rest (call-IsValid r c v)

-- The amount that is held or charged, which the bound covers.
abbrev pub charged : Option ℕ → ℕ
charged none = 0
charged (some used) = used

IsValid-exposure :
    (r : CostReservation)
    → IsValid r
    → r.held_microunits + charged r.charged_microunits ≤ r.upper_bound_microunits
IsValid-exposure r v = ground arith

calls_bound :
    (r : CostReservation) (cs : List Call)
    → (calls r cs).upper_bound_microunits ≡ r.upper_bound_microunits
unfolding calls
calls_bound r [] = refl
calls_bound r (c ∷ rest) = calls_bound (call r c).0 rest ∙ call_bound r c

-- However a reservation is used after it was made, what it holds and what it has charged together
-- stay within the bound that was reserved.
pub exposure_bounded :
    (upper_bound : ℕ) (r : CostReservation) (cs : List Call)
    → reserve upper_bound ≡ ok r
    → (calls r cs).held_microunits + charged (calls r cs).charged_microunits ≤ upper_bound
exposure_bounded upper_bound r cs h =
    let (valid, _, bound) = reserve-IsValid upper_bound h in
    omega (arith, IsValid-exposure (calls r cs) (calls-IsValid r cs valid), calls_bound r cs, bound)

settled_call : (r : CostReservation) (c : Call) → r.state ≡ settled → (call r c).0 ≡ r
unfolding call
settled_call r c h = ground arith

settled_calls : (r : CostReservation) (cs : List Call) → r.state ≡ settled → calls r cs ≡ r
unfolding calls
settled_calls r [] h = refl
settled_calls r (c ∷ rest) h = rw (settled_call r c h) (settled_calls r rest h)

settle_accepted :
    (r : CostReservation) (used : ℕ)
    → (call r (settle used)).1 ≡ ok tt
    → ((call r (settle used)).0.state ≡ settled)
      × ((call r (settle used)).0.charged_microunits ≡ some used)
unfolding call
settle_accepted r used h = ground arith

settle_settled :
    (r : CostReservation) (used again : ℕ)
    → r.state ≡ settled
    → r.charged_microunits ≡ some used
    → (call r (settle again)).1 ≡ (if used == again then ok tt else err settlement_conflict)
unfolding call
settle_settled r used again h c = ground arith

-- A settlement that was accepted is final: after any further calls the reservation is what the
-- settlement left, with that usage charged, and a settlement is accepted for that usage only.
pub settlement_final :
    (r : CostReservation) (used : ℕ) (cs : List Call)
    → (call r (settle used)).1 ≡ ok tt
    → (calls (call r (settle used)).0 cs ≡ (call r (settle used)).0)
      × ((call r (settle used)).0.charged_microunits ≡ some used)
      × ((again : ℕ)
          → (call (call r (settle used)).0 (settle again)).1
            ≡ (if used == again then ok tt else err settlement_conflict))
settlement_final r used cs h =
    let (is_done, charge) = settle_accepted r used h in
    (
      settled_calls (call r (settle used)).0 cs is_done,
      charge,
      λ again. settle_settled (call r (settle used)).0 used again is_done charge,
    )
