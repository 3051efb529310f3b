-- ===== src/Effects/Covered.antt =====
-- Effects and the reservations that cover their costs
-- (platform-plugins/data-postgres/src/effect_commands.rs, budget_ledger.rs).
use masonwing.Prelude.{
  ◌≡◌, refl, sym, ap, subst, ◌∙◌, Bool, true, false, some, List, [], ◌∷◌, arith, map_get, contains,
  Text, text, text_eq, text_eq_refl,
}
use masonwing.Ledger.Tables.{Reservation, Ledger}
use masonwing.Effects.Tables.{Effect, Store}
use masonwing.Effects.Dispatch.{blocking_states, dispatchable_states, reconcilable_states}
use masonwing.Effects.Rows.{
  Moves, sent, looked_up, timed_out, succeeded, failed, reauthorized, halted,
}
use masonwing.Effects.Reservations.{
  HasWritten, mark_cost_unknown-HasWritten, release_budget-HasWritten, settle_budget-HasWritten,
}

abbrev open_states : List Text
open_states = text "PREPARED" ∷ text "AUTHORIZED" ∷ text "EXECUTING" ∷ []

abbrev held_states : List Text
held_states = text "RESERVED" ∷ text "UNKNOWN" ∷ []

-- The state of a reservation for each state of its effect: one that may still cost keeps its hold,
-- one of unknown outcome has an unknown cost, and the final ones have settled or released it.
pub record IsCovered (effect_state cost_state : Text) : Type 0 where
  pub before_outcome :
      contains open_states effect_state ≡ true → contains held_states cost_state ≡ true
  pub unknown_outcome : contains blocking_states effect_state ≡ true → cost_state ≡ text "UNKNOWN"
  pub success : text_eq effect_state (text "SUCCEEDED") ≡ true → cost_state ≡ text "SETTLED"
  pub failure : text_eq effect_state (text "FAILED_CONFIRMED") ≡ true → cost_state ≡ text "RELEASED"

-- Every effect has a reservation in a fitting state, and no two effects share one.
pub record AllCovered (s : Store) : Type 0 where
  pub covered :
      (id : Text) (e : Effect)
      → map_get id s.effects ≡ some e
      → (r : Reservation) × (map_get e.reservation_id s.ledger.reservations ≡ some r)
        × IsCovered e.state r.state
  pub apart :
      (id other : Text) (e f : Effect)
      → map_get id s.effects ≡ some e
      → map_get other s.effects ≡ some f
      → e.reservation_id ≡ f.reservation_id
      → id ≡ other

executing-IsCovered :
    (cost : Text) → contains held_states cost ≡ true → IsCovered (text "EXECUTING") cost
unfolding contains
executing-IsCovered cost h = record {
  before_outcome = λ _. h;
  unknown_outcome = λ k. absurd cc;
  success = λ k. absurd cc;
  failure = λ k. absurd cc;
}

pub authorized-IsCovered :
    (cost : Text) → contains held_states cost ≡ true → IsCovered (text "AUTHORIZED") cost
unfolding contains
authorized-IsCovered cost h = record {
  before_outcome = λ _. h;
  unknown_outcome = λ k. absurd cc;
  success = λ k. absurd cc;
  failure = λ k. absurd cc;
}

unknown-IsCovered : (cost : Text) → cost ≡ text "UNKNOWN" → IsCovered (text "OUTCOME_UNKNOWN") cost
unfolding contains
unknown-IsCovered cost h = record {
  before_outcome = λ k. absurd cc;
  unknown_outcome = λ _. h;
  success = λ k. absurd cc;
  failure = λ k. absurd cc;
}

reconciling-IsCovered : (cost : Text) → cost ≡ text "UNKNOWN" → IsCovered (text "RECONCILING") cost
unfolding contains
reconciling-IsCovered cost h = record {
  before_outcome = λ k. absurd cc;
  unknown_outcome = λ _. h;
  success = λ k. absurd cc;
  failure = λ k. absurd cc;
}

review-IsCovered : (cost : Text) → cost ≡ text "UNKNOWN" → IsCovered (text "MANUAL_REVIEW") cost
unfolding contains
review-IsCovered cost h = record {
  before_outcome = λ k. absurd cc;
  unknown_outcome = λ _. h;
  success = λ k. absurd cc;
  failure = λ k. absurd cc;
}

succeeded-IsCovered : (cost : Text) → cost ≡ text "SETTLED" → IsCovered (text "SUCCEEDED") cost
unfolding contains
succeeded-IsCovered cost h = record {
  before_outcome = λ k. absurd cc;
  unknown_outcome = λ k. absurd cc;
  success = λ _. h;
  failure = λ k. absurd cc;
}

failed-IsCovered : (cost : Text) → cost ≡ text "RELEASED" → IsCovered (text "FAILED_CONFIRMED") cost
unfolding contains
failed-IsCovered cost h = record {
  before_outcome = λ k. absurd cc;
  unknown_outcome = λ k. absurd cc;
  success = λ k. absurd cc;
  failure = λ _. h;
}

-- Members of the lists of states.
dispatchable_open :
    (state : Text) → contains dispatchable_states state ≡ true → contains open_states state ≡ true
unfolding contains
dispatchable_open state h = ground arith

reconcilable_blocking :
    (state : Text)
    → contains reconcilable_states state ≡ true
    → contains blocking_states state ≡ true
unfolding contains
reconcilable_blocking state h = ground arith

unknown_held : (cost : Text) → cost ≡ text "UNKNOWN" → contains held_states cost ≡ true
unfolding contains
unknown_held cost h = subst (λ (x : Text). contains held_states x ≡ true) (sym h) refl

at_state : (name state cost : Text) → state ≡ name → IsCovered name cost → IsCovered state cost
at_state name state cost e h = subst (λ (x : Text). IsCovered x cost) (sym e) h

-- The reservation of the changed effect fits its new state.
module _ (l m : Ledger) (id : Text) (before : Text) (r : Reservation)
    (found : map_get id l.reservations ≡ some r) (covered : IsCovered before r.state) where
  -- The reservation of the given name after the change, in a state that fits.
  abbrev Fits : Text → Type 0
  Fits after = (r' : Reservation) × (map_get id m.reservations ≡ some r') × IsCovered after r'.state

  Fits-kept : (after : Text) → m ≡ l → IsCovered after r.state → Fits after
  Fits-kept after same fit = (r, ap (λ (x : Ledger). map_get id x.reservations) same ∙ found, fit)

  Fits-written :
      (after state : Text)
      → HasWritten l m id state
      → ((cost : Text) → cost ≡ state → IsCovered after cost)
      → Fits after
  Fits-written after state w fit =
      (w.row, w.at id ∙ rw (text_eq_refl id), fit w.row.state w.in_state)

  held : contains dispatchable_states before ≡ true → contains held_states r.state ≡ true
  held h = covered.before_outcome (dispatchable_open before h)

pub Moves-Fits :
    (absent : Bool) (before row : Effect) (l m : Ledger) (r : Reservation)
    → map_get before.reservation_id l.reservations ≡ some r
    → IsCovered before.state r.state
    → Moves absent before row l m
    → (r' : Reservation) × (map_get before.reservation_id m.reservations ≡ some r')
      × IsCovered row.state r'.state
unfolding contains
Moves-Fits absent before row l m r found c (sent from to count kept) =
    Fits-kept l m before.reservation_id before.state r found c row.state kept (
      at_state (text "EXECUTING") row.state r.state to
        (executing-IsCovered r.state (held l m before.reservation_id before.state r found c from)))
Moves-Fits absent before row l m r found c (looked_up from to count kept) =
    Fits-kept l m before.reservation_id before.state r found c row.state kept (
      at_state (text "RECONCILING") row.state r.state to (
        reconciling-IsCovered r.state
          (c.unknown_outcome (reconcilable_blocking before.state from))))
Moves-Fits absent before row l m r found c (timed_out p from to count marked) =
    Fits-written l m before.reservation_id before.state r found c row.state (text "UNKNOWN")
      (mark_cost_unknown-HasWritten l m before.reservation_id p marked)
      (λ cost h. at_state (text "OUTCOME_UNKNOWN") row.state cost to (unknown-IsCovered cost h))
Moves-Fits absent before row l m r found c (succeeded p used from to count settled) =
    Fits-written l m before.reservation_id before.state r found c row.state (text "SETTLED")
      (settle_budget-HasWritten l m before.reservation_id p used (some before.fingerprint) settled)
      (λ cost h. at_state (text "SUCCEEDED") row.state cost to (succeeded-IsCovered cost h))
Moves-Fits absent before row l m r found c (failed p from to count released) =
    Fits-written l m before.reservation_id before.state r found c row.state (text "RELEASED")
      (release_budget-HasWritten l m before.reservation_id p released)
      (λ cost h. at_state (text "FAILED_CONFIRMED") row.state cost to (failed-IsCovered cost h))
Moves-Fits absent before row l m r found c (reauthorized proven from to count kept) =
    Fits-kept l m before.reservation_id before.state r found c row.state kept (
      at_state (text "AUTHORIZED") row.state r.state to (
        authorized-IsCovered r.state (
          unknown_held r.state (
            c.unknown_outcome
              (subst (λ (x : Text). contains blocking_states x ≡ true) (sym from) refl)))))
Moves-Fits absent before row l m r found c (halted from to count kept) =
    Fits-kept l m before.reservation_id before.state r found c row.state kept (
      at_state (text "MANUAL_REVIEW") row.state r.state to (
        review-IsCovered r.state (
          c.unknown_outcome
            (subst (λ (x : Text). contains blocking_states x ≡ true) (sym from) refl))))

-- The other reservations are as they were.
written_elsewhere :
    (l m : Ledger) (id state x : Text)
    → HasWritten l m id state
    → text_eq id x ≡ false
    → map_get x m.reservations ≡ map_get x l.reservations
written_elsewhere l m id state x w other = w.at x ∙ rw other refl

pub Moves-elsewhere :
    (absent : Bool) (before row : Effect) (l m : Ledger) (x : Text)
    → Moves absent before row l m
    → text_eq before.reservation_id x ≡ false
    → map_get x m.reservations ≡ map_get x l.reservations
Moves-elsewhere absent before row l m x (sent from to count kept) h =
    ap (λ (y : Ledger). map_get x y.reservations) kept
Moves-elsewhere absent before row l m x (looked_up from to count kept) h =
    ap (λ (y : Ledger). map_get x y.reservations) kept
Moves-elsewhere absent before row l m x (timed_out p from to count marked) h =
    written_elsewhere l m before.reservation_id (text "UNKNOWN") x
      (mark_cost_unknown-HasWritten l m before.reservation_id p marked) h
Moves-elsewhere absent before row l m x (succeeded p used from to count settled) h =
    written_elsewhere l m before.reservation_id (text "SETTLED") x
      (settle_budget-HasWritten l m before.reservation_id p used (some before.fingerprint) settled)
      h
Moves-elsewhere absent before row l m x (failed p from to count released) h =
    written_elsewhere l m before.reservation_id (text "RELEASED") x
      (release_budget-HasWritten l m before.reservation_id p released) h
Moves-elsewhere absent before row l m x (reauthorized proven from to count kept) h =
    ap (λ (y : Ledger). map_get x y.reservations) kept
Moves-elsewhere absent before row l m x (halted from to count kept) h =
    ap (λ (y : Ledger). map_get x y.reservations) kept
