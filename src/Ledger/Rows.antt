-- ===== src/Ledger/Rows.antt =====
-- platform-plugins/data-postgres/src/budget_ledger.rs: the rows of reservations and events, with the
-- constraints of their tables, and the test of a change of state.
use masonwing.Prelude.{
  ℕ, zero, suc, ◌+◌, Bool, true, false, not, ◌&&◌, ◌||◌, Option, none, some, List, [], ◌∷◌, ◌++◌, ℤ,
  pos, negsuc, pos_part, map_insert, map_get, Result, ok, err, ◌>>=◌, ◌>>◌, guard, ltb, leb,
  if◌then◌else◌, Text, text, text_eq,
}
use masonwing.Kernel.State.Machines.{MachineState, can_transition_to}
use masonwing.Kernel.State.Parse.{StateError, parse}
use masonwing.Kernel.Runtime.Failure.{CommandFailure, not_found, conflict, unavailable}
use masonwing.Ledger.Tables.{Reservation, CostEvent, Ledger, constraint_invalid, resource_conflict}

-- The projection of a reservation (`reservation_value`), with its identifier and version.
pub record CostProjection : Type 0 where
  pub reservation_id : Text
  pub run_id : Text
  pub currency : Text
  pub upper_bound_microunits : ℕ
  pub settled_microunits : Option ℕ
  pub state : Text
  pub price_profile : Text
  pub version : ℕ

abbrev pub Answer : Type 0
Answer = Result (Ledger × CostProjection) CommandFailure

abbrev pub reservation_value : Text → Reservation → CostProjection
reservation_value id r = record {
  reservation_id = id;
  run_id = r.run_id;
  currency = r.currency;
  upper_bound_microunits = r.upper_bound_microunits;
  settled_microunits = r.settled_microunits;
  state = r.state;
  price_profile = r.price_profile;
  version = r.version;
}

abbrev cost_integrity : CommandFailure
cost_integrity = unavailable (text "COST_INTEGRITY")

abbrev pub parsed : Result MachineState StateError → Result MachineState CommandFailure
parsed (ok s) = ok s
parsed (err _) = err cost_integrity

unfoldable pub require_cost_transition : Text → Text → Result (Unit {0}) CommandFailure
unfolding parse can_transition_to
require_cost_transition state next = parsed (parse (text "cost") state) >>= λ from.
    parsed (parse (text "cost") next) >>= λ to.
    guard (can_transition_to from to) (conflict (text "ILLEGAL_TRANSITION"))

-- `version + 1` of an i32, which wraps below zero at the largest one, where the CHECK refuses it.
unfoldable pub next_version : ℕ → Result ℕ CommandFailure
next_version version = if ltb version 2147483647 then ok (version + 1) else err constraint_invalid

abbrev is_upper : ℕ → Bool
is_upper b = leb b'A' b && leb b b'Z'

-- The CHECK `currency ~ '^[A-Z]{3}$'`.
abbrev is_currency : Text → Bool
is_currency (a ∷ b ∷ c ∷ []) = is_upper a && is_upper b && is_upper c
is_currency _ = false

-- The UNIQUE of a run and its logical call.
unfoldable pub has_call : List (Text × Reservation) → Text → Text → Bool
unfolding text_eq
has_call [] run_id call_id = false
has_call ((_, r) ∷ rest) run_id call_id =
    (text_eq r.run_id run_id && text_eq r.logical_call_id call_id) || has_call rest run_id call_id

abbrev pub is_taken : Option Reservation → Bool
is_taken none = false
is_taken (some _) = true

-- The largest amount that the CHECK of a bound lets through.
abbrev max_microunits : ℕ
max_microunits = 9007199254740991

-- A call of `reserve_budget`. The new identifier is drawn at random by a library, and whether the run
-- exists is read from another table.
pub record ReserveCall : Type 0 where
  pub id : Text
  pub run_exists : Bool
  pub run_id : Text
  pub logical_call_id : Text
  pub currency : Text
  pub upper_bound_microunits : ℤ
  pub price_profile : Text
  pub account_keys : List Text

abbrev pub new_reservation : ReserveCall → Reservation
new_reservation c = record {
  run_id = c.run_id;
  logical_call_id = c.logical_call_id;
  currency = c.currency;
  upper_bound_microunits = pos_part c.upper_bound_microunits;
  settled_microunits = none;
  state = text "RESERVED";
  price_profile = c.price_profile;
  account_keys = c.account_keys;
  usage_fingerprint = none;
  version = 1;
}

-- The INSERT of a reservation, under the constraints of its table.
unfoldable pub insert_reservation :
    ReserveCall → List (Text × Reservation) → Result (List (Text × Reservation)) CommandFailure
unfolding has_call map_get map_insert
insert_reservation c reservations =
    guard (is_currency c.currency && leb (pos_part c.upper_bound_microunits) max_microunits)
      constraint_invalid
    >> guard
        (not (
          is_taken (map_get c.id reservations) || has_call reservations c.run_id c.logical_call_id))
        resource_conflict
    >> guard c.run_exists not_found
    >> ok (map_insert c.id (new_reservation c) reservations)

abbrev pub negative : ℕ → ℤ
negative zero = pos 0
negative (suc n) = negsuc n

abbrev pub event : Text → Text → ℤ → ℤ → Option Text → CostEvent
event id event_type held charged fingerprint = record {
  reservation_id = id;
  event_type = event_type;
  held_delta = held;
  charged_delta = charged;
  usage_fingerprint = fingerprint;
}

-- The UNIQUE of a reservation and a kind of event.
unfoldable pub has_event : List CostEvent → CostEvent → Bool
unfolding text_eq
has_event [] e = false
has_event (x ∷ rest) e =
    (text_eq x.reservation_id e.reservation_id && text_eq x.event_type e.event_type)
    || has_event rest e

unfoldable pub insert_cost_event :
    List CostEvent → CostEvent → Result (List CostEvent) CommandFailure
unfolding has_event
insert_cost_event events e =
    guard (not (has_event events e)) resource_conflict >> ok (events ++ e ∷ [])
