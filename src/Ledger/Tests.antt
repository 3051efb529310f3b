-- ===== src/Ledger/Tests.antt =====
-- The budget ledger with one limit of 100 for a run.
use masonwing.Prelude.{
  List, ◌+◌, ◌≤◌, ℕ, ◌≡◌, refl, true, none, some, [], ◌∷◌, ℤ, pos, negsuc, map_get, ok, err, Text,
  text,
}
use masonwing.Kernel.Runtime.Failure.{conflict, precondition}
use masonwing.Ledger.Tables.{Account, Reservation, Ledger}
use masonwing.Ledger.Accounts.{budget_exceeded, budget_not_configured}
use masonwing.Ledger.Rows.{CostProjection, ReserveCall}
use masonwing.Ledger.Operations.{
  Operation, reserve, settle, cost_unknown, release, reserve_budget, settle_budget, operate_all,
}
use masonwing.Ledger.Balance.{times}
use masonwing.Ledger.Sums.{sum_of, held_for, charged_for, IsBalanced}
use masonwing.Ledger.Balanced.{operate_all-IsBalanced}
use masonwing.Ledger.Settlement.{settle_budget_once}

abbrev opened : Ledger
opened = record {
  settings = record { currency = text "EUR"; period = text "RUN"; limit_microunits = 100 } ∷ [];
  accounts = [];
  reservations = [];
  events = [];
}

abbrev call_of : Text → Text → ℤ → Text → ReserveCall
call_of id call_id bound key = record {
  id = id;
  run_exists = true;
  run_id = text "run1";
  logical_call_id = call_id;
  currency = text "EUR";
  upper_bound_microunits = bound;
  price_profile = text "std";
  account_keys = key ∷ [];
}

unconfigured :
    reserve_budget opened (call_of (text "r1") (text "c1") (pos 40) (text "DAY:1"))
    ≡ err budget_not_configured
unfolding reserve_budget
unconfigured = refl

unpriced :
    reserve_budget opened (call_of (text "r1") (text "c1") (pos 0) (text "RUN:1"))
    ≡ err (precondition (text "PRICE_BOUND_UNKNOWN"))
unfolding reserve_budget
unpriced = refl

too_much :
    reserve_budget opened (call_of (text "r1") (text "c1") (pos 101) (text "RUN:1"))
    ≡ err budget_exceeded
unfolding reserve_budget
too_much = refl

abbrev operations : List Operation
operations =
    reserve (call_of (text "r1") (text "c1") (pos 40) (text "RUN:1"))
    ∷ reserve (call_of (text "r2") (text "c2") (pos 61) (text "RUN:1"))
    ∷ settle (text "r1") (pos 25) none
    ∷ reserve (call_of (text "r2") (text "c2") (pos 61) (text "RUN:1"))
    ∷ cost_unknown (text "r2")
    ∷ reserve (call_of (text "r3") (text "c3") (pos 4) (text "RUN:1"))
    ∷ release (text "r3")
    ∷ []

opened-IsBalanced : IsBalanced (text "RUN:1") opened
unfolding map_get sum_of
opened-IsBalanced = record { held = refl; charged = refl }

operate_all-IsBalanced_example :
    IsBalanced (text "RUN:1") (operate_all opened operations)
    × ((a : Account)
        → map_get (text "RUN:1") (operate_all opened operations).accounts ≡ some a
        → sum_of (held_for (text "RUN:1")) (operate_all opened operations).reservations
            + sum_of (charged_for (text "RUN:1")) (operate_all opened operations).reservations
          ≤ a.limit_microunits)
unfolding map_get
operate_all-IsBalanced_example =
    operate_all-IsBalanced (text "RUN:1") opened operations opened-IsBalanced
      (λ key a found. absurd cc)

held_and_charged :
    (sum_of (held_for (text "RUN:1")) (operate_all opened operations).reservations ≡ 61)
    × (sum_of (charged_for (text "RUN:1")) (operate_all opened operations).reservations ≡ 25)
unfolding operate_all sum_of times
held_and_charged = (refl, refl)

abbrev held_row : Reservation
held_row = record {
  run_id = text "run1";
  logical_call_id = text "c1";
  currency = text "EUR";
  upper_bound_microunits = 40;
  settled_microunits = none;
  state = text "RESERVED";
  price_profile = text "std";
  account_keys = text "RUN:1" ∷ [];
  usage_fingerprint = none;
  version = 1;
}

abbrev account : ℕ → ℕ → Account
account held charged = record {
  currency = text "EUR";
  limit_microunits = 100;
  held_microunits = held;
  charged_microunits = charged;
}

abbrev held_ledger : Ledger
held_ledger = record opened {
  accounts = (text "RUN:1", account 40 0) ∷ [];
  reservations = (text "r1", held_row) ∷ [];
}

abbrev settled_row : Reservation
settled_row = record held_row { settled_microunits = some 25; state = text "SETTLED"; version = 2 }

abbrev settled_ledger : Ledger
settled_ledger = record opened {
  accounts = (text "RUN:1", account 0 25) ∷ [];
  reservations = (text "r1", settled_row) ∷ [];
  events =
      record {
        reservation_id = text "r1";
        event_type = text "SETTLED";
        held_delta = negsuc 39;
        charged_delta = pos 25;
        usage_fingerprint = none;
      }
      ∷ [];
}

abbrev projection : CostProjection
projection = record {
  reservation_id = text "r1";
  run_id = text "run1";
  currency = text "EUR";
  upper_bound_microunits = 40;
  settled_microunits = some 25;
  state = text "SETTLED";
  price_profile = text "std";
  version = 2;
}

settles : settle_budget held_ledger (text "r1") (pos 25) none ≡ ok (settled_ledger, projection)
unfolding settle_budget
settles = refl

settle_budget_once_example :
    settle_budget settled_ledger (text "r1") (pos 26) none
    ≡ err (conflict (text "SETTLEMENT_CONFLICT"))
settle_budget_once_example =
    settle_budget_once held_ledger (text "r1") (pos 25) none settled_ledger projection settles
      (pos 26) none
