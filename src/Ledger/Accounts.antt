-- ===== src/Ledger/Accounts.antt =====
-- platform-plugins/data-postgres/src/budget_ledger.rs: what its statements do to the accounts.
use masonwing.Prelude.{
  ℕ, ◌+◌, ◌-◌, ◌^◌, ◌&&◌, ◌||◌, Option, none, some, List, [], ◌∷◌, map_insert, map_get, Result, ok,
  err, ◌>>=◌, ltb, leb, ◌==◌, if◌then◌else◌, Text, text, text_eq,
}
use masonwing.Kernel.Runtime.Failure.{CommandFailure, conflict, precondition}
use masonwing.Ledger.Tables.{Setting, Account, constraint_invalid}

abbrev pub Accounts : Type 0
Accounts = List (Text × Account)

abbrev pub budget_exceeded : CommandFailure
budget_exceeded = conflict (text "BUDGET_EXCEEDED")

abbrev pub budget_not_configured : CommandFailure
budget_not_configured = precondition (text "BUDGET_NOT_CONFIGURED")

-- `key.split(':').next()`
unfoldable pub period_of : Text → Text
period_of [] = []
period_of (b ∷ s) = let rest = period_of s in if b == b':' then [] else b ∷ rest

-- The SELECT of a limit, a limit of 0 left out.
unfoldable pub limit_of : List Setting → Text → Text → Option ℕ
unfolding text_eq
limit_of [] currency period = none
limit_of (s ∷ rest) currency period =
    let later = limit_of rest currency period in
    if text_eq s.currency currency && text_eq s.period period
    then (if s.limit_microunits == 0 then none else some s.limit_microunits)
    else later

-- The UPDATE of an account that exists: the sum has to be a bigint, and the CHECK to hold.
unfoldable pub hold : Account → ℕ → Result Account CommandFailure
hold a bound =
    if leb (2 ^ 63) (a.held_microunits + bound)
    then err constraint_invalid
    else if ltb a.limit_microunits (a.held_microunits + bound + a.charged_microunits)
    then err budget_exceeded
    else ok (record a { held_microunits = a.held_microunits + bound })

-- The INSERT of an account that did not exist, under the same CHECK.
unfoldable pub seed : Option ℕ → Text → ℕ → Result Account CommandFailure
seed none currency bound = err budget_not_configured
seed (some limit) currency bound =
    if ltb limit bound
    then err budget_exceeded
    else ok (record {
      currency = currency;
      limit_microunits = limit;
      held_microunits = bound;
      charged_microunits = 0;
    })

unfoldable pub hold_or_seed :
    List Setting → Option Account → Text → Text → ℕ → Result Account CommandFailure
unfolding hold seed limit_of period_of
hold_or_seed settings none currency key bound =
    seed (limit_of settings currency (period_of key)) currency bound
hold_or_seed settings (some a) currency key bound = hold a bound

-- The loop of `reserve_budget`.
unfoldable pub hold_all :
    List Setting → Text → ℕ → List Text → Accounts → Result Accounts CommandFailure
unfolding hold_or_seed map_get map_insert
hold_all settings currency bound [] accounts = ok accounts
hold_all settings currency bound (key ∷ rest) accounts =
    hold_or_seed settings (map_get key accounts) currency key bound >>= λ a.
    hold_all settings currency bound rest (map_insert key a accounts)

-- The UPDATE that ends a hold and charges what was used, under the CHECKs of the table.
unfoldable pub end_hold : Account → ℕ → ℕ → Result Account CommandFailure
end_hold a bound used =
    if ltb a.held_microunits bound
      || ltb a.limit_microunits (a.held_microunits - bound + (a.charged_microunits + used))
    then err constraint_invalid
    else ok (record a {
      held_microunits = a.held_microunits - bound;
      charged_microunits = a.charged_microunits + used;
    })

-- One round of it: a key without a row is passed over.
unfoldable pub end_row : Accounts → Text → Option Account → ℕ → ℕ → Result Accounts CommandFailure
unfolding end_hold map_insert
end_row accounts key none bound used = ok accounts
end_row accounts key (some a) bound used =
    end_hold a bound used >>= λ b. ok (map_insert key b accounts)

-- The loops of `settle_budget` and, with nothing used, of `release_budget`.
unfoldable pub end_holds : ℕ → ℕ → List Text → Accounts → Result Accounts CommandFailure
unfolding end_row map_get
end_holds bound used [] accounts = ok accounts
end_holds bound used (key ∷ rest) accounts =
    end_row accounts key (map_get key accounts) bound used >>= λ after.
    end_holds bound used rest after
