-- ===== src/Ledger/Sums.antt =====
-- Sums over the reservations (platform-plugins/data-postgres/src/budget_ledger.rs).
use masonwing.Prelude.{
  ℕ, ◌+◌, ◌*◌, ◌≡◌, refl, sym, ap, subst, inl, inr, Bool, true, ◌||◌, Option, none, some, List, [],
  ◌∷◌, arith, map_insert, map_get, Result, ok, err, guard_passed, bind_ok, ok-injective,
  if◌then◌else◌, Bool-cases, Text, text, text_eq,
}
use masonwing.Kernel.State.Machines.{
  CostState, MachineState, plugin, run, approval, effect, cost, can_transition_to, cost_edge,
}
use masonwing.Kernel.State.Parse.{StateError, parse}
use masonwing.Kernel.State.Names.{machine_name, state_name, Parses, parse_lem}
use masonwing.Kernel.Runtime.Failure.{conflict}
use masonwing.Ledger.Tables.{Reservation, Ledger}
use masonwing.Ledger.Rows.{parsed, require_cost_transition}
use masonwing.Ledger.Balance.{times, held_of, charged_of}

abbrev pub is_open : Text → Bool
is_open state = text_eq state (text "RESERVED") || text_eq state (text "UNKNOWN")

unfoldable pub sum_of : (Reservation → ℕ) → List (Text × Reservation) → ℕ
sum_of share [] = 0
sum_of share ((_, r) ∷ rest) = share r + sum_of share rest

-- What an account holds for a reservation: its bound while it is reserved or unknown.
abbrev pub held_for : Text → Reservation → ℕ
held_for key r = if is_open r.state then r.upper_bound_microunits * times key r.account_keys else 0

abbrev pub settled_amount : Option ℕ → ℕ
settled_amount none = 0
settled_amount (some n) = n

-- What an account has been charged for a reservation: what it was settled with.
abbrev pub charged_for : Text → Reservation → ℕ
charged_for key r =
    if text_eq r.state (text "SETTLED")
    then settled_amount r.settled_microunits * times key r.account_keys
    else 0

-- The account of every key holds what the open reservations hold on it, and has been charged what the
-- settled ones were settled with; an account without a row holds and has been charged nothing.
pub record IsBalanced (key : Text) (l : Ledger) : Type 0 where
  pub held : held_of (map_get key l.accounts) ≡ sum_of (held_for key) l.reservations
  pub charged : charged_of (map_get key l.accounts) ≡ sum_of (charged_for key) l.reservations

abbrev share_of : (Reservation → ℕ) → Option Reservation → ℕ
share_of share none = 0
share_of share (some r) = share r

pub sum_of-insert :
    (share : Reservation → ℕ) (id : Text) (r : Reservation) (rows : List (Text × Reservation))
    → sum_of share (map_insert id r rows) + share_of share (map_get id rows)
      ≡ sum_of share rows + share r
unfolding sum_of map_insert map_get
sum_of-insert share id r [] = omega arith
sum_of-insert share id r ((k, x) ∷ rest) = elim (Bool-cases (text_eq k id)) [
  | inl same ↦ rw same (omega arith)
  | inr other ↦
      let later = sum_of-insert share id r rest in rw other (moved (share x) (share r) _ _ _ later)
]
  where
    moved : (x r a b c : ℕ) → a + b ≡ c + r → x + a + b ≡ x + c + r
    moved x r a b c h = omega arith

-- Only an open reservation changes its state.
cost_from : (c to : CostState) → cost_edge c to ≡ true → is_open (state_name (cost c)) ≡ true
unfolding cost_edge text_eq
cost_from CostState.reserved to h = refl
cost_from CostState.unknown to h = refl
cost_from CostState.settled to h = absurd cc
cost_from CostState.released to h = absurd cc

changes_from :
    (from to : MachineState)
    → text "cost" ≡ machine_name from
    → can_transition_to from to ≡ true
    → is_open (state_name from) ≡ true
unfolding can_transition_to
changes_from (plugin s) to named h = absurd cc
changes_from (run s) to named h = absurd cc
changes_from (approval s) to named h = absurd cc
changes_from (effect s) to named h = absurd cc
changes_from (cost c) (cost d) named h = cost_from c d h
changes_from (cost c) (plugin s) named h = absurd cc
changes_from (cost c) (run s) named h = absurd cc
changes_from (cost c) (approval s) named h = absurd cc
changes_from (cost c) (effect s) named h = absurd cc

pub require_cost_transition-open :
    (state next : Text) (u : Unit {0})
    → require_cost_transition state next ≡ ok u
    → is_open state ≡ true
unfolding require_cost_transition
require_cost_transition-open state next u h =
    let (from, e, h1) = bind_ok (parsed (parse (text "cost") state)) _ u h in
    let (to, _, h2) = bind_ok (parsed (parse (text "cost") next)) _ u h1 in
    let edge =
      guard_passed (can_transition_to from to) (conflict (text "ILLEGAL_TRANSITION")) u h2 in
    let (machine, name) =
      subst (Parses (text "cost") state) (read (parse (text "cost") state) from e)
        (parse_lem (text "cost") state) in
    subst (λ x. is_open x ≡ true) (sym name) (changes_from from to machine edge)
  where
    read : (r : Result MachineState StateError) (s : MachineState) → parsed r ≡ ok s → r ≡ ok s
    read (ok x) s k = ap ok (ok-injective x s k)
    read (err x) s k = absurd cc
