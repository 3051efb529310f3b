-- ===== src/Ledger/Changes.antt =====
-- What the changes of a reservation do to the balance of an account
-- (platform-plugins/data-postgres/src/budget_ledger.rs).
use masonwing.Prelude.{
  ℕ, ◌≤◌, ◌≡◌, refl, sym, ap, subst, inl, inr, Bool, true, false, ◌&&◌, Option, none, some, arith,
  ℤ, pos, negsuc, pos_part, leb_ℤ, eq_ℤ, map_get, ok, guard_passes, ok_or-some, bind_ok,
  ok-injective, if◌then◌else◌, Bool-cases, Text, text, text_eq,
}
use masonwing.Kernel.Runtime.Failure.{precondition, not_found}
use masonwing.Ledger.Tables.{Reservation, Ledger}
use masonwing.Ledger.Accounts.{end_holds}
use masonwing.Ledger.Rows.{CostProjection, require_cost_transition, next_version}
use masonwing.Ledger.Operations.{
  replay, settle_open, settle_budget, mark_cost_unknown, release_budget, locked_reservation,
}
use masonwing.Ledger.Balance.{times, Ended, end_holds-Ended}
use masonwing.Ledger.Sums.{IsBalanced, require_cost_transition-open}
use masonwing.Ledger.Written.{kept-IsBalanced, Ended-IsBalanced, write-parts}

locked_row :
    (l : Ledger) (id : Text) (r : Reservation)
    → locked_reservation l id ≡ ok r
    → map_get id l.reservations ≡ some r
unfolding locked_reservation
locked_row l id r h = ok_or-some (map_get id l.reservations) not_found r h

module _ (key : Text) (l m : Ledger) (id : Text) (p : CostProjection)
    (before : IsBalanced key l) where
  pub mark_cost_unknown-IsBalanced : mark_cost_unknown l id ≡ ok (m, p) → IsBalanced key m
  unfolding mark_cost_unknown text_eq
  mark_cost_unknown-IsBalanced h =
      let (r, locked, h1) = bind_ok (locked_reservation l id) _ (m, p) h in
      let (u, change, h2) =
        bind_ok (require_cost_transition r.state (text "UNKNOWN")) _ (m, p) h1 in
      let (version, _, h3) = bind_ok (next_version r.version) _ (m, p) h2 in
      let (accounts, rows) = write-parts l m l.accounts id _ _ p h3 in
      kept-IsBalanced key l m id r (record r { state = text "UNKNOWN"; version = version })
        (locked_row l id r locked) (require_cost_transition-open r.state (text "UNKNOWN") u change)
        rows before accounts refl refl

  pub release_budget-IsBalanced : release_budget l id ≡ ok (m, p) → IsBalanced key m
  unfolding release_budget text_eq
  release_budget-IsBalanced h =
      let (r, locked, h1) = bind_ok (locked_reservation l id) _ (m, p) h in
      let (u, change, h2) =
        bind_ok (require_cost_transition r.state (text "RELEASED")) _ (m, p) h1 in
      let (after, loop, h3) =
        bind_ok (end_holds r.upper_bound_microunits 0 r.account_keys l.accounts) _ (m, p) h2 in
      let (version, _, h4) = bind_ok (next_version r.version) _ (m, p) h3 in
      let (accounts, rows) = write-parts l m after id _ _ p h4 in
      Ended-IsBalanced key l m id r (record r { state = text "RELEASED"; version = version })
        (locked_row l id r locked) (require_cost_transition-open r.state (text "RELEASED") u change)
        rows before 0 (omega arith)
        (subst
          (λ x.
            Ended r.upper_bound_microunits 0 (times key r.account_keys) (map_get key l.accounts)
              (map_get key x))
          (sym accounts)
          (end_holds-Ended r.upper_bound_microunits 0 r.account_keys l.accounts after key loop))
        refl (omega arith)

  settle_open-IsBalanced :
      (r : Reservation) (used : ℤ) (fingerprint : Option Text)
      → map_get id l.reservations ≡ some r
      → settle_open l id r used fingerprint ≡ ok (m, p)
      → IsBalanced key m
  unfolding settle_open text_eq
  settle_open-IsBalanced r used fingerprint found h =
      let (u, change, h1) = bind_ok (require_cost_transition r.state (text "SETTLED")) _ (m, p) h in
      let (within, h2) =
        guard_passes (leb_ℤ (pos 0) used && leb_ℤ used (pos r.upper_bound_microunits))
          (precondition (text "USAGE_EXCEEDS_RESERVATION")) _ (m, p) h1 in
      let (after, loop, h3) =
        bind_ok (end_holds r.upper_bound_microunits (pos_part used) r.account_keys l.accounts) _
          (m, p) h2 in
      let (version, _, h4) = bind_ok (next_version r.version) _ (m, p) h3 in
      let (accounts, rows) = write-parts l m after id _ _ p h4 in
      Ended-IsBalanced key l m id r
        (record r {
          state = text "SETTLED";
          settled_microunits = some (pos_part used);
          usage_fingerprint = fingerprint;
          version = version;
        })
        found (require_cost_transition-open r.state (text "SETTLED") u change) rows before
        (pos_part used) (at_most used r.upper_bound_microunits within)
        (subst
          (λ x.
            Ended r.upper_bound_microunits (pos_part used) (times key r.account_keys)
              (map_get key l.accounts) (map_get key x))
          (sym accounts)
          (end_holds-Ended r.upper_bound_microunits (pos_part used) r.account_keys l.accounts after
            key loop))
        refl refl
    where
      at_most :
          (used : ℤ) (n : ℕ) → (leb_ℤ (pos 0) used && leb_ℤ used (pos n)) ≡ true → pos_part used ≤ n
      at_most (pos u) n k = ground arith
      at_most (negsuc u) n k = ground arith

  replay-IsBalanced :
      (r : Reservation) (settled : Option ℕ) (used : ℤ)
      → replay l id r settled used ≡ ok (m, p)
      → IsBalanced key m
  unfolding replay
  replay-IsBalanced r none used h = absurd cc
  replay-IsBalanced r (some n) used h = elim (Bool-cases (eq_ℤ (pos n) used)) [
    | inl same ↦
        subst (IsBalanced key)
          (ap (λ (y : Ledger × CostProjection). y.0) (ok-injective _ (m, p) (rw same at h))) before
    | inr differs ↦ absurd (cc (rw differs at h))
  ]

  pub settle_budget-IsBalanced :
      (used : ℤ) (fingerprint : Option Text)
      → settle_budget l id used fingerprint ≡ ok (m, p)
      → IsBalanced key m
  unfolding settle_budget
  settle_budget-IsBalanced used fingerprint h =
      let (r, locked, h1) = bind_ok (locked_reservation l id) _ (m, p) h in
      either_way r (locked_row l id r locked) (text_eq r.state (text "SETTLED")) h1
    where
      either_way :
          (r : Reservation)
          → map_get id l.reservations ≡ some r
          → (settled : Bool)
          → (if settled
              then replay l id r r.settled_microunits used
              else settle_open l id r used fingerprint)
            ≡ ok (m, p)
          → IsBalanced key m
      either_way r found true k = replay-IsBalanced r r.settled_microunits used k
      either_way r found false k = settle_open-IsBalanced r used fingerprint found k
