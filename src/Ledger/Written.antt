-- ===== src/Ledger/Written.antt =====
-- What the row of a reservation that is written does to the balance of an account
-- (platform-plugins/data-postgres/src/budget_ledger.rs).
use masonwing.Prelude.{
  ℕ, zero, suc, ◌+◌, ◌*◌, ◌≤◌, ◌≡◌, refl, sym, ap, subst, ◌∙◌, inl, inr, Bool, true, false, not,
  ◌||◌, Option, none, some, List, arith, map_insert, map_get, ok, guard, guard_passed, bind_ok,
  ok-injective, Bool-cases, Text, text, text_eq, text_eq_iff,
}
use masonwing.Kernel.Runtime.Failure.{not_found}
use masonwing.Ledger.Tables.{Reservation, CostEvent, Ledger, resource_conflict}
use masonwing.Ledger.Accounts.{Accounts}
use masonwing.Ledger.Rows.{
  CostProjection, ReserveCall, is_taken, has_call, insert_reservation, insert_cost_event,
  new_reservation,
}
use masonwing.Ledger.Operations.{write}
use masonwing.Ledger.Balance.{times, held_of, charged_of, Ended, missing, ended}
use masonwing.Ledger.Sums.{is_open, sum_of, held_for, charged_for, IsBalanced, sum_of-insert}

nothing_used : (bound used n : ℕ) → used ≤ bound → bound * n ≡ 0 → used * n ≡ 0
nothing_used bound used zero small h = omega arith
nothing_used bound used (suc n) small h =
    let b : bound ≡ 0 = first bound (bound * n) (sym (next bound n) ∙ h) in
    let u : used ≡ 0 = none_left used bound small b in ap (λ x. x * suc n) u ∙ omega arith
  where
    next : (b n : ℕ) → b * suc n ≡ b + b * n
    next b n = omega arith

    first : (x y : ℕ) → x + y ≡ 0 → x ≡ 0
    first x y k = omega arith

    none_left : (u b : ℕ) → u ≤ b → b ≡ 0 → u ≡ 0
    none_left u b k e = omega arith

closed : (state : Text) → is_open state ≡ true → text_eq state (text "SETTLED") ≡ false
unfolding text_eq
closed state h = elim (Bool-cases (text_eq state (text "SETTLED"))) [
  | inr other ↦ other
  | inl settled ↦ absurd (
      settled_open
        (subst (λ x. is_open x ≡ true) ((text_eq_iff state (text "SETTLED")).0 settled) h))
]
  where
    settled_open : is_open (text "SETTLED") ≡ true → ⊥
    settled_open k = absurd cc

-- A new row of a reservation that was open, beside what a loop did to the account of a key.
module _ (key : Text) (l m : Ledger) (id : Text) (r s : Reservation)
    (found : map_get id l.reservations ≡ some r) (was_open : is_open r.state ≡ true)
    (rows : m.reservations ≡ map_insert id s l.reservations) (before : IsBalanced key l) where
  held_sum :
      sum_of (held_for key) m.reservations + r.upper_bound_microunits * times key r.account_keys
      ≡ sum_of (held_for key) l.reservations + held_for key s
  held_sum =
      ap (λ x. sum_of (held_for key) x + r.upper_bound_microunits * times key r.account_keys) rows
      ∙ (ap (λ n. sum_of (held_for key) (map_insert id s l.reservations) + n)
            (sym (rw found (rw was_open refl)))
          ∙ sum_of-insert (held_for key) id s l.reservations)

  charged_sum :
      sum_of (charged_for key) m.reservations
      ≡ sum_of (charged_for key) l.reservations + charged_for key s
  charged_sum = no_more (sum_of (charged_for key) m.reservations) (
      ap (λ x. sum_of (charged_for key) x + 0) rows
      ∙ (ap (λ n. sum_of (charged_for key) (map_insert id s l.reservations) + n)
            (sym (rw found (rw (closed r.state was_open) refl)))
          ∙ sum_of-insert (charged_for key) id s l.reservations))
    where
      no_more : {b : ℕ} (a : ℕ) → a + 0 ≡ b → a ≡ b
      no_more a h = omega arith

  pub kept-IsBalanced :
      m.accounts ≡ l.accounts
      → held_for key s ≡ r.upper_bound_microunits * times key r.account_keys
      → charged_for key s ≡ 0
      → IsBalanced key m
  kept-IsBalanced same holds charges = record {
    held = ap (λ x. held_of (map_get key x)) same ∙ as_before _ _ _ _ _ held_sum holds before.held;
    charged =
        ap (λ x. charged_of (map_get key x)) same
        ∙ unchanged _ _ _ _ charged_sum charges before.charged;
  }
    where
      as_before : (m b l h o : ℕ) → m + b ≡ l + h → h ≡ b → o ≡ l → o ≡ m
      as_before m b l h o e k g = omega arith

      unchanged : (m l c o : ℕ) → m ≡ l + c → c ≡ 0 → o ≡ l → o ≡ m
      unchanged m l c o e k g = omega arith

  pub Ended-IsBalanced :
      (used : ℕ)
      → used ≤ r.upper_bound_microunits
      → Ended r.upper_bound_microunits used
          (times key r.account_keys)
          (map_get key l.accounts)
          (map_get key m.accounts)
      → held_for key s ≡ 0
      → charged_for key s ≡ used * times key r.account_keys
      → IsBalanced key m
  Ended-IsBalanced used small (ended a e held charged) holds charges = record {
    held = less _ _ _ _ _ _ held_sum holds before.held held;
    charged = more _ _ _ _ _ _ charged_sum charges before.charged charged;
  }
    where
      less : (m b l h o o' : ℕ) → m + b ≡ l + h → h ≡ 0 → o ≡ l → o ≡ o' + b → o' ≡ m
      less m b l h o o' e k g x = omega arith

      more : (m l c u o o' : ℕ) → m ≡ l + c → c ≡ u → o ≡ l → o' ≡ o + u → o' ≡ m
      more m l c u o o' e k g x = omega arith
  Ended-IsBalanced used small (missing e e') holds charges =
      let (empty, nothing) = none_held _ _ _ _ held_sum holds (sym before.held ∙ ap held_of e) in
      let unused =
        nothing_used r.upper_bound_microunits used (times key r.account_keys) small nothing in
      record {
        held = ap held_of e' ∙ sym empty;
        charged =
            ap charged_of e'
            ∙ none_charged _ _ _ charged_sum (charges ∙ unused)
                (sym before.charged ∙ ap charged_of e);
      }
    where
      none_held : (m b l h : ℕ) → m + b ≡ l + h → h ≡ 0 → l ≡ 0 → (m ≡ 0) × (b ≡ 0)
      none_held m b l h e k g = (omega arith, omega arith)

      none_charged : (m l c : ℕ) → m ≡ l + c → c ≡ 0 → l ≡ 0 → 0 ≡ m
      none_charged m l c e k g = omega arith

-- The tables after the row of a reservation is written.
pub write-parts :
    (l m : Ledger) (accounts : Accounts) (id : Text) (r : Reservation) (e : CostEvent)
    (p : CostProjection)
    → write l accounts id r e ≡ ok (m, p)
    → (m.accounts ≡ accounts) × (m.reservations ≡ map_insert id r l.reservations)
unfolding write
write-parts l m accounts id r e p h =
    let (events, _, h1) = bind_ok (insert_cost_event l.events e) _ (m, p) h in
    let same = ok-injective _ (m, p) h1 in
    (
      sym (ap (λ (y : Ledger × CostProjection). y.0.accounts) same),
      sym (ap (λ (y : Ledger × CostProjection). y.0.reservations) same),
    )

absent : (o : Option Reservation) (b : Bool) → not (is_taken o || b) ≡ true → o ≡ none
absent none b h = refl
absent (some r) b h = absurd cc

-- A new reservation had no row before.
pub insert_reservation-parts :
    (c : ReserveCall) (rows after : List (Text × Reservation))
    → insert_reservation c rows ≡ ok after
    → (map_get c.id rows ≡ none) × (map_insert c.id (new_reservation c) rows ≡ after)
unfolding insert_reservation
insert_reservation-parts c rows after h =
    let (u, g, h1) = bind_ok _ (λ _. ok (map_insert c.id (new_reservation c) rows)) after h in
    let (v, g1, h2) = bind_ok _ (λ _. guard c.run_exists not_found) u g in
    let (w, g2, h3) =
      bind_ok _
        (λ _.
          guard (not (is_taken (map_get c.id rows) || has_call rows c.run_id c.logical_call_id))
            resource_conflict)
        v g1 in
    (
      absent (map_get c.id rows) (has_call rows c.run_id c.logical_call_id) (
          guard_passed
            (not (is_taken (map_get c.id rows) || has_call rows c.run_id c.logical_call_id))
            resource_conflict v h3),
      ok-injective _ after h1,
    )
