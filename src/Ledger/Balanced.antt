-- ===== src/Ledger/Balanced.antt =====
-- The accounts of the ledger beside its reservations, over sequences of operations
-- (platform-plugins/data-postgres/src/budget_ledger.rs).
use masonwing.Prelude.{
  ℕ, ◌+◌, ◌≤◌, ◌≡◌, refl, sym, ap, ◌∙◌, inl, inr, none, some, List, [], ◌∷◌, arith, pos, pos_part,
  leb_ℤ, map_insert, map_get, ok, err, bind_ok, ok-injective, Bool-cases, Text, text, text_eq,
}
use masonwing.Ledger.Tables.{Account, Reservation, Ledger}
use masonwing.Ledger.Accounts.{hold_all}
use masonwing.Ledger.Rows.{
  Answer, CostProjection, ReserveCall, event, insert_reservation, insert_cost_event,
  new_reservation,
}
use masonwing.Ledger.Operations.{
  Operation, reserve, settle, cost_unknown, release, reserve_budget, operate, operate_all,
  committed,
}
use masonwing.Ledger.Balance.{held_of, charged_of, hold_all-adds}
use masonwing.Ledger.Sums.{sum_of, held_for, charged_for, IsBalanced, sum_of-insert}
use masonwing.Ledger.Solvent.{AllSolvent, operate_all-AllSolvent}
use masonwing.Ledger.Written.{insert_reservation-parts}
use masonwing.Ledger.Changes.{
  mark_cost_unknown-IsBalanced, release_budget-IsBalanced, settle_budget-IsBalanced,
}

reserve_budget-IsBalanced :
    (key : Text) (l m : Ledger) (c : ReserveCall) (p : CostProjection)
    → IsBalanced key l
    → reserve_budget l c ≡ ok (m, p)
    → IsBalanced key m
unfolding reserve_budget text_eq
reserve_budget-IsBalanced key l m c p before h =
    elim (Bool-cases (leb_ℤ c.upper_bound_microunits (pos 0))) [
      | inl unknown ↦ absurd (cc (rw unknown at h))
      | inr bounded ↦
          let (after, loop, h1) =
            bind_ok
              (hold_all l.settings c.currency (pos_part c.upper_bound_microunits) c.account_keys
                l.accounts)
              _ (m, p) (rw bounded at h) in
          let (rows, inserted, h2) = bind_ok (insert_reservation c l.reservations) _ (m, p) h1 in
          let (events, _, h3) =
            bind_ok
              (insert_cost_event l.events
                (event c.id (text "RESERVED") c.upper_bound_microunits (pos 0) none))
              _ (m, p) h2 in
          let same = ok-injective _ (m, p) h3 in
          let accounts : after ≡ m.accounts =
            ap (λ (y : Ledger × CostProjection). y.0.accounts) same in
          let (fresh, made) = insert_reservation-parts c l.reservations rows inserted in
          let stored : map_insert c.id (new_reservation c) l.reservations ≡ m.reservations =
            made ∙ ap (λ (y : Ledger × CostProjection). y.0.reservations) same in
          let (held, charged) =
            hold_all-adds l.settings c.currency (pos_part c.upper_bound_microunits) c.account_keys
              l.accounts after key loop in
          record {
            held =
                ap (λ x. held_of (map_get key x)) (sym accounts)
                ∙ (sums _ _ _ _ _ held before.held
                      (added (held_for key) c.id (new_reservation c) l.reservations fresh)
                    ∙ ap (sum_of (held_for key)) stored);
            charged =
                ap (λ x. charged_of (map_get key x)) (sym accounts)
                ∙ (unchanged _ _ _ _ charged before.charged
                      (added (charged_for key) c.id (new_reservation c) l.reservations fresh)
                    ∙ ap (sum_of (charged_for key)) stored);
          }
    ]
  where
    added :
        (share : Reservation → ℕ) (id : Text) (r : Reservation) (rows : List (Text × Reservation))
        → map_get id rows ≡ none
        → sum_of share (map_insert id r rows) + 0 ≡ sum_of share rows + share r
    added share id r rows fresh =
        ap (λ n. sum_of share (map_insert id r rows) + n) (sym (rw fresh refl))
        ∙ sum_of-insert share id r rows

    sums : (o o' s s' b : ℕ) → o' ≡ o + b → o ≡ s → s' + 0 ≡ s + b → o' ≡ s'
    sums o o' s s' b x y z = omega arith

    unchanged : (o o' s s' : ℕ) → o' ≡ o → o ≡ s → s' + 0 ≡ s + 0 → o' ≡ s'
    unchanged o o' s s' x y z = omega arith

operate-IsBalanced :
    (key : Text) (l : Ledger) (o : Operation) (a : Answer)
    → operate l o ≡ a
    → IsBalanced key l
    → IsBalanced key (committed l a)
unfolding operate
operate-IsBalanced key l o (err e) h before = before
operate-IsBalanced key l (reserve c) (ok (m, p)) h before =
    reserve_budget-IsBalanced key l m c p before h
operate-IsBalanced key l (settle id used fingerprint) (ok (m, p)) h before =
    settle_budget-IsBalanced key l m id p before used fingerprint h
operate-IsBalanced key l (cost_unknown id) (ok (m, p)) h before =
    mark_cost_unknown-IsBalanced key l m id p before h
operate-IsBalanced key l (release id) (ok (m, p)) h before =
    release_budget-IsBalanced key l m id p before h

-- When the account of a key holds exactly the bounds of the reserved and unknown reservations that
-- list it, as often as they list it, and has been charged exactly what the settled ones were settled
-- with, and no account holds and has been charged more than its limit, then after any sequence of
-- operations, accepted or refused, the account of the key still does, and those bounds and amounts
-- together do not exceed its limit, if it has a row.
pub operate_all-IsBalanced :
    (key : Text) (l : Ledger) (operations : List Operation)
    → IsBalanced key l
    → AllSolvent l.accounts
    → IsBalanced key (operate_all l operations)
      × ((a : Account)
          → map_get key (operate_all l operations).accounts ≡ some a
          → sum_of (held_for key) (operate_all l operations).reservations
              + sum_of (charged_for key) (operate_all l operations).reservations
            ≤ a.limit_microunits)
unfolding operate_all
operate_all-IsBalanced key l operations before solvent =
    let after = followed l operations before in
    (
      after,
      λ a found.
          within a _ _ (sym after.held ∙ ap held_of found) (sym after.charged ∙ ap charged_of found)
            (operate_all-AllSolvent l operations solvent key a found),
    )
  where
    followed :
        (l : Ledger) (operations : List Operation)
        → IsBalanced key l
        → IsBalanced key (operate_all l operations)
    followed l [] before = before
    followed l (o ∷ rest) before =
        followed (committed l (operate l o)) rest
          (operate-IsBalanced key l o (operate l o) refl before)

    within :
        (a : Account) (h c : ℕ)
        → h ≡ a.held_microunits
        → c ≡ a.charged_microunits
        → a.held_microunits + a.charged_microunits ≤ a.limit_microunits
        → h + c ≤ a.limit_microunits
    within a h c x y z = omega arith
