-- ===== src/Effects/Requests/Added.antt =====
-- A new effect and its reservation beside the former ones
-- (platform-plugins/data-postgres/src/effect_commands.rs, budget_ledger.rs).
use masonwing.Prelude.{
  ◌≡◌, refl, sym, ap, subst, ◌∙◌, ◌≢◌, ◌⊎◌, inl, inr, Bool, true, false, none, some, map_insert,
  map_get, map_get-insert, Bool-cases, Text, text, text_eq, text_eq_iff, text_eq_refl,
}
use masonwing.Ledger.Tables.{Reservation, Ledger}
use masonwing.Effects.Tables.{Effect, Store}
use masonwing.Effects.Reservations.{HasWritten}
use masonwing.Effects.Covered.{IsCovered, AllCovered}

-- A new effect beside the former ones, with a reservation that none of them has.
module _ (s : Store) (l : Ledger) (id : Text) (e : Effect) (unused : map_get id s.effects ≡ none)
    (was_absent : map_get e.reservation_id s.ledger.reservations ≡ none)
    (made : HasWritten s.ledger l e.reservation_id (text "RESERVED"))
    (fits : IsCovered e.state (text "RESERVED")) (inv : AllCovered s) where
  -- A row is the new one or one that was there.
  row_of :
      (x : Text) (f : Effect)
      → map_get x (map_insert id e s.effects) ≡ some f
      → ((x ≡ id) × (f ≡ e)) ⊎ (map_get x s.effects ≡ some f)
  row_of x f found = elim (Bool-cases (text_eq id x)) [
    | inl same ↦
        let new : some e ≡ some f = sym (rw same at (map_get-insert id x e s.effects)) ∙ found in
        inl (sym ((text_eq_iff id x).0 same), sym (some-injective e f new))
    | inr other ↦ inr (sym (rw other at (map_get-insert id x e s.effects)) ∙ found)
  ]
    where
      some-injective : (a b : Effect) → some a ≡ some b → a ≡ b
      some-injective a b k = cc

  -- The former effects have other reservations.
  reserved_apart :
      (x : Text) (f : Effect) → map_get x s.effects ≡ some f → e.reservation_id ≢ f.reservation_id
  reserved_apart x f found shared =
      let (r, there, _) = inv.covered x f found in
      absurd (cc (there, was_absent, ap (λ (k : Text). map_get k s.ledger.reservations) shared))

  new-IsCovered :
      (r : Reservation) × (map_get e.reservation_id l.reservations ≡ some r)
      × IsCovered e.state r.state
  new-IsCovered = (
    made.row,
    made.at e.reservation_id ∙ rw (text_eq_refl e.reservation_id) refl,
    subst (λ (x : Text). IsCovered e.state x) (sym made.in_state) fits,
  )

  former-IsCovered :
      (x : Text) (f : Effect)
      → map_get x s.effects ≡ some f
      → (r : Reservation) × (map_get f.reservation_id l.reservations ≡ some r)
        × IsCovered f.state r.state
  former-IsCovered x f found =
      let (r, there, ok_state) = inv.covered x f found in
      (
        r,
        made.at f.reservation_id
            ∙ (rw (differs (text_eq e.reservation_id f.reservation_id) refl) refl ∙ there),
        ok_state,
      )
    where
      differs :
          (b : Bool)
          → text_eq e.reservation_id f.reservation_id ≡ b
          → text_eq e.reservation_id f.reservation_id ≡ false
      differs true same =
          absurd (reserved_apart x f found ((text_eq_iff e.reservation_id f.reservation_id).0 same))
      differs false apart = apart

  pub added-AllCovered :
      (after : Store)
      → after.effects ≡ map_insert id e s.effects
      → after.ledger ≡ l
      → AllCovered after
  added-AllCovered after rows ledger = record {
    covered = λ x f found. elim (row_of x f (in_rows x f found)) [
      | inl (_, new) ↦ in_ledger f (subst Held (sym new) new-IsCovered)
      | inr old ↦ in_ledger f (former-IsCovered x f old)
    ];
    apart = λ x y f g found found' shared. elim (row_of x f (in_rows x f found)) [
      | inl (here, new) ↦ elim (row_of y g (in_rows y g found')) [
        | inl (here', _) ↦ here ∙ sym here'
        | inr old' ↦
            absurd
              (reserved_apart y g old' (ap (λ (z : Effect). z.reservation_id) (sym new) ∙ shared))
      ]
      | inr old ↦ elim (row_of y g (in_rows y g found')) [
        | inl (_, new') ↦
            absurd (
              reserved_apart x f old
                (ap (λ (z : Effect). z.reservation_id) (sym new') ∙ sym shared))
        | inr old' ↦ inv.apart x y f g old old' shared
      ]
    ];
  }
    where
      Held : Effect → Type 0
      Held f =
          (r : Reservation) × (map_get f.reservation_id l.reservations ≡ some r)
          × IsCovered f.state r.state

      in_rows :
          (x : Text) (f : Effect)
          → map_get x after.effects ≡ some f
          → map_get x (map_insert id e s.effects) ≡ some f
      in_rows x f found = sym (ap (map_get x) rows) ∙ found

      in_ledger :
          (f : Effect)
          → ((r : Reservation) × (map_get f.reservation_id l.reservations ≡ some r)
              × IsCovered f.state r.state)
          → (r : Reservation) × (map_get f.reservation_id after.ledger.reservations ≡ some r)
            × IsCovered f.state r.state
      in_ledger f (r, there, fit) =
          (r, ap (λ (m : Ledger). map_get f.reservation_id m.reservations) ledger ∙ there, fit)
