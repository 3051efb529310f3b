-- ===== src/Effects/Invariant.antt =====
-- The reservations of the effects beside one command (platform-plugins/data-postgres/src/effect_commands.rs,
-- budget_ledger.rs).
use masonwing.Prelude.{
  ◌≡◌, refl, sym, ap, subst, ◌∙◌, ◌≢◌, ◌⊎◌, inl, inr, some, map_get, ok, err, Bool-cases, Text,
  text_eq, text_eq_iff,
}
use masonwing.Ledger.Tables.{Reservation}
use masonwing.Effects.Tables.{Effect, Store, Mutation, Answer}
use masonwing.Effects.Operations.{Command, perform, stored, effect_of}
use masonwing.Effects.Rows.{IsChange}
use masonwing.Effects.Lifecycle.{reauthorizes, perform-IsChange, row_stored, others_kept}
use masonwing.Effects.Covered.{IsCovered, AllCovered, Moves-Fits, Moves-elsewhere}

module _ (s after : Store) (c : Command) (answer : Mutation)
    (change : IsChange s (effect_of c) (reauthorizes c) after answer) where
  -- A row behind the command was there before it, with the same reservation.
  origin :
      (id : Text) (e : Effect)
      → map_get id after.effects ≡ some e
      → (f : Effect) × (map_get id s.effects ≡ some f)
        × (f.reservation_id ≡ e.reservation_id)
        × ((id ≡ effect_of c) × (e ≡ change.row) × (f ≡ change.before)
            ⊎ (id ≢ effect_of c) × (f ≡ e))
  origin id e found = elim (Bool-cases (text_eq (effect_of c) id)) [
    | inl same ↦
        let this : effect_of c ≡ id = (text_eq_iff (effect_of c) id).0 same in
        let row_is : change.row ≡ e = cc (
          found,
          subst (λ (x : Text). map_get x after.effects ≡ some change.row) this
              (row_stored s after c answer change),
        ) in
        (
          change.before,
          subst (λ (x : Text). map_get x s.effects ≡ some change.before) this change.found,
          sym change.reservation ∙ ap (λ (x : Effect). x.reservation_id) row_is,
          inl (sym this, sym row_is, refl),
        )
    | inr other ↦
        let differs : id ≢ effect_of c =
          λ k. absurd (cc (other, (text_eq_iff (effect_of c) id).1 (sym k))) in
        (e, sym (others_kept s after c answer change id differs) ∙ found, refl, inr (differs, refl))
  ]

  changed-IsCovered :
      AllCovered s
      → (e : Effect) → e ≡ change.row
      → (r : Reservation) × (map_get e.reservation_id after.ledger.reservations ≡ some r)
        × IsCovered e.state r.state
  changed-IsCovered inv e row_is =
      let (r, there, fits) = inv.covered (effect_of c) change.before change.found in
      let (r', there', fits') =
        Moves-Fits (reauthorizes c) change.before change.row s.ledger after.ledger r there fits
          change.moves in
      (
        r',
        subst (λ (x : Text). map_get x after.ledger.reservations ≡ some r')
            (sym (ap (λ (x : Effect). x.reservation_id) row_is ∙ change.reservation)) there',
        subst (λ (x : Effect). IsCovered x.state r'.state) (sym row_is) fits',
      )

  other-IsCovered :
      AllCovered s
      → (id : Text) (e : Effect) → id ≢ effect_of c
      → map_get id s.effects ≡ some e
      → (r : Reservation) × (map_get e.reservation_id after.ledger.reservations ≡ some r)
        × IsCovered e.state r.state
  other-IsCovered inv id e differs found =
      let (r, there, fits) = inv.covered id e found in
      elim (Bool-cases (text_eq change.before.reservation_id e.reservation_id)) [
        | inl shared ↦ absurd (
            differs (
              sym (
                inv.apart (effect_of c) id change.before e change.found found
                  ((text_eq_iff change.before.reservation_id e.reservation_id).0 shared))))
        | inr elsewhere ↦ (
          r,
          Moves-elsewhere (reauthorizes c) change.before change.row s.ledger after.ledger
                e.reservation_id change.moves elsewhere
              ∙ there,
          fits,
        )
      ]

  change-AllCovered : AllCovered s → AllCovered after
  change-AllCovered inv = record {
    covered = λ id e found. by_origin id e (origin id e found);
    apart = λ id other e f found found' same.
        let (e0, before, kept, _) = origin id e found in
        let (f0, before', kept', _) = origin other f found' in
        inv.apart id other e0 f0 before before' (kept ∙ same ∙ sym kept');
  }
    where
      by_origin :
          (id : Text) (e : Effect)
          → ((f : Effect) × (map_get id s.effects ≡ some f)
              × (f.reservation_id ≡ e.reservation_id)
              × ((id ≡ effect_of c) × (e ≡ change.row) × (f ≡ change.before)
                  ⊎ (id ≢ effect_of c) × (f ≡ e)))
          → (r : Reservation) × (map_get e.reservation_id after.ledger.reservations ≡ some r)
            × IsCovered e.state r.state
      by_origin id e (f, before, kept, inl (this, row_is, was)) = changed-IsCovered inv e row_is
      by_origin id e (f, before, kept, inr (differs, was)) =
          other-IsCovered inv id e differs (before ∙ ap some was)

pub answered-AllCovered :
    (s : Store) (c : Command) (r : Answer)
    → perform s c ≡ r
    → AllCovered s
    → AllCovered (stored s r)
answered-AllCovered s c (ok (after, answer)) h inv =
    change-AllCovered s after c answer (perform-IsChange s after c answer h) inv
answered-AllCovered s c (err failure) h inv = inv
