-- ===== src/Effects/Requests/Reserving.antt =====
-- What the new effects of a proposal and of a compensation reserve
-- (platform-plugins/data-postgres/src/effect_commands.rs, budget_ledger.rs).
use masonwing.Prelude.{
  ◌≡◌, refl, sym, ap, ◌∙◌, inl, inr, Bool, true, Option, none, some, pos, pos_part, leb_ℤ,
  map_insert, map_get, map_get-insert, ok, bind_ok, guard_passes, ok-injective, Bool-cases, Text,
  text,
}
use masonwing.Ledger.Tables.{Ledger, resource_conflict}
use masonwing.Ledger.Accounts.{hold_all}
use masonwing.Ledger.Rows.{
  CostProjection, ReserveCall, event, insert_cost_event, insert_reservation, new_reservation,
}
use masonwing.Ledger.Operations.{reserve_budget}
use masonwing.Ledger.Written.{insert_reservation-parts}
use masonwing.Effects.Tables.{Effect, Store, Mutation, written}
use masonwing.Effects.Admission.{find_by_key, is_free, insert_effect}
use masonwing.Effects.Reservations.{HasWritten}

-- What an accepted call leaves.
pub record HasReserved (l m : Ledger) (c : ReserveCall) (p : CostProjection) : Type 0 where
  pub answered : p.reservation_id ≡ c.id
  pub was_absent : map_get c.id l.reservations ≡ none
  pub made : HasWritten l m c.id (text "RESERVED")

pub reserve_budget-HasReserved :
    (l m : Ledger) (c : ReserveCall) (p : CostProjection)
    → reserve_budget l c ≡ ok (m, p)
    → HasReserved l m c p
unfolding reserve_budget
reserve_budget-HasReserved l m c p h = elim (Bool-cases (leb_ℤ c.upper_bound_microunits (pos 0))) [
  | inl unknown ↦ absurd (cc (rw unknown at h))
  | inr bounded ↦
      let (accounts, _, h1) =
        bind_ok
          (hold_all l.settings c.currency (pos_part c.upper_bound_microunits) c.account_keys
            l.accounts)
          _ (m, p) (rw bounded at h) in
      let (rows, inserted, h2) = bind_ok (insert_reservation c l.reservations) _ (m, p) h1 in
      let (events, _, h3) =
        bind_ok
          (insert_cost_event l.events
            (event c.id (text "RESERVED") c.upper_bound_microunits (pos 0) none))
          _ (m, p) h2 in
      let same = ok-injective _ (m, p) h3 in
      let (fresh, made) = insert_reservation-parts c l.reservations rows inserted in
      record {
        answered = sym (ap (λ (y : Ledger × CostProjection). y.1.reservation_id) same);
        was_absent = fresh;
        made = record {
          row = new_reservation c;
          in_state = refl;
          at = λ x.
              sym (ap (λ (y : Ledger × CostProjection). map_get x y.0.reservations) same)
              ∙ (sym (ap (map_get x) made)
                  ∙ map_get-insert c.id x (new_reservation c) l.reservations);
        };
      }
]

-- A new effect had no row before.
pub insert_effect-parts :
    (s after : Store) (id : Text) (e : Effect) (label : Text) (accepted : Bool) (answer : Mutation)
    → insert_effect s id e label accepted ≡ ok (after, answer)
    → (map_get id s.effects ≡ none)
      × (after.effects ≡ map_insert id e s.effects)
      × (after.ledger ≡ s.ledger)
unfolding insert_effect
insert_effect-parts s after id e label accepted answer h =
    let (free, h1) =
      guard_passes
        (is_free (map_get id s.effects) (find_by_key s.effects e.connection_id e.idempotency_key))
        resource_conflict _ (after, answer) h in
    let same = ok-injective (written s id e label accepted) (after, answer) h1 in
    (
      unused (map_get id s.effects) (find_by_key s.effects e.connection_id e.idempotency_key) free,
      sym (ap (λ (x : Store × Mutation). x.0.effects) same),
      sym (ap (λ (x : Store × Mutation). x.0.ledger) same),
    )
  where
    unused : (o : Option Effect) (k : Option (Text × Effect)) → is_free o k ≡ true → o ≡ none
    unused none k f = refl
    unused (some x) k f = absurd cc
