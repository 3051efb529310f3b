-- ===== src/Effects/Idempotency.antt =====
-- Proposals with one key (platform-plugins/data-postgres/src/effect_commands.rs).
use masonwing.Prelude.{
  ℕ, ◌≡◌, refl, sym, ap, subst, ◌∙◌, inl, inr, Bool, true, ◌&&◌, Option, none, some, List, [], ◌∷◌,
  ◌++◌, map_insert, map_get, ok, ok_or, bind_ok, ok-injective, guard_passes, guard_passes,
  Bool-cases, Text, text, text_eq, text_eq_iff,
}
use masonwing.Contracts.Wire.{ResourceRef}
use masonwing.Kernel.Runtime.Failure.{invalid, not_found, conflict}
use masonwing.Delegations.{require_active_grant}
use masonwing.Ledger.Tables.{resource_conflict}
use masonwing.Ledger.Operations.{reserve_budget}
use masonwing.Effects.Tables.{Effect, Store, Mutation, written}
use masonwing.Effects.Dispatch.{require_dispatch_enabled}
use masonwing.Effects.Admission.{
  Proposal, check_connection, active_runs, only_run, find_by_key, is_free, insert_effect, usd_call,
  bound_of, prepared_effect, replayed, propose_at, propose_effect,
}

find_by_key-insert :
    (rows : List (Text × Effect)) (id connection key : Text) (e : Effect)
    → e.connection_id ≡ connection
    → e.idempotency_key ≡ key
    → find_by_key rows connection key ≡ none
    → find_by_key (map_insert id e rows) connection key ≡ some (id, e)
unfolding find_by_key map_insert
find_by_key-insert [] id connection key e c k h =
    rw ((text_eq_iff e.connection_id connection).1 c, (text_eq_iff e.idempotency_key key).1 k) refl
find_by_key-insert ((i, x) ∷ rest) id connection key e c k h =
    let there = find_by_key-insert rest id connection key e c k in
    let same_c = (text_eq_iff e.connection_id connection).1 c in
    let same_k = (text_eq_iff e.idempotency_key key).1 k in
    elim (Bool-cases (text_eq x.connection_id connection && text_eq x.idempotency_key key)) [
      | inl taken ↦ absurd (cc (rw taken at h))
      | inr other ↦ elim (Bool-cases (text_eq i id)) [
        | inl this ↦ rw this (rw (same_c, same_k) refl)
        | inr apart ↦ rw apart (rw other (there (rw other at h)))
      ]
    ]

-- The row of the key of a proposal.
abbrev HasKey : Store → Proposal → Text → Type 0
HasKey s p id =
    (e : Effect) × (find_by_key s.effects p.connection_id p.idempotency_key ≡ some (id, e))

insert_effect-HasKey :
    (s after : Store) (p : Proposal) (id : Text) (e : Effect) (label : Text) (accepted : Bool)
    (answer : Mutation)
    → e.connection_id ≡ p.connection_id
    → e.idempotency_key ≡ p.idempotency_key
    → find_by_key s.effects p.connection_id p.idempotency_key ≡ none
    → insert_effect s id e label accepted ≡ ok (after, answer)
    → HasKey after p id × (answer.value.effect_id ≡ id)
unfolding insert_effect
insert_effect-HasKey s after p id e label accepted answer c k absent h =
    let (_, h1) =
      guard_passes
        (is_free (map_get id s.effects) (find_by_key s.effects e.connection_id e.idempotency_key))
        resource_conflict _ (after, answer) h in
    let same : written s id e label accepted ≡ (after, answer) =
      ok-injective (written s id e label accepted) (after, answer) h1 in
    (
      (
        e,
        ap (λ (m : List (Text × Effect)). find_by_key m p.connection_id p.idempotency_key)
              (sym (ap (λ (x : Store × Mutation). x.0.effects) same))
            ∙ find_by_key-insert s.effects id p.connection_id p.idempotency_key e c k absent,
      ),
      sym (ap (λ (x : Store × Mutation). x.1.value.effect_id) same),
    )

propose_at-HasKey :
    (s after : Store) (p : Proposal) (run_id fingerprint : Text) (o : Option (Text × Effect))
    (answer : Mutation)
    → find_by_key s.effects p.connection_id p.idempotency_key ≡ o
    → propose_at s p run_id fingerprint o ≡ ok (after, answer)
    → HasKey after p answer.value.effect_id
unfolding propose_at
propose_at-HasKey s after p run_id fingerprint (some (id, e)) answer found h =
    let (_, h1) =
      guard_passes (text_eq e.fingerprint fingerprint) (conflict (text "IDEMPOTENCY_CONFLICT")) _
        (after, answer) h in
    let same = ok-injective (s, replayed s p run_id id e) (after, answer) h1 in
    subst (λ (x : Store × Mutation). HasKey x.0 p x.1.value.effect_id) same (e, found)
propose_at-HasKey s after p run_id fingerprint none answer found h =
    let (l, _, h1) =
      bind_ok
        (reserve_budget s.ledger (
          usd_call p.new_reservation_id run_id (text "effect-" ++ p.idempotency_key)
            (bound_of p.price_profile) p.price_profile))
        _ (after, answer) h in
    let (there, named) =
      insert_effect-HasKey (record s { ledger = l.0 }) after p p.new_id
        (prepared_effect p run_id fingerprint (l.1.reservation_id)) (text "propose effect") true
        answer refl refl found h1 in
    subst (λ (x : Text). HasKey after p x) (sym named) there

-- A proposal whose key is known is a replay, if it is accepted.
pub propose_at-replay :
    (s after : Store) (p : Proposal) (run_id fingerprint id : Text) (e : Effect) (answer : Mutation)
    → propose_at s p run_id fingerprint (some (id, e)) ≡ ok (after, answer)
    → (after ≡ s) × (answer.value.effect_id ≡ id) × (fingerprint ≡ e.fingerprint)
unfolding propose_at
propose_at-replay s after p run_id fingerprint id e answer h =
    let (same_content, h1) =
      guard_passes (text_eq e.fingerprint fingerprint) (conflict (text "IDEMPOTENCY_CONFLICT")) _
        (after, answer) h in
    let same = ok-injective (s, replayed s p run_id id e) (after, answer) h1 in
    (
      sym (ap (λ (x : Store × Mutation). x.0) same),
      sym (ap (λ (x : Store × Mutation). x.1.value.effect_id) same),
      sym ((text_eq_iff e.fingerprint fingerprint).0 same_content),
    )

module _ (fingerprint_of : Text → ResourceRef → Text → Option Text) where
  -- What an accepted proposal comes to behind its guards.
  pub propose_effect-parts :
      (s after : Store) (now : ℕ) (p : Proposal) (answer : Mutation)
      → propose_effect fingerprint_of s now p ≡ ok (after, answer)
      → (run_id : Text) × (fingerprint : Text) × (propose_at s p run_id fingerprint
            (find_by_key s.effects p.connection_id p.idempotency_key)
          ≡ ok (after, answer))
  unfolding propose_effect
  propose_effect-parts s after now p answer h =
      let (_, h1) =
        guard_passes (text_eq p.content_ref.tenant_id s.tenant_id) not_found _ (after, answer) h in
      let (_, _, h2) =
        bind_ok (check_connection (map_get p.connection_id s.connections)) _ (after, answer) h1 in
      let (_, _, h3) =
        bind_ok
          (require_active_grant s.delegations now p.actor p.grant_id (some p.action)
            (some p.target))
          _ (after, answer) h2 in
      let (_, _, h4) =
        bind_ok (require_dispatch_enabled s none (some p.connection_id)) _ (after, answer) h3 in
      let (run_id, _, h5) =
        bind_ok (only_run (active_runs s.runs p.grant_id)) _ (after, answer) h4 in
      let (fingerprint, _, h6) =
        bind_ok
          (ok_or (fingerprint_of p.action p.target p.content_ref.digest)
            (invalid (text "SCHEMA_INVALID")))
          _ (after, answer) h5 in
      (run_id, fingerprint, h6)

  -- One key on one connection makes one effect: after an accepted proposal, another one with the same
  -- key that is accepted, at any time and by any actor, answers the same effect and changes no table.
  pub propose_effect_once :
      (s after later : Store) (now then_now : ℕ) (p again : Proposal) (answer second : Mutation)
      → again.connection_id ≡ p.connection_id
      → again.idempotency_key ≡ p.idempotency_key
      → propose_effect fingerprint_of s now p ≡ ok (after, answer)
      → propose_effect fingerprint_of after then_now again ≡ ok (later, second)
      → (later ≡ after) × (second.value.effect_id ≡ answer.value.effect_id)
  propose_effect_once s after later now then_now p again answer second c k h h' =
      let (run_id, fingerprint, made) = propose_effect-parts s after now p answer h in
      let (run_id', fingerprint', remade) =
        propose_effect-parts after later then_now again second h' in
      let (e, there) =
        propose_at-HasKey s after p run_id fingerprint
          (find_by_key s.effects p.connection_id p.idempotency_key) answer refl made in
      let found : find_by_key after.effects again.connection_id again.idempotency_key
          ≡ some (answer.value.effect_id, e) =
        subst
          (λ (x : Text).
            find_by_key after.effects x again.idempotency_key ≡ some (answer.value.effect_id, e))
          (sym c)
          (subst
            (λ (x : Text).
              find_by_key after.effects p.connection_id x ≡ some (answer.value.effect_id, e))
            (sym k) there) in
      let (unchanged, same, _) =
        propose_at-replay after later again run_id' fingerprint' answer.value.effect_id e second (
          subst
            (λ (o : Option (Text × Effect)).
              propose_at after again run_id' fingerprint' o ≡ ok (later, second))
            found remade) in
      (unchanged, same)
