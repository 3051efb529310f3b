-- ===== src/Effects/Lifecycle.antt =====
-- The lifecycle of an effect in the database (platform-plugins/data-postgres/src/effect_commands.rs).
use masonwing.Prelude.{
  ◌+◌, ◌≡◌, refl, sym, ap, subst, ◌∙◌, ◌≢◌, ◌⊎◌, inl, inr, Bool, true, false, some, List, [], ◌∷◌,
  map_get, map_get-insert, ok, contains, contains-singleton, if◌then◌else◌, Bool-cases, Text, text,
  text_eq, text_eq_iff, text_eq_refl,
}
use masonwing.Kernel.State.Machines.{EffectState, effect, effect_edge}
use masonwing.Kernel.State.Parse.{parse}
use masonwing.Ledger.Tables.{Ledger}
use masonwing.Effects.Tables.{effect_projection_value, Effect, Store, Mutation}
use masonwing.Effects.Operations.{
  Command, do_dispatch, do_reconcile, do_time_out, do_succeed, do_resolve, perform, effect_of,
}
use masonwing.Effects.Rows.{
  Moves, sent, looked_up, timed_out, succeeded, failed, reauthorized, halted, IsChange,
  dispatch_effect-IsChange, reconcile_effect-IsChange, record_effect_unknown-IsChange,
  proves_absence, record_effect_succeeded-IsChange, apply_reconciliation_evidence-IsChange,
}

-- Whether the command authorises its effect again.
abbrev pub reauthorizes : Command → Bool
reauthorizes (do_resolve now id e x) = proves_absence e
reauthorizes _ = false

pub perform-IsChange :
    (s after : Store) (c : Command) (answer : Mutation)
    → perform s c ≡ ok (after, answer)
    → IsChange s (effect_of c) (reauthorizes c) after answer
unfolding perform
perform-IsChange s after (do_dispatch now id expected) answer h =
    dispatch_effect-IsChange false s after id answer now expected h
perform-IsChange s after (do_reconcile id expected) answer h =
    reconcile_effect-IsChange false s after id answer expected h
perform-IsChange s after (do_time_out id) answer h =
    record_effect_unknown-IsChange false s after id answer h
perform-IsChange s after (do_succeed now id x) answer h =
    record_effect_succeeded-IsChange false s after id answer now x h
perform-IsChange s after (do_resolve now id e x) answer h =
    apply_reconciliation_evidence-IsChange s after id answer now e x h

-- The stored state is one of the effect machine.
abbrev pub IsStored : Text → EffectState → Type 0
IsStored name state = parse (text "effect") name ≡ ok (effect state)

-- A change along an edge of the effect machine, or the dispatch of an effect that is only prepared.
abbrev pub IsStep : EffectState → EffectState → Type 0
IsStep a b = (effect_edge a b ≡ true) ⊎ ((a ≡ EffectState.prepared) × (b ≡ EffectState.executing))

pub one_of_two : (x y state : Text) → contains (x ∷ y ∷ []) state ≡ true → (state ≡ x) ⊎ (state ≡ y)
unfolding contains
one_of_two x y state h = elim (Bool-cases (text_eq x state)) [
  | inl first ↦ inl (sym ((text_eq_iff x state).0 first))
  | inr other ↦
      inr (sym ((text_eq_iff y state).0 (sym (contains-singleton y state) ∙ rw other at h)))
]

abbrev HasStep : Text → Text → Type 0
HasStep from to =
    (a : EffectState) × (b : EffectState) × IsStored from a × IsStored to b × IsStep a b

step-named :
    (from to from' to' : Text) → from' ≡ from → to' ≡ to → HasStep from to → HasStep from' to'
step-named from to from' to' e f (a, b, x, y, step) = (
  a,
  b,
  subst (λ (n : Text). IsStored n a) (sym e) x,
  subst (λ (n : Text). IsStored n b) (sym f) y,
  step,
)

Moves-HasStep :
    (absent : Bool) (before row : Effect) (l m : Ledger)
    → Moves absent before row l m
    → HasStep before.state row.state
unfolding parse effect_edge
Moves-HasStep absent before row l m (sent from to count kept) =
    elim (one_of_two (text "PREPARED") (text "AUTHORIZED") before.state from) [
      | inl first ↦
          step-named (text "PREPARED") (text "EXECUTING") before.state row.state first to
            (EffectState.prepared, EffectState.executing, refl, refl, inr (refl, refl))
      | inr second ↦
          step-named (text "AUTHORIZED") (text "EXECUTING") before.state row.state second to
            (EffectState.authorized, EffectState.executing, refl, refl, inl refl)
    ]
Moves-HasStep absent before row l m (looked_up from to count kept) =
    elim (one_of_two (text "OUTCOME_UNKNOWN") (text "MANUAL_REVIEW") before.state from) [
      | inl first ↦
          step-named (text "OUTCOME_UNKNOWN") (text "RECONCILING") before.state row.state first to
            (EffectState.outcome_unknown, EffectState.reconciling, refl, refl, inl refl)
      | inr second ↦
          step-named (text "MANUAL_REVIEW") (text "RECONCILING") before.state row.state second to
            (EffectState.manual_review, EffectState.reconciling, refl, refl, inl refl)
    ]
Moves-HasStep absent before row l m (timed_out p from to count marked) =
    step-named (text "EXECUTING") (text "OUTCOME_UNKNOWN") before.state row.state from to
      (EffectState.executing, EffectState.outcome_unknown, refl, refl, inl refl)
Moves-HasStep absent before row l m (succeeded p used from to count settled) =
    elim (one_of_two (text "EXECUTING") (text "RECONCILING") before.state from) [
      | inl first ↦
          step-named (text "EXECUTING") (text "SUCCEEDED") before.state row.state first to
            (EffectState.executing, EffectState.succeeded, refl, refl, inl refl)
      | inr second ↦
          step-named (text "RECONCILING") (text "SUCCEEDED") before.state row.state second to
            (EffectState.reconciling, EffectState.succeeded, refl, refl, inl refl)
    ]
Moves-HasStep absent before row l m (failed p from to count released) =
    elim (one_of_two (text "EXECUTING") (text "RECONCILING") before.state from) [
      | inl first ↦
          step-named (text "EXECUTING") (text "FAILED_CONFIRMED") before.state row.state first to
            (EffectState.executing, EffectState.failed_confirmed, refl, refl, inl refl)
      | inr second ↦
          step-named (text "RECONCILING") (text "FAILED_CONFIRMED") before.state row.state second to
            (EffectState.reconciling, EffectState.failed_confirmed, refl, refl, inl refl)
    ]
Moves-HasStep absent before row l m (reauthorized proven from to count kept) =
    step-named (text "RECONCILING") (text "AUTHORIZED") before.state row.state from to
      (EffectState.reconciling, EffectState.authorized, refl, refl, inl refl)
Moves-HasStep absent before row l m (halted from to count kept) =
    step-named (text "RECONCILING") (text "MANUAL_REVIEW") before.state row.state from to
      (EffectState.reconciling, EffectState.manual_review, refl, refl, inl refl)

module _ (s after : Store) (c : Command) (answer : Mutation)
    (change : IsChange s (effect_of c) (reauthorizes c) after answer) where
  after_at :
      (other : Text)
      → map_get other after.effects
        ≡ (if text_eq (effect_of c) other then some change.row else map_get other s.effects)
  after_at other =
      ap (λ (m : List (Text × Effect)). map_get other m) change.effects
      ∙ map_get-insert (effect_of c) other change.row s.effects

  pub row_stored : map_get (effect_of c) after.effects ≡ some change.row
  row_stored = after_at (effect_of c) ∙ rw (text_eq_refl (effect_of c))

  pub others_kept :
      (other : Text) → other ≢ effect_of c → map_get other after.effects ≡ map_get other s.effects
  others_kept other differs = after_at other ∙ elim (Bool-cases (text_eq (effect_of c) other)) [
    | inl same ↦ absurd (differs (sym ((text_eq_iff (effect_of c) other).0 same)))
    | inr apart ↦ rw apart
  ]

-- What an accepted command does to the effects of the tables.
pub record IsLegal (s : Store) (id : Text) (after : Store) (answer : Mutation) : Type 0 where
  pub before : Effect
  pub row : Effect
  pub found : map_get id s.effects ≡ some before
  pub stored_row : map_get id after.effects ≡ some row
  pub others : (other : Text) → other ≢ id → map_get other after.effects ≡ map_get other s.effects
  pub from : EffectState
  pub to : EffectState
  pub from_state : IsStored before.state from
  pub to_state : IsStored row.state to
  pub step : IsStep from to
  pub next : row.version ≡ before.version + 1
  pub value : answer.value ≡ effect_projection_value id s.tenant_id row

-- Every accepted command finds the row of its effect, changes this row only, takes its state along an
-- edge of the effect machine, or from prepared to executing, raises its version by one, and answers
-- the projection of the new row.
pub perform-IsLegal :
    (s after : Store) (c : Command) (answer : Mutation)
    → perform s c ≡ ok (after, answer)
    → IsLegal s (effect_of c) after answer
perform-IsLegal s after c answer h =
    let change = perform-IsChange s after c answer h in
    let (a, b, x, y, step) =
      Moves-HasStep (reauthorizes c) change.before change.row s.ledger after.ledger change.moves in
    record {
      before = change.before;
      row = change.row;
      found = change.found;
      stored_row = row_stored s after c answer change;
      others = others_kept s after c answer change;
      from = a;
      to = b;
      from_state = x;
      to_state = y;
      step = step;
      next = change.next;
      value = change.value;
    }
