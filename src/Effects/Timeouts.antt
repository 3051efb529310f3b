-- ===== src/Effects/Timeouts.antt =====
-- What a recorded timeout means for later ones
-- (platform-plugins/data-postgres/src/effect_commands.rs, budget_ledger.rs).
use masonwing.Prelude.{
  ◌≡◌, refl, sym, ap, subst, ◌∙◌, ◌≢◌, ◌⊎◌, inl, inr, Bool, true, some, List, [], ◌∷◌, map_get,
  map_get-insert, ok, err, guard, bind_ok, ok-injective, contains, Bool-cases, Text, text, text_eq,
  text_eq_iff, text_eq_refl,
}
use masonwing.Kernel.State.Machines.{can_transition_to, cost_edge}
use masonwing.Kernel.State.Parse.{parse}
use masonwing.Ledger.Tables.{Reservation, Ledger}
use masonwing.Ledger.Rows.{CostProjection, require_cost_transition, next_version}
use masonwing.Ledger.Operations.{locked_reservation, mark_cost_unknown}
use masonwing.Effects.Tables.{Effect, Store, Mutation, Answer, locked_effect, illegal_transition}
use masonwing.Effects.Recording.{record_effect_unknown}
use masonwing.Effects.Operations.{Command, perform, stored, perform_all, effect_of}
use masonwing.Effects.Rows.{
  Moves, sent, looked_up, timed_out, succeeded, failed, reauthorized, halted, locked-found,
}
use masonwing.Effects.Lifecycle.{
  reauthorizes, perform-IsChange, one_of_two, row_stored, others_kept,
}
use masonwing.Effects.Reservations.{
  HasWritten, mark_cost_unknown-HasWritten, release_budget-HasWritten, settle_budget-HasWritten,
}

-- The states from which a reservation does not become unknown.
abbrev past_states : List Text
past_states = text "UNKNOWN" ∷ text "SETTLED" ∷ text "RELEASED" ∷ []

abbrev IsPast : Ledger → Text → Type 0
IsPast l id =
    (r : Reservation) × (map_get id l.reservations ≡ some r) × (contains past_states r.state ≡ true)

HasWritten-IsPast :
    (l m : Ledger) (written_id state id : Text)
    → contains past_states state ≡ true
    → HasWritten l m written_id state
    → IsPast l id ⊎ (written_id ≡ id)
    → IsPast m id
HasWritten-IsPast l m written_id state id past h before =
    elim (Bool-cases (text_eq written_id id)) [
      | inl this ↦ (
        h.row,
        h.at id ∙ rw this,
        subst (λ (x : Text). contains past_states x ≡ true) (sym h.in_state) past,
      )
      | inr other ↦ elim before [
        | inl (r, found, there) ↦ (r, h.at id ∙ rw other found, there)
        | inr same ↦ absurd (cc (other, (text_eq_iff written_id id).1 same))
      ]
    ]

Moves-IsPast :
    (absent : Bool) (before row : Effect) (l m : Ledger) (id : Text)
    → Moves absent before row l m
    → IsPast l id
    → IsPast m id
unfolding contains
Moves-IsPast absent before row l m id (sent from to count kept) h =
    subst (λ (x : Ledger). IsPast x id) (sym kept) h
Moves-IsPast absent before row l m id (looked_up from to count kept) h =
    subst (λ (x : Ledger). IsPast x id) (sym kept) h
Moves-IsPast absent before row l m id (timed_out p from to count marked) h =
    HasWritten-IsPast l m before.reservation_id (text "UNKNOWN") id refl
      (mark_cost_unknown-HasWritten l m before.reservation_id p marked) (inl h)
Moves-IsPast absent before row l m id (succeeded p used from to count settled) h =
    HasWritten-IsPast l m before.reservation_id (text "SETTLED") id refl
      (settle_budget-HasWritten l m before.reservation_id p used (some before.fingerprint) settled)
      (inl h)
Moves-IsPast absent before row l m id (failed p from to count released) h =
    HasWritten-IsPast l m before.reservation_id (text "RELEASED") id refl
      (release_budget-HasWritten l m before.reservation_id p released) (inl h)
Moves-IsPast absent before row l m id (reauthorized proven from to count kept) h =
    subst (λ (x : Ledger). IsPast x id) (sym kept) h
Moves-IsPast absent before row l m id (halted from to count kept) h =
    subst (λ (x : Ledger). IsPast x id) (sym kept) h

-- The effect has a reservation that is past being unknown.
abbrev HasTimedOut : Store → Text → Type 0
HasTimedOut s id = (e : Effect) × (map_get id s.effects ≡ some e) × IsPast s.ledger e.reservation_id

perform-HasTimedOut :
    (id : Text) (s after : Store) (c : Command) (answer : Mutation)
    → perform s c ≡ ok (after, answer)
    → HasTimedOut s id
    → HasTimedOut after id
perform-HasTimedOut id s after c answer h (e, found, past) =
    let change = perform-IsChange s after c answer h in
    let later =
      Moves-IsPast (reauthorizes c) change.before change.row s.ledger after.ledger e.reservation_id
        change.moves past in
    elim (Bool-cases (text_eq (effect_of c) id)) [
      | inr other ↦
          let differs : id ≢ effect_of c =
            λ k. absurd (cc (other, (text_eq_iff (effect_of c) id).1 (sym k))) in
          (e, others_kept s after c answer change id differs ∙ found, later)
      | inl same ↦
          let this : effect_of c ≡ id = (text_eq_iff (effect_of c) id).0 same in
          let found' : map_get id s.effects ≡ some change.before =
            subst (λ (x : Text). map_get x s.effects ≡ some change.before) this change.found in
          let row_is : change.before ≡ e = cc (found, found') in
          (
            change.row,
            subst (λ (x : Text). map_get x after.effects ≡ some change.row) this
                (row_stored s after c answer change),
            subst (λ (x : Text). IsPast after.ledger x)
                (sym (change.reservation ∙ ap (λ (x : Effect). x.reservation_id) row_is)) later,
          )
    ]

answered-HasTimedOut :
    (id : Text) (s : Store) (c : Command) (r : Answer)
    → perform s c ≡ r
    → HasTimedOut s id
    → HasTimedOut (stored s r) id
answered-HasTimedOut id s c (ok (after, answer)) h out =
    perform-HasTimedOut id s after c answer h out
answered-HasTimedOut id s c (err failure) h out = out

perform_all-HasTimedOut :
    (id : Text) (s : Store) (cs : List Command)
    → HasTimedOut s id
    → HasTimedOut (perform_all s cs) id
unfolding perform_all
perform_all-HasTimedOut id s [] out = out
perform_all-HasTimedOut id s (c ∷ rest) out =
    perform_all-HasTimedOut id (stored s (perform s c)) rest
      (answered-HasTimedOut id s c (perform s c) refl out)

one_of_three :
    (x y z state : Text)
    → contains (x ∷ y ∷ z ∷ []) state ≡ true
    → (state ≡ x) ⊎ ((state ≡ y) ⊎ (state ≡ z))
unfolding contains
one_of_three x y z state h = elim (Bool-cases (text_eq x state)) [
  | inl first ↦ inl (sym ((text_eq_iff x state).0 first))
  | inr other ↦ inr (one_of_two y z state (rw other at h))
]

NotUnknown : Text → Type 0
NotUnknown state = require_cost_transition state (text "UNKNOWN") ≢ ok tt

-- No reservation that is past it becomes unknown.
past-NotUnknown : (state : Text) → contains past_states state ≡ true → NotUnknown state
unfolding NotUnknown require_cost_transition parse can_transition_to cost_edge
past-NotUnknown state h =
    elim (one_of_three (text "UNKNOWN") (text "SETTLED") (text "RELEASED") state h) [
      | inl first ↦ subst NotUnknown (sym first) (λ k. absurd cc)
      | inr (inl second) ↦ subst NotUnknown (sym second) (λ k. absurd cc)
      | inr (inr third) ↦ subst NotUnknown (sym third) (λ k. absurd cc)
    ]

IsPast-refused :
    (l m : Ledger) (id : Text) (p : CostProjection)
    → IsPast l id
    → mark_cost_unknown l id ≢ ok (m, p)
unfolding mark_cost_unknown locked_reservation NotUnknown
IsPast-refused l m id p (r, found, past) h =
    let (r', locked, h1) = bind_ok (locked_reservation l id) _ (m, p) h in
    let (u, allowed, h2) =
      bind_ok (require_cost_transition r'.state (text "UNKNOWN")) _ (m, p) h1 in
    let row_is : r ≡ r' = ok-injective r r' (rw found at locked) in
    past-NotUnknown r.state past (
      subst (λ (x : Reservation). require_cost_transition x.state (text "UNKNOWN") ≡ ok tt)
        (sym row_is) allowed)

HasTimedOut-refused :
    (id : Text) (s after : Store) (answer : Mutation)
    → HasTimedOut s id
    → record_effect_unknown s id ≢ ok (after, answer)
unfolding record_effect_unknown
HasTimedOut-refused id s after answer (e, found, past) h =
    let (x, locked, h1) = bind_ok (locked_effect s id) _ (after, answer) h in
    let (_, _, h2) =
      bind_ok (guard (text_eq x.state (text "EXECUTING")) illegal_transition) _ (after, answer)
        h1 in
    let (version, _, h3) = bind_ok (next_version x.version) _ (after, answer) h2 in
    let (l, marked, h4) =
      bind_ok (mark_cost_unknown s.ledger x.reservation_id) _ (after, answer) h3 in
    let row_is : e ≡ x = cc (found, locked-found s id x locked) in
    IsPast-refused s.ledger l.0 x.reservation_id l.1
      (subst (λ (y : Effect). IsPast s.ledger y.reservation_id) row_is past) marked

-- The first record leaves the reservation unknown.
record_effect_unknown-HasTimedOut :
    (s after : Store) (id : Text) (answer : Mutation)
    → record_effect_unknown s id ≡ ok (after, answer)
    → HasTimedOut after id
unfolding record_effect_unknown contains
record_effect_unknown-HasTimedOut s after id answer h =
    let (e, _, h1) = bind_ok (locked_effect s id) _ (after, answer) h in
    let (_, _, h2) =
      bind_ok (guard (text_eq e.state (text "EXECUTING")) illegal_transition) _ (after, answer)
        h1 in
    let (version, _, h3) = bind_ok (next_version e.version) _ (after, answer) h2 in
    let (l, marked, h4) =
      bind_ok (mark_cost_unknown s.ledger e.reservation_id) _ (after, answer) h3 in
    let same = ok-injective _ (after, answer) h4 in
    let row : Effect = record e {
      state = text "OUTCOME_UNKNOWN";
      reconciliation_queued = true;
      version = version;
    } in
    let past : IsPast l.0 e.reservation_id =
      HasWritten-IsPast s.ledger l.0 e.reservation_id (text "UNKNOWN") e.reservation_id refl
        (mark_cost_unknown-HasWritten s.ledger l.0 e.reservation_id l.1 marked) (inr refl) in
    (
      row,
      sym (ap (λ (x : Store × Mutation). map_get id x.0.effects) same)
          ∙ map_get-insert id id row s.effects
          ∙ rw (text_eq_refl id),
      subst (λ (x : Ledger). IsPast x e.reservation_id)
          (ap (λ (x : Store × Mutation). x.0.ledger) same) past,
    )

-- An unknown outcome of an effect is recorded at most once: whatever commands follow the first
-- record, also when the effect is authorised again and sent again, a second one is refused.
pub record_effect_unknown_once :
    (s after later : Store) (id : Text) (first second : Mutation) (cs : List Command)
    → record_effect_unknown s id ≡ ok (after, first)
    → record_effect_unknown (perform_all after cs) id ≢ ok (later, second)
record_effect_unknown_once s after later id first second cs h =
    HasTimedOut-refused id (perform_all after cs) later second
      (perform_all-HasTimedOut id after cs (record_effect_unknown-HasTimedOut s after id first h))
