-- ===== src/Effects/Rows.antt =====
-- What the answered rows tell (platform-plugins/data-postgres/src/effect_commands.rs).
use masonwing.Prelude.{
  ℕ, ◌+◌, ◌≡◌, refl, sym, ap, subst, ◌∙◌, inl, inr, Bool, true, false, not, none, some, List, [],
  ◌∷◌, arith, ℤ, pos, pos_part, map_insert, map_get, ok, guard, ok_or, bind_ok, ok-injective,
  guard_passed, contains, contains-singleton, Option-cases, Text, text, text_eq, text_eq_iff,
}
use masonwing.Kernel.Runtime.{require_expected_version}
use masonwing.Kernel.Runtime.Failure.{invalid, conflict}
use masonwing.Kernel.Effects.{
  ReconciliationEvidence, confirmed_present, confirmed_failure, proven_absent_and_reauthorized,
  unresolved,
}
use masonwing.Ledger.Tables.{Ledger}
use masonwing.Ledger.Rows.{CostProjection, next_version}
use masonwing.Ledger.Operations.{settle_budget, mark_cost_unknown, release_budget}
use masonwing.Effects.Tables.{
  effect_projection_value, Effect, Store, Mutation, Answer, written, locked_effect,
  illegal_transition,
}
use masonwing.Effects.Dispatch.{
  blocking_states, dispatchable_states, reconcilable_states, require_dispatch_enabled,
  check_approval, incremented, dispatched, dispatch_effect, reconcile_effect,
}
use masonwing.Effects.Recording.{
  Success, Evidence, transmitted_states, insert_receipt, release_if, resolve_without,
  record_effect_unknown, record_effect_succeeded, apply_reconciliation_evidence,
}

-- What a command makes of the row of an effect, and of the ledger. Only where absence is proven is an
-- effect authorised again.
pub data Moves (absent : Bool) (before row : Effect) (l m : Ledger) : Type 0 where
  sent :
      contains dispatchable_states before.state ≡ true
      → row.state ≡ text "EXECUTING"
      → row.transmit_count ≡ before.transmit_count + 1
      → m ≡ l
      → Moves absent before row l m
  looked_up :
      contains reconcilable_states before.state ≡ true
      → row.state ≡ text "RECONCILING"
      → row.transmit_count ≡ before.transmit_count
      → m ≡ l
      → Moves absent before row l m
  timed_out :
      (p : CostProjection)
      → before.state ≡ text "EXECUTING"
      → row.state ≡ text "OUTCOME_UNKNOWN"
      → row.transmit_count ≡ before.transmit_count
      → mark_cost_unknown l before.reservation_id ≡ ok (m, p)
      → Moves absent before row l m
  succeeded :
      (p : CostProjection) (used : ℤ)
      → contains transmitted_states before.state ≡ true
      → row.state ≡ text "SUCCEEDED"
      → row.transmit_count ≡ before.transmit_count
      → settle_budget l before.reservation_id used (some before.fingerprint) ≡ ok (m, p)
      → Moves absent before row l m
  failed :
      (p : CostProjection)
      → contains transmitted_states before.state ≡ true
      → row.state ≡ text "FAILED_CONFIRMED"
      → row.transmit_count ≡ before.transmit_count
      → release_budget l before.reservation_id ≡ ok (m, p)
      → Moves absent before row l m
  reauthorized :
      absent ≡ true
      → before.state ≡ text "RECONCILING"
      → row.state ≡ text "AUTHORIZED"
      → row.transmit_count ≡ before.transmit_count
      → m ≡ l
      → Moves absent before row l m
  halted :
      before.state ≡ text "RECONCILING"
      → row.state ≡ text "MANUAL_REVIEW"
      → row.transmit_count ≡ before.transmit_count
      → m ≡ l
      → Moves absent before row l m

-- The tables after a change of the row of one effect, and what is answered.
pub record IsChange (s : Store) (id : Text) (absent : Bool) (after : Store) (answer : Mutation)
    : Type 0 where
  pub before : Effect
  pub row : Effect
  pub found : map_get id s.effects ≡ some before
  pub effects : after.effects ≡ map_insert id row s.effects
  pub reservation : row.reservation_id ≡ before.reservation_id
  pub next : row.version ≡ before.version + 1
  pub value : answer.value ≡ effect_projection_value id s.tenant_id row
  pub moves : Moves absent before row s.ledger after.ledger

pub locked-found :
    (s : Store) (id : Text) (e : Effect) → locked_effect s id ≡ ok e → map_get id s.effects ≡ some e
unfolding locked_effect
locked-found s id e h = elim (Option-cases (map_get id s.effects)) [
  | inl missing ↦ absurd (cc (rw missing at h))
  | inr (x, found) ↦ found ∙ ap some (ok-injective x e (rw found at h))
]

next_version-suc : (v w : ℕ) → next_version v ≡ ok w → w ≡ v + 1
unfolding next_version
next_version-suc v w h = ground arith

expected-suc :
    (v : ℕ) (expected w : ℤ) → require_expected_version (pos v) expected ≡ ok w → pos_part w ≡ v + 1
unfolding require_expected_version
expected-suc v expected w h = ground arith

incremented-suc : (largest n m : ℕ) → incremented largest n ≡ ok m → m ≡ n + 1
unfolding incremented
incremented-suc largest n m h = ground arith

dispatched-row :
    (e row : Effect) (version now : ℕ)
    → dispatched e version now ≡ ok row
    → (row.state ≡ text "EXECUTING")
      × (row.transmit_count ≡ e.transmit_count + 1)
      × (row.reservation_id ≡ e.reservation_id)
      × (row.version ≡ version)
unfolding dispatched
dispatched-row e row version now h =
    let (count, counted, h1) = bind_ok (incremented 2147483647 e.transmit_count) _ row h in
    let (fence, _, h2) = bind_ok (incremented 9223372036854775807 e.dispatch_fence) _ row h1 in
    let same = ok-injective _ row h2 in
    (
      sym (ap (λ (x : Effect). x.state) same),
      sym (ap (λ (x : Effect). x.transmit_count) same)
          ∙ incremented-suc 2147483647 e.transmit_count count counted,
      sym (ap (λ (x : Effect). x.reservation_id) same),
      sym (ap (λ (x : Effect). x.version) same),
    )

-- The answer of a command that writes the row and changes the tables of its receipts and its ledger.
written-IsChange :
    (absent : Bool) (s t after : Store) (id : Text) (before row : Effect) (label : Text)
    (accepted : Bool) (answer : Mutation)
    → map_get id s.effects ≡ some before
    → t.effects ≡ s.effects
    → t.tenant_id ≡ s.tenant_id
    → row.reservation_id ≡ before.reservation_id
    → row.version ≡ before.version + 1
    → Moves absent before row s.ledger t.ledger
    → ◌≡◌ {A = Answer} (ok (written t id row label accepted)) (ok (after, answer))
    → IsChange s id absent after answer
unfolding map_insert
written-IsChange absent s t after id before row label accepted answer found same tenant reservation
      next moves h =
    let e : written t id row label accepted ≡ (after, answer) =
      ok-injective (written t id row label accepted) (after, answer) h in
    record {
      before = before;
      row = row;
      found = found;
      effects =
          sym (ap (λ (x : Store × Mutation). x.0.effects) e)
          ∙ ap (λ (m : List (Text × Effect)). map_insert id row m) same;
      reservation = reservation;
      next = next;
      value =
          sym (ap (λ (x : Store × Mutation). x.1.value) e)
          ∙ ap (λ (x : Text). effect_projection_value id x row) tenant;
      moves =
          subst (λ (l : Ledger). Moves absent before row s.ledger l)
            (ap (λ (x : Store × Mutation). x.0.ledger) e) moves;
    }

module _ (absent : Bool) (s after : Store) (id : Text) (answer : Mutation) where
  pub dispatch_effect-IsChange :
      (now : ℕ) (expected : ℤ)
      → dispatch_effect s now id expected ≡ ok (after, answer)
      → IsChange s id absent after answer
  unfolding dispatch_effect
  dispatch_effect-IsChange now expected h =
      let (e, locked, h1) = bind_ok (locked_effect s id) _ (after, answer) h in
      let (version, v, h2) =
        bind_ok (require_expected_version (pos e.version) expected) _ (after, answer) h1 in
      let (_, _, h3) =
        bind_ok (require_dispatch_enabled s none (some e.connection_id)) _ (after, answer) h2 in
      let (_, _, h4) =
        bind_ok
          (guard (not (contains blocking_states e.state))
            (conflict (text "OUTCOME_UNKNOWN_BLOCKS_RESEND")))
          _ (after, answer) h3 in
      let (u, free, h5) =
        bind_ok (guard (contains dispatchable_states e.state) illegal_transition) _ (after, answer)
          h4 in
      let (_, _, h6) = bind_ok (check_approval s e.approval_id now) _ (after, answer) h5 in
      let (row, made, h7) = bind_ok (dispatched e (pos_part version) now) _ (after, answer) h6 in
      let (state, count, reservation, set_version) =
        dispatched-row e row (pos_part version) now made in
      written-IsChange absent s s after id e row (text "dispatch effect") true answer
        (locked-found s id e locked) refl refl reservation
        (set_version ∙ expected-suc e.version expected version v)
        (sent (guard_passed (contains dispatchable_states e.state) illegal_transition u free) state
          count refl)
        h7

  pub reconcile_effect-IsChange :
      (expected : ℤ)
      → reconcile_effect s id expected ≡ ok (after, answer)
      → IsChange s id absent after answer
  unfolding reconcile_effect
  reconcile_effect-IsChange expected h =
      let (e, locked, h1) = bind_ok (locked_effect s id) _ (after, answer) h in
      let (version, v, h2) =
        bind_ok (require_expected_version (pos e.version) expected) _ (after, answer) h1 in
      let (u, free, h3) =
        bind_ok (guard (contains reconcilable_states e.state) illegal_transition) _ (after, answer)
          h2 in
      written-IsChange absent s s after id e _ (text "reconcile effect") false answer
        (locked-found s id e locked) refl refl refl (expected-suc e.version expected version v)
        (looked_up (guard_passed (contains reconcilable_states e.state) illegal_transition u free)
          refl refl refl)
        h3

  pub record_effect_unknown-IsChange :
      record_effect_unknown s id ≡ ok (after, answer) → IsChange s id absent after answer
  unfolding record_effect_unknown
  record_effect_unknown-IsChange h =
      let (e, locked, h1) = bind_ok (locked_effect s id) _ (after, answer) h in
      let (u, free, h2) =
        bind_ok (guard (text_eq e.state (text "EXECUTING")) illegal_transition) _ (after, answer)
          h1 in
      let (version, v, h3) = bind_ok (next_version e.version) _ (after, answer) h2 in
      let (l, marked, h4) =
        bind_ok (mark_cost_unknown s.ledger e.reservation_id) _ (after, answer) h3 in
      let running = guard_passed (text_eq e.state (text "EXECUTING")) illegal_transition u free in
      written-IsChange absent s (record s { ledger = l.0 }) after id e _
        (text "effect outcome unknown") false answer (locked-found s id e locked) refl refl refl
        (next_version-suc e.version version v)
        (timed_out l.1 ((text_eq_iff e.state (text "EXECUTING")).0 running) refl refl marked) h4

  pub record_effect_succeeded-IsChange :
      (now : ℕ) (x : Success)
      → record_effect_succeeded s now id x ≡ ok (after, answer)
      → IsChange s id absent after answer
  unfolding record_effect_succeeded
  record_effect_succeeded-IsChange now x h =
      let (e, locked, h1) = bind_ok (locked_effect s id) _ (after, answer) h in
      let (u, free, h2) =
        bind_ok (guard (contains transmitted_states e.state) illegal_transition) _ (after, answer)
          h1 in
      let (version, v, h3) = bind_ok (next_version e.version) _ (after, answer) h2 in
      let (receipts, _, h4) = bind_ok (insert_receipt s.receipts id x now) _ (after, answer) h3 in
      let (l, settled, h5) =
        bind_ok (settle_budget s.ledger e.reservation_id x.used_microunits (some e.fingerprint)) _
          (after, answer) h4 in
      written-IsChange absent s (record s { receipts = receipts; ledger = l.0 }) after id e _
        (text "effect succeeded") false answer (locked-found s id e locked) refl refl refl
        (next_version-suc e.version version v)
        (succeeded l.1 x.used_microunits
          (guard_passed (contains transmitted_states e.state) illegal_transition u free) refl refl
          settled)
        h5

  resolve_without-parts :
      (expected_from : List Text) (next : Text) (release : Bool) (label : Text)
      → ((e : Effect) (version : ℕ) (l : Ledger)
          → contains expected_from e.state ≡ true
          → release_if release s.ledger e.reservation_id ≡ ok l
          → Moves absent e
              (record e { state = next; reconciliation_queued = false; version = version })
              s.ledger
              l)
      → resolve_without s id expected_from next release label ≡ ok (after, answer)
      → IsChange s id absent after answer
  unfolding resolve_without
  resolve_without-parts expected_from next release label moves h =
      let (e, locked, h1) = bind_ok (locked_effect s id) _ (after, answer) h in
      let (u, free, h2) =
        bind_ok (guard (contains expected_from e.state) illegal_transition) _ (after, answer) h1 in
      let (version, v, h3) = bind_ok (next_version e.version) _ (after, answer) h2 in
      let (l, released, h4) =
        bind_ok (release_if release s.ledger e.reservation_id) _ (after, answer) h3 in
      written-IsChange absent s (record s { ledger = l }) after id e _ label false answer
        (locked-found s id e locked) refl refl refl (next_version-suc e.version version v)
        (moves e version l (guard_passed (contains expected_from e.state) illegal_transition u free)
          released)
        h4

reconciling_only :
    (state : Text) → contains (text "RECONCILING" ∷ []) state ≡ true → state ≡ text "RECONCILING"
reconciling_only state h = sym (
    (text_eq_iff (text "RECONCILING") state).0
      (sym (contains-singleton (text "RECONCILING") state) ∙ h))

kept : (l m : Ledger) (id : Text) → release_if false l id ≡ ok m → m ≡ l
unfolding release_if
kept l m id h = sym (ok-injective l m h)

released :
    (l m : Ledger) (id : Text)
    → release_if true l id ≡ ok m
    → (p : CostProjection) × (release_budget l id ≡ ok (m, p))
unfolding release_if
released l m id h =
    let (answer, done, h1) = bind_ok (release_budget l id) _ m h in
    (answer.1, done ∙ ap (λ (x : Ledger). ok (x, answer.1)) (ok-injective (answer.0) m h1))

-- Whether the evidence proves that nothing was done.
abbrev pub proves_absence : ReconciliationEvidence → Bool
proves_absence proven_absent_and_reauthorized = true
proves_absence _ = false

pub apply_reconciliation_evidence-IsChange :
    (s after : Store) (id : Text) (answer : Mutation) (now : ℕ) (e : ReconciliationEvidence)
    (x : Evidence)
    → apply_reconciliation_evidence s now id e x ≡ ok (after, answer)
    → IsChange s id (proves_absence e) after answer
unfolding apply_reconciliation_evidence
apply_reconciliation_evidence-IsChange s after id answer now confirmed_present x h =
    let (remote_id, _, h1) =
      bind_ok (ok_or x.remote_id (invalid (text "REMOTE_ID_REQUIRED"))) _ (after, answer) h in
    let (evidence_ref, _, h2) =
      bind_ok (ok_or x.evidence_ref (invalid (text "EVIDENCE_REF_REQUIRED"))) _ (after, answer)
        h1 in
    record_effect_succeeded-IsChange false s after id answer now _ h2
apply_reconciliation_evidence-IsChange s after id answer now confirmed_failure x h =
    resolve_without-parts false s after id answer transmitted_states (text "FAILED_CONFIRMED") true
      (text "effect failed confirmed")
      (λ e version l from done.
        let (p, ended) = released s.ledger l e.reservation_id done in failed p from refl refl ended)
      h
apply_reconciliation_evidence-IsChange s after id answer now proven_absent_and_reauthorized x h =
    resolve_without-parts true s after id answer (text "RECONCILING" ∷ []) (text "AUTHORIZED") false
      (text "effect proven absent reauthorized")
      (λ e version l from done.
        reauthorized refl (reconciling_only e.state from) refl refl
          (kept s.ledger l e.reservation_id done))
      h
apply_reconciliation_evidence-IsChange s after id answer now unresolved x h =
    resolve_without-parts false s after id answer (text "RECONCILING" ∷ []) (text "MANUAL_REVIEW")
      false (text "effect manual review")
      (λ e version l from done.
        halted (reconciling_only e.state from) refl refl (kept s.ledger l e.reservation_id done))
      h
