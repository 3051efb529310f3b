-- ===== src/Worker/Interpreter/Progress.antt =====
-- Runs whose executed steps succeed one after another (crates/worker/src/run_interpreter.rs).
use masonwing.Prelude.{
  ℕ, suc, ◌^◌, ◌≤◌, ◌<◌, ◌≡◌, refl, sym, subst, ◌∙◌, ◌≢◌, inl, inr, true, none, some, arith, dec_le,
  map_insert, map_get-insert, ok, Bool-cases, Text, text, text_eq, text_eq_iff, text_eq_refl,
}
use masonwing.Worker.StepKeys.{logical_step_key}
use masonwing.Worker.StepKeys.Laws.{logical_step_key-injective}
use masonwing.Worker.Interpreter.{
  CheckpointRecord, StepDecision, execute, completed, limit_reached, waiting_approval,
  replay_incompatible, blocked, unsupported, RunInterpreter, is_succeeded, node_at, next_step,
}
use masonwing.Worker.Interpreter.Justified.{recorded, IsDone, DoneBelow, IsOpen, At}
use masonwing.Worker.Interpreter.Decisions.{IsJustified, next_step_lem}

-- The record that the worker writes when the step that it executed has succeeded.
abbrev success : Text → Text → CheckpointRecord
success key node_id = record {
  logical_step_id = key;
  node_id = node_id;
  state = text "SUCCEEDED";
  failure_code = none;
}

pub record_success : RunInterpreter → Text → Text → RunInterpreter
record_success r key node_id = record r {
  checkpoints = map_insert key (success key node_id) r.checkpoints;
}

pub definition-record_success :
    (r : RunInterpreter) (key node_id : Text)
    → (record_success r key node_id).definition ≡ r.definition
unfolding record_success
definition-record_success r key node_id = refl

module _ (r : RunInterpreter) where
  -- Of one step the same node and the same record are read everywhere.
  same_done :
      (seq : ℕ) (node_id : Text)
      → IsDone r seq
      → node_at r.definition seq ≡ ok (some node_id)
      → (c : CheckpointRecord) × (recorded r seq node_id ≡ some c)
        × (c.node_id ≡ node_id)
        × (is_succeeded c ≡ true)
  same_done seq node_id (done_id, c, reached, found, same, succeeded) here =
      let same_id : done_id ≡ node_id = cc in
      (c, subst (λ (x : Text). recorded r seq x ≡ some c) same_id found, same ∙ same_id, succeeded)

  not-IsOpen :
      (seq : ℕ) (node_id : Text)
      → IsDone r seq
      → node_at r.definition seq ≡ ok (some node_id)
      → ¬ IsOpen r seq node_id
  not-IsOpen seq node_id done here o =
      let (c, found, _, succeeded) = same_done seq node_id done here in
      cc ((o c found).1, succeeded)

  -- A step that is done has no decision.
  done_not-At : (seq : ℕ) (decision : StepDecision) → IsDone r seq → ¬ At r seq decision
  done_not-At seq (execute key node_id) done (e, o, (n, a, _, _)) =
      not-IsOpen seq node_id done a.reached o
  done_not-At seq completed (done_id, c, reached, _, _, _) h = cc
  done_not-At seq limit_reached done (node_id, n, a, o, _, _) =
      not-IsOpen seq node_id done a.reached o
  done_not-At seq (waiting_approval key node_id) done (e, o, (n, a, _)) =
      not-IsOpen seq node_id done a.reached o
  done_not-At seq replay_incompatible done (node_id, c, reached, found, other) =
      let (c', found', same, _) = same_done seq node_id done reached in
      other (let e : c' ≡ c = cc in cc)
  done_not-At seq (blocked code) done (node_id, c, reached, found, undone, _, _) =
      let (c', found', _, succeeded) = same_done seq node_id done reached in
      let e : c' ≡ c = cc in cc
  done_not-At seq (unsupported node_id reason) (done_id, c, reached, _, _, _) h = cc

  -- With every step of the budget done, the limit is reached: also when the traversal ends at the
  -- last of them, so that nothing of it is left to do.
  pub full_budget_limit :
      DoneBelow r (suc r.definition.max_total_steps) → next_step r ≡ limit_reached
  full_budget_limit all = elim (next_step_lem r) [
    | inl (seq, low, high, below, grounds) ↦
        absurd (done_not-At seq (next_step r) (all seq low (omega arith)) grounds)
    | inr (limit, _) ↦ limit
  ]

module _ (r : RunInterpreter) (seq : ℕ) (node_id : Text) where
  abbrev after : RunInterpreter
  after = record_success r (logical_step_key seq node_id) node_id

  -- Writing the record of step `seq` leaves what is recorded of every other step.
  recorded_other :
      (i : ℕ) (id : Text)
      → seq < 2 ^ 32
      → i < 2 ^ 32
      → seq ≢ i
      → recorded after i id ≡ recorded r i id
  unfolding record_success
  recorded_other i id h k other =
      elim (Bool-cases (text_eq (logical_step_key seq node_id) (logical_step_key i id))) [
        | inl same ↦
            absurd
              (other (logical_step_key-injective seq i node_id id h k ((text_eq_iff _ _).0 same)).0)
        | inr apart ↦ rw apart at (
            map_get-insert (logical_step_key seq node_id) (logical_step_key i id)
              (success (logical_step_key seq node_id) node_id) r.checkpoints)
      ]

  recorded_this : recorded after seq node_id ≡ some (success (logical_step_key seq node_id) node_id)
  unfolding record_success
  recorded_this = rw (text_eq_refl (logical_step_key seq node_id)) at (
      map_get-insert (logical_step_key seq node_id) (logical_step_key seq node_id)
        (success (logical_step_key seq node_id) node_id) r.checkpoints)

  IsDone-this : node_at r.definition seq ≡ ok (some node_id) → IsDone after seq
  unfolding record_success is_succeeded text_eq
  IsDone-this here =
      (node_id, success (logical_step_key seq node_id) node_id, here, recorded_this, refl, refl)

  IsDone-other : (i : ℕ) → seq < 2 ^ 32 → i < 2 ^ 32 → seq ≢ i → IsDone r i → IsDone after i
  unfolding record_success
  IsDone-other i h k other (id, c, here, found, same, succeeded) =
      (id, c, here, recorded_other i id h k other ∙ found, same, succeeded)

  DoneBelow-after :
      seq < 2 ^ 32
      → node_at r.definition seq ≡ ok (some node_id)
      → DoneBelow r seq
      → DoneBelow after (suc seq)
  DoneBelow-after h here below i low high = elim (dec_le (suc i) seq) [
    | yes less ↦ IsDone-other i h (omega arith) (omega arith) (below i low less)
    | no more ↦ let same : seq ≡ i = omega arith in subst (IsDone after) same (IsDone-this here)
  ]

-- Where the next decision is to execute, it is for the first step that is not done, and with its
-- success recorded that step is done too.
pub execute_advances :
    (r : RunInterpreter) (first : ℕ) (key node_id : Text)
    → r.definition.max_total_steps < 2 ^ 32
    → DoneBelow r first
    → next_step r ≡ execute key node_id
    → (seq : ℕ) × (first ≤ seq)
      × (seq ≤ r.definition.max_total_steps)
      × (key ≡ logical_step_key seq node_id)
      × DoneBelow (record_success r key node_id) (suc seq)
execute_advances r first key node_id small done e =
    grounds (subst (IsJustified r r.definition.max_total_steps) e (next_step_lem r))
  where
    grounds :
        IsJustified r r.definition.max_total_steps (execute key node_id)
        → (seq : ℕ) × (first ≤ seq)
          × (seq ≤ r.definition.max_total_steps)
          × (key ≡ logical_step_key seq node_id)
          × DoneBelow (record_success r key node_id) (suc seq)
    grounds (inr (limit, _)) = cc
    grounds (inl (seq, low, high, below, (key_is, o, (n, a, _, _)))) = (
      seq,
      elim (dec_le first seq) [
        | yes ahead ↦ ahead
        | no behind ↦ absurd (not-IsOpen r seq node_id (done seq low (omega arith)) a.reached o)
      ],
      high,
      key_is,
      subst (λ (k : Text). DoneBelow (record_success r k node_id) (suc seq)) (sym key_is)
          (DoneBelow-after r seq node_id (omega arith) a.reached below),
    )
