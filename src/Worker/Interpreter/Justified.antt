-- ===== src/Worker/Interpreter/Justified.antt =====
-- What each decision of the interpreter rests on (crates/worker/src/run_interpreter.rs).
use masonwing.Prelude.{
  ℕ, ◌≤◌, ◌<◌, ◌≡◌, refl, sym, subst, ◌≢◌, inl, inr, true, false, ◌&&◌, Option, none, some, arith,
  map_get, ok, err, leb, Bool-cases, Text, text_eq,
}
use masonwing.Contracts.Wire.{WorkflowNode, WorkflowDefinition}
use masonwing.Worker.StepKeys.{logical_step_key}
use masonwing.Worker.Interpreter.{
  CheckpointRecord, StepDecision, execute, completed, limit_reached, waiting_approval,
  replay_incompatible, blocked, unsupported, RunInterpreter, is_model, is_approval, is_succeeded,
  is_halted, node, node_at, model_turns_used, budget_gate, step_at,
}

module _ (r : RunInterpreter) where
  abbrev pub d : WorkflowDefinition
  d = r.definition

  abbrev pub recorded : ℕ → Text → Option CheckpointRecord
  recorded seq node_id = map_get (logical_step_key seq node_id) r.checkpoints

  -- The traversal is at the node in step `seq`, and the node is declared.
  pub record IsAt (seq : ℕ) (node_id : Text) (n : WorkflowNode) : Type 0 where
    pub reached : node_at d seq ≡ ok (some node_id)
    pub declared : node d node_id ≡ some n

  -- Step `seq` is recorded as succeeded, for the node that the traversal is at.
  abbrev pub IsDone : ℕ → Type 0
  IsDone seq =
      (node_id : Text) × (c : CheckpointRecord) × (node_at d seq ≡ ok (some node_id))
      × (recorded seq node_id ≡ some c)
      × (c.node_id ≡ node_id)
      × (is_succeeded c ≡ true)

  abbrev pub DoneBelow : ℕ → Type 0
  DoneBelow seq = (i : ℕ) → 1 ≤ i → i < seq → IsDone i

  -- What is recorded of the step, if anything, leaves it unfinished.
  abbrev pub IsOpen : ℕ → Text → Type 0
  IsOpen seq node_id =
      (c : CheckpointRecord)
      → recorded seq node_id ≡ some c
      → (c.node_id ≡ node_id) × (is_succeeded c ≡ false) × (is_halted c ≡ false)

  -- The grounds for a decision at step `seq`.
  abbrev pub At : ℕ → StepDecision → Type 0
  At seq (execute key node_id) =
      (key ≡ logical_step_key seq node_id)
      × IsOpen seq node_id
      × ((n : WorkflowNode) × IsAt seq node_id n
          × (is_approval n ≡ false)
          × (is_model n ≡ true → model_turns_used d seq < d.max_model_turns))
  At seq completed = node_at d seq ≡ ok none
  At seq limit_reached =
      (node_id : Text) × (n : WorkflowNode) × IsAt seq node_id n
      × IsOpen seq node_id
      × (is_model n ≡ true)
      × (d.max_model_turns ≤ model_turns_used d seq)
  At seq (waiting_approval key node_id) =
      (key ≡ logical_step_key seq node_id)
      × IsOpen seq node_id
      × ((n : WorkflowNode) × IsAt seq node_id n × (is_approval n ≡ true))
  At seq replay_incompatible =
      (node_id : Text) × (c : CheckpointRecord) × (node_at d seq ≡ ok (some node_id))
      × (recorded seq node_id ≡ some c)
      × (c.node_id ≢ node_id)
  At seq (blocked failure_code) =
      (node_id : Text) × (c : CheckpointRecord) × (node_at d seq ≡ ok (some node_id))
      × (recorded seq node_id ≡ some c)
      × (is_succeeded c ≡ false)
      × (is_halted c ≡ true)
      × (c.failure_code ≡ failure_code)
  At seq (unsupported node_id reason) = node_at d seq ≡ err (reason, node_id)

  module _ (seq : ℕ) (node_id key : Text) (n : WorkflowNode)
      (declared : node d node_id ≡ some n) where
    gate_limit :
        (is_model n && leb d.max_model_turns (model_turns_used d seq)) ≡ true
        → budget_gate r seq node_id key ≡ limit_reached
    unfolding budget_gate
    gate_limit full = ground arith

    gate_waits :
        (is_model n && leb d.max_model_turns (model_turns_used d seq)) ≡ false
        → is_approval n ≡ true
        → budget_gate r seq node_id key ≡ waiting_approval key node_id
    unfolding budget_gate
    gate_waits room parks = ground arith

    gate_executes :
        (is_model n && leb d.max_model_turns (model_turns_used d seq)) ≡ false
        → is_approval n ≡ false
        → budget_gate r seq node_id key ≡ execute key node_id
    unfolding budget_gate
    gate_executes room runs = ground arith

  pub by : (seq : ℕ) {x y : StepDecision} → x ≡ y → At seq y → At seq x
  by seq e h = subst (At seq) (sym e) h

  pub budget_gate-At :
      (seq : ℕ) (node_id : Text) (n : WorkflowNode)
      → IsAt seq node_id n
      → IsOpen seq node_id
      → At seq (budget_gate r seq node_id (logical_step_key seq node_id))
  budget_gate-At seq node_id n a o =
      elim (Bool-cases (is_model n && leb d.max_model_turns (model_turns_used d seq))) [
        | inl full ↦
            by seq (gate_limit seq node_id _ n a.declared full)
              (node_id, n, a, o, ground arith, ground arith)
        | inr free ↦ elim (Bool-cases (is_approval n)) [
          | inl parks ↦
              by seq (gate_waits seq node_id _ n a.declared free parks) (refl, o, (n, a, parks))
          | inr runs ↦
              by seq (gate_executes seq node_id _ n a.declared free runs)
                (refl, o, (n, a, runs, λ m. ground arith))
        ]
      ]

  module _ (seq : ℕ) (node_id : Text) (later : StepDecision) where
    pub step_unrecorded :
        recorded seq node_id ≡ none
        → step_at r seq node_id later ≡ budget_gate r seq node_id (logical_step_key seq node_id)
    unfolding step_at
    step_unrecorded e = ground arith

    module _ (c : CheckpointRecord) (e : recorded seq node_id ≡ some c) where
      pub step_other :
          text_eq c.node_id node_id ≡ false → step_at r seq node_id later ≡ replay_incompatible
      unfolding step_at
      step_other h = ground arith

      module _ (same : text_eq c.node_id node_id ≡ true) where
        pub step_succeeded : is_succeeded c ≡ true → step_at r seq node_id later ≡ later
        unfolding step_at
        step_succeeded h = ground arith

        pub step_halted :
            is_succeeded c ≡ false
            → is_halted c ≡ true
            → step_at r seq node_id later ≡ blocked c.failure_code
        unfolding step_at
        step_halted h k = ground arith

        pub step_open :
            is_succeeded c ≡ false
            → is_halted c ≡ false
            → step_at r seq node_id later ≡ budget_gate r seq node_id (logical_step_key seq node_id)
        unfolding step_at
        step_open h k = ground arith
