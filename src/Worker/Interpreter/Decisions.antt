-- ===== src/Worker/Interpreter/Decisions.antt =====
-- The decisions of the interpreter and their grounds (crates/worker/src/run_interpreter.rs).
use masonwing.Prelude.{
  ℕ, zero, suc, ◌+◌, ◌-◌, ◌≤◌, ◌<◌, ◌≡◌, refl, sym, subst, ◌⊎◌, inl, inr, false, Option, none, some,
  arith, dec_le, Result, ok, err, Bool-cases, Option-cases, Text, text_eq, text_eq_iff,
}
use masonwing.Contracts.Wire.{WorkflowNode, WorkflowDefinition}
use masonwing.Worker.Interpreter.{
  CheckpointRecord, StepDecision, completed, limit_reached, unsupported, Stop, RunInterpreter,
  is_succeeded, is_halted, node, successor, walk, node_at, step_at, steps_from, next_step,
}
use masonwing.Worker.Interpreter.Justified.{
  recorded, IsAt, IsDone, DoneBelow, IsOpen, At, by, budget_gate-At, step_unrecorded, step_other,
  step_succeeded, step_halted, step_open,
}

module _ (d : WorkflowDefinition) where
  walk_here :
      (current node_id : Text)
      → walk d zero current ≡ ok (some node_id)
      → (n : WorkflowNode) × (node d node_id ≡ some n)
  unfolding walk
  walk_here current node_id h = elim (Option-cases (node d current)) [
    | inl missing ↦ absurd (ground arith)
    | inr (n, e) ↦ (n, ground arith)
  ]

  walk_next :
      (rounds : ℕ) (current node_id : Text)
      → walk d (suc rounds) current ≡ ok (some node_id)
      → (next : Text) × (walk d rounds next ≡ ok (some node_id))
  unfolding walk
  walk_next rounds current node_id h = elim (Option-cases (successor d current)) [
    | inl missing ↦ absurd (ground arith)
    | inr (next, e) ↦ (next, ground arith)
  ]

  -- The traversal stops at declared nodes only.
  walk_declared :
      (rounds : ℕ) (current node_id : Text)
      → walk d rounds current ≡ ok (some node_id)
      → (n : WorkflowNode) × (node d node_id ≡ some n)
  walk_declared zero current node_id h = walk_here current node_id h
  walk_declared (suc rounds) current node_id h =
      let (next, e) = walk_next rounds current node_id h in walk_declared rounds next node_id e

  pub node_at_declared :
      (seq : ℕ) (node_id : Text)
      → node_at d seq ≡ ok (some node_id)
      → (n : WorkflowNode) × (node d node_id ≡ some n)
  unfolding node_at
  node_at_declared seq node_id h = walk_declared (seq - 1) d.entry_node node_id h

module _ (r : RunInterpreter) where
  IsOpen-record :
      (seq : ℕ) (node_id : Text) (c : CheckpointRecord)
      → recorded r seq node_id ≡ some c
      → c.node_id ≡ node_id
      → is_succeeded c ≡ false
      → is_halted c ≡ false
      → IsOpen r seq node_id
  IsOpen-record seq node_id c e same undone runs c' e' =
      let same_record : c ≡ c' = cc in
      subst
        (λ (x : CheckpointRecord).
          (x.node_id ≡ node_id) × (is_succeeded x ≡ false) × (is_halted x ≡ false))
        same_record (same, undone, runs)

  -- A step either was done, and the loop goes on, or has its own decision.
  step_decides :
      (seq : ℕ) (node_id : Text) (later : StepDecision)
      → node_at r.definition seq ≡ ok (some node_id)
      → (IsDone r seq × (step_at r seq node_id later ≡ later))
        ⊎ At r seq (step_at r seq node_id later)
  step_decides seq node_id later reached =
      let (n, declared) = node_at_declared r.definition seq node_id reached in
      let here : IsAt r seq node_id n = record { reached = reached; declared = declared } in
      elim (Option-cases (recorded r seq node_id)) [
        | inl unrecorded ↦ inr (
            by r seq (step_unrecorded r seq node_id later unrecorded)
              (budget_gate-At r seq node_id n here (λ c e. cc)))
        | inr (c, e) ↦ elim (Bool-cases (text_eq c.node_id node_id)) [
          | inr other ↦ inr (
              by r seq (step_other r seq node_id later c e other) (
                node_id,
                c,
                reached,
                e,
                λ same. cc ((text_eq_iff c.node_id node_id).1 same, other),
              ))
          | inl same ↦ elim (Bool-cases (is_succeeded c)) [
            | inl done ↦ inl (
              (node_id, c, reached, e, (text_eq_iff c.node_id node_id).0 same, done),
              step_succeeded r seq node_id later c e same done,
            )
            | inr undone ↦ elim (Bool-cases (is_halted c)) [
              | inl halts ↦ inr (
                  by r seq (step_halted r seq node_id later c e same undone halts)
                    (node_id, c, reached, e, undone, halts, refl))
              | inr runs ↦ inr (
                  by r seq (step_open r seq node_id later c e same undone runs) (
                    budget_gate-At r seq node_id n here (
                      IsOpen-record seq node_id c e ((text_eq_iff c.node_id node_id).0 same) undone
                        runs)))
            ]
          ]
        ]
      ]

  -- A decision was made at the first step that is not done, on its grounds, or all steps are done and
  -- the budget of steps is used up.
  abbrev pub IsJustified : ℕ → StepDecision → Type 0
  IsJustified last decision =
      ((seq : ℕ) × (1 ≤ seq) × (seq ≤ last) × DoneBelow r seq × At r seq decision)
      ⊎ ((decision ≡ limit_reached) × DoneBelow r (suc last))

  done_next : (seq : ℕ) → DoneBelow r seq → IsDone r seq → DoneBelow r (suc seq)
  done_next seq below this i h k = elim (dec_le (suc i) seq) [
    | yes less ↦ below i h less
    | no more ↦ subst (IsDone r) (same_step i more k) this
  ]
    where
      same_step : (i : ℕ) → ¬ (suc i ≤ seq) → i < suc seq → seq ≡ i
      same_step i more k = omega arith

  module _ (rounds seq : ℕ) where
    steps_unsupported :
        (reason node_id : Text)
        → node_at r.definition seq ≡ err (reason, node_id)
        → steps_from r (suc rounds) seq ≡ unsupported node_id reason
    unfolding steps_from
    steps_unsupported reason node_id e = ground arith

    steps_completed : node_at r.definition seq ≡ ok none → steps_from r (suc rounds) seq ≡ completed
    unfolding steps_from
    steps_completed e = ground arith

    steps_step :
        (node_id : Text)
        → node_at r.definition seq ≡ ok (some node_id)
        → steps_from r (suc rounds) seq ≡ step_at r seq node_id (steps_from r rounds (suc seq))
    unfolding steps_from
    steps_step node_id e = ground arith

  IsJustified-cong :
      (last : ℕ) {x y : StepDecision} → x ≡ y → IsJustified last y → IsJustified last x
  IsJustified-cong last e h = subst (IsJustified last) (sym e) h

  steps_from_lem :
      (rounds seq last : ℕ)
      → seq + rounds ≡ suc last
      → 1 ≤ seq
      → DoneBelow r seq
      → IsJustified last (steps_from r rounds seq)
  unfolding steps_from
  steps_from_lem zero seq last e h below =
      let ends : seq ≡ suc last = omega arith in inr (refl, subst (DoneBelow r) ends below)
  steps_from_lem (suc rounds) seq last e h below =
      at_step (node_at r.definition seq) refl
        (steps_from_lem rounds (suc seq) last (omega arith) (omega arith))
    where
      at_step :
          (found : Result (Option Text) Stop)
          → node_at r.definition seq ≡ found
          → (DoneBelow r (suc seq) → IsJustified last (steps_from r rounds (suc seq)))
          → IsJustified last (steps_from r (suc rounds) seq)
      at_step (err (reason, node_id)) n later =
          IsJustified-cong last (steps_unsupported rounds seq reason node_id n)
            (inl (seq, h, omega arith, below, n))
      at_step (ok none) n later =
          IsJustified-cong last (steps_completed rounds seq n) (inl (seq, h, omega arith, below, n))
      at_step (ok (some node_id)) n later =
          IsJustified-cong last (steps_step rounds seq node_id n)
            (elim (step_decides seq node_id (steps_from r rounds (suc seq)) n) [
              | inl (this, e') ↦ IsJustified-cong last e' (later (done_next seq below this))
              | inr grounds ↦ inl (seq, h, omega arith, below, grounds)
            ])

  pub next_step_lem : IsJustified r.definition.max_total_steps (next_step r)
  unfolding next_step
  next_step_lem =
      steps_from_lem r.definition.max_total_steps 1 r.definition.max_total_steps (omega arith)
        (omega arith) (λ i h k. absurd (omega arith))
