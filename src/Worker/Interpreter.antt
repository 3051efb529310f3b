-- ===== src/Worker/Interpreter.antt =====
-- crates/worker/src/run_interpreter.rs: the next step of a run, from its definition and its
-- recorded checkpoints.
pub mod Justified
pub mod Decisions
pub mod Progress
use masonwing.Prelude.{
  ℕ, zero, suc, ◌+◌, ◌-◌, ◌*◌, ◌/◌, ◌%◌, ◌^◌, ◌≤◌, ◌<◌, String, ◌≡◌, refl, sym, ap, ap₂, subst, ◌∙◌,
  ◌≢◌, ◌↔◌, ◌⊎◌, inl, inr, Bool, true, false, not, ◌&&◌, ◌||◌, Option, none, some, List, [], ◌∷◌,
  ◌++◌, map, append_assoc, append-nil, arith, ℕ_discrete, ℤ, pos, negsuc, pos_part, neg_part, ltb_ℤ,
  leb_ℤ, ◌≤ℤ◌, ◌<ℤ◌, eq_ℤ, suc_ℤ, suc_ℤ_parts, eq_ℤ_iff, length, drop, length-append, map_insert,
  map_get, map_get-insert, Result, ok, err, ◌>>=◌, ◌>>◌, guard, ok_or, contains, is_subset,
  contains_subset, is_subset_iff, contains-append, contains-singleton, is_subset_mono,
  contains-head, contains-tail, ltb, leb, ◌==◌, if◌then◌else◌, ==_iff, Bool-cases, Option-cases,
  Text, text, text_eq, text_eq_iff, text_eq_refl,
}
use masonwing.Contracts.Wire.{WorkflowNode, WorkflowEdge, WorkflowDefinition}
use masonwing.Worker.StepKeys.{logical_step_key}

pub record CheckpointRecord : Type 0 where
  pub logical_step_id : Text
  pub node_id : Text
  pub state : Text
  pub failure_code : Option Text

pub data StepDecision : Type 0 where
  execute : (logical_step_id node_id : Text) → StepDecision
  completed : StepDecision
  limit_reached : StepDecision
  waiting_approval : (logical_step_id node_id : Text) → StepDecision
  replay_incompatible : StepDecision
  blocked : (failure_code : Option Text) → StepDecision
  unsupported : (node_id reason : Text) → StepDecision

-- The records by their step.
pub record RunInterpreter : Type 0 where
  pub definition : WorkflowDefinition
  pub checkpoints : List (Text × CheckpointRecord)

-- `collect` into a map: of two records of one step the later is kept.
unfoldable pub index :
    List CheckpointRecord → List (Text × CheckpointRecord) → List (Text × CheckpointRecord)
unfolding map_insert
index [] m = m
index (record_of ∷ rest) m = index rest (map_insert record_of.logical_step_id record_of m)

unfoldable pub new : WorkflowDefinition → List CheckpointRecord → RunInterpreter
unfolding index
new definition checkpoints = record { definition = definition; checkpoints = index checkpoints [] }

unfoldable pub find_node : Text → List WorkflowNode → Option WorkflowNode
unfolding text_eq
find_node node_id [] = none
find_node node_id (n ∷ rest) = if text_eq n.id node_id then some n else find_node node_id rest

abbrev pub is_model : WorkflowNode → Bool
unfolding text_eq
is_model n = text_eq n.kind (text "MODEL")

abbrev pub is_approval : WorkflowNode → Bool
unfolding text_eq
is_approval n = text_eq n.kind (text "APPROVAL")

-- The condition of the edge on which a node of this kind continues.
abbrev pub continuation : WorkflowNode → Text
unfolding text_eq
continuation n = if is_approval n then text "APPROVED" else text "SUCCESS"

unfoldable pub find_edge : Text → Text → List WorkflowEdge → Option Text
unfolding text_eq
find_edge from condition [] = none
find_edge from condition (e ∷ rest) =
    if text_eq e.from from && text_eq e.condition condition
    then some e.to
    else find_edge from condition rest

-- `out_edges.is_empty()` is the negation of this.
unfoldable pub has_out_edges : Text → List WorkflowEdge → Bool
unfolding text_eq
has_out_edges from [] = false
has_out_edges from (e ∷ rest) = text_eq e.from from || has_out_edges from rest

-- The reason and the node at which a traversal cannot go on.
abbrev pub Stop : Type 0
Stop = Text × Text

abbrev pub node_undeclared : Text
node_undeclared = text "NODE_UNDECLARED"

abbrev pub unmodeled_branch_edge : Text
unmodeled_branch_edge = text "UNMODELED_BRANCH_EDGE"

abbrev pub edge_target_undeclared : Text
edge_target_undeclared = text "EDGE_TARGET_UNDECLARED"

module _ (d : WorkflowDefinition) where
  unfoldable pub node : Text → Option WorkflowNode
  unfolding find_node
  node node_id = find_node node_id d.nodes

  unfoldable pub successor : Text → Option Text
  unfolding node find_edge
  successor node_id = elim (node node_id) [
    | none ↦ none
    | some n ↦ find_edge node_id (continuation n) d.edges
  ]

  -- The loop of `node_at`, with the rounds that are left and the current node.
  unfoldable pub walk : ℕ → Text → Result (Option Text) Stop
  unfolding node successor has_out_edges
  walk zero current = elim (node current) [
    | none ↦ err (node_undeclared, current)
    | some _ ↦ ok (some current)
  ]
  walk (suc rounds) current = elim (node current) [
    | none ↦ err (node_undeclared, current)
    | some _ ↦ elim (has_out_edges current d.edges) [
      | false ↦ ok none
      | true ↦ elim (successor current) [
        | none ↦ err (unmodeled_branch_edge, current)
        | some next ↦ elim (node next) [
          | none ↦ err (edge_target_undeclared, next)
          | some _ ↦ walk rounds next
        ]
      ]
    ]
  ]

  unfoldable pub node_at : ℕ → Result (Option Text) Stop
  unfolding walk
  node_at seq = walk (seq - 1) d.entry_node

  -- Whether step `seq` is at a model node.
  unfoldable pub is_model_step : ℕ → Bool
  unfolding node_at node is_model
  is_model_step seq = elim (node_at seq) [
    | err _ ↦ false
    | ok none ↦ false
    | ok (some node_id) ↦ elim (node node_id) [ none ↦ false | some n ↦ is_model n ]
  ]

  -- `(1..upto_seq).filter_map(…).filter(…).count()`, the last step first.
  unfoldable pub model_turns_used : ℕ → ℕ
  unfolding is_model_step
  model_turns_used zero = 0
  model_turns_used (suc zero) = 0
  model_turns_used (suc (suc seq)) =
      let before = model_turns_used (suc seq) in
      if is_model_step (suc seq) then suc before else before

abbrev pub is_succeeded : CheckpointRecord → Bool
unfolding text_eq
is_succeeded c = text_eq c.state (text "SUCCEEDED")

abbrev pub is_halted : CheckpointRecord → Bool
unfolding text_eq
is_halted c = text_eq c.state (text "FAILED") || text_eq c.state (text "BLOCKED")

module _ (r : RunInterpreter) where
  unfoldable pub budget_gate : ℕ → Text → Text → StepDecision
  unfolding node is_model is_approval model_turns_used
  budget_gate seq node_id key = elim (node r.definition node_id) [
    | none ↦ replay_incompatible
    | some n ↦
        if is_model n && leb r.definition.max_model_turns (model_turns_used r.definition seq)
        then limit_reached
        else if is_approval n
        then waiting_approval key node_id
        else execute key node_id
  ]

  -- The body of the loop at step `seq` that has reached a node, where `later` is the next round.
  unfoldable pub step_at : ℕ → Text → StepDecision → StepDecision
  unfolding map_get budget_gate text_eq logical_step_key
  step_at seq node_id later =
      let key = logical_step_key seq node_id in
      elim (map_get key r.checkpoints) [
        | none ↦ budget_gate seq node_id key
        | some c ↦
            if not (text_eq c.node_id node_id)
            then replay_incompatible
            else if is_succeeded c
            then later
            else if is_halted c
            then blocked c.failure_code
            else budget_gate seq node_id key
      ]

  -- The loop `for seq in 1..=max_total_steps`, with the rounds that are left.
  unfoldable pub steps_from : ℕ → ℕ → StepDecision
  unfolding node_at step_at
  steps_from zero seq = limit_reached
  steps_from (suc rounds) seq = elim (node_at r.definition seq) [
    | err (reason, node_id) ↦ unsupported node_id reason
    | ok none ↦ completed
    | ok (some node_id) ↦ step_at seq node_id (steps_from rounds (suc seq))
  ]

  unfoldable pub next_step : StepDecision
  unfolding steps_from
  next_step = steps_from r.definition.max_total_steps 1
