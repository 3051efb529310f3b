-- ===== src/Worker/Tests.antt =====
-- The worker's definitions and theorems at a workflow of a model node, an approval and an end.
use masonwing.Prelude.{
  ℕ, zero, suc, ◌≤◌, ◌≡◌, refl, ◌≢◌, false, none, some, [], ◌∷◌, arith, pos, length, map_get, Text,
  text,
}
use masonwing.Contracts.Wire.{
  ArtifactRef, Classification, WorkflowNode, WorkflowEdge, WorkflowDefinition,
}
use masonwing.Worker.StepKeys.{logical_step_key, node_id_from_logical_step_id}
use masonwing.Worker.StepKeys.Laws.{node_id-logical_step_key, logical_step_key-injective}
use masonwing.Worker.Interpreter.{
  CheckpointRecord, execute, limit_reached, waiting_approval, replay_incompatible, RunInterpreter,
  next_step, new, node_at,
}
use masonwing.Worker.Interpreter.Justified.{DoneBelow}
use masonwing.Worker.Interpreter.Progress.{full_budget_limit}
use masonwing.Worker.Resume.{DurableCheckpoint, dispatches, interpreter_from_checkpoints}
use masonwing.Worker.Resume.Laws.{resumed_never_incompatible}
use masonwing.Worker.Resume.Drive.{drive, IsDistinct, drive_ends}

abbrev schema : ArtifactRef
schema = record {
  artifact_id = text "schema";
  tenant_id = text "acme";
  digest = text "00";
  schema_version = text "v1";
  classification = Classification.internal;
}

abbrev node_of : Text → Text → WorkflowNode
node_of id kind = record {
  id = id;
  kind = kind;
  handler_id = none;
  input_schema_ref = schema;
  output_schema_ref = schema;
  max_attempts = 1;
  timeout_seconds = 60;
  max_iterations = 1;
  on_failure = text "FAIL";
}

abbrev edge_of : Text → Text → Text → WorkflowEdge
edge_of from to condition = record { from = from; to = to; condition = condition }

-- `draft` (a model node), `review` (an approval), `done` (without an edge).
abbrev workflow : ℕ → ℕ → WorkflowDefinition
workflow max_total_steps max_model_turns = record {
  id = text "workflow";
  version = text "1";
  input_schema_ref = schema;
  output_schema_ref = schema;
  entry_node = text "draft";
  nodes =
      node_of (text "draft") (text "MODEL")
      ∷ node_of (text "review") (text "APPROVAL")
      ∷ node_of (text "done") (text "END")
      ∷ [];
  edges =
      edge_of (text "draft") (text "review") (text "SUCCESS")
      ∷ edge_of (text "review") (text "done") (text "APPROVED")
      ∷ [];
  max_total_steps = max_total_steps;
  max_model_turns = max_model_turns;
  required_actions = [];
  digest = text "00";
}

abbrev checkpoint : Text → Text → Text → CheckpointRecord
checkpoint key node_id state = record {
  logical_step_id = key;
  node_id = node_id;
  state = state;
  failure_code = none;
}

abbrev drafted : CheckpointRecord
drafted = checkpoint (text "0001:draft") (text "draft") (text "SUCCEEDED")

abbrev reviewed : CheckpointRecord
reviewed = checkpoint (text "0002:review") (text "review") (text "SUCCEEDED")

padded_key : logical_step_key 7 (text "draft") ≡ text "0007:draft"
unfolding logical_step_key
padded_key = refl

five_digits : logical_step_key 10000 (text "draft") ≡ text "10000:draft"
unfolding logical_step_key
five_digits = refl

starts : next_step (new (workflow 8 1) []) ≡ execute (text "0001:draft") (text "draft")
unfolding next_step new
starts = refl

waits :
    next_step (new (workflow 8 1) (drafted ∷ []))
    ≡ waiting_approval (text "0002:review") (text "review")
unfolding next_step new
waits = refl

continues :
    next_step (new (workflow 8 1) (drafted ∷ reviewed ∷ []))
    ≡ execute (text "0003:done") (text "done")
unfolding next_step new
continues = refl

no_model_turns : next_step (new (workflow 8 0) []) ≡ limit_reached
unfolding next_step new
no_model_turns = refl

incompatible :
    next_step
      (new (workflow 8 1) (checkpoint (text "0001:draft") (text "other") (text "SUCCEEDED") ∷ []))
    ≡ replay_incompatible
unfolding next_step new
incompatible = refl

abbrev started : RunInterpreter
started = new (workflow 8 1) (drafted ∷ [])

drive_ends_example :
    (dispatches (next_step (drive 9 started).1) ≡ false)
    × (length (drive 9 started).0 ≤ 8)
    × IsDistinct (drive 9 started).0
unfolding new
drive_ends_example = drive_ends started (omega arith)

abbrev row : Text → Text → DurableCheckpoint
row key state = record { logical_step_id = key; state = state; failure_code = none; fence = pos 1 }

resumed_never_incompatible_example :
    next_step (
      interpreter_from_checkpoints (workflow 8 1) (row (text "0001:other") (text "SUCCEEDED") ∷ []))
    ≢ replay_incompatible
resumed_never_incompatible_example =
    resumed_never_incompatible (workflow 8 1) (row (text "0001:other") (text "SUCCEEDED") ∷ [])

abbrev drafted_only : RunInterpreter
drafted_only = new (workflow 1 1) (drafted ∷ [])

drafted_done : DoneBelow drafted_only 2
unfolding new node_at map_get logical_step_key
drafted_done (suc zero) low high = (text "draft", drafted, refl, refl, refl, refl)
drafted_done zero low high = absurd (omega arith)
drafted_done (suc (suc i)) low high = absurd (omega arith)

full_budget_limit_example : next_step drafted_only ≡ limit_reached
unfolding new
full_budget_limit_example = full_budget_limit drafted_only drafted_done

node_id-logical_step_key_example :
    node_id_from_logical_step_id (logical_step_key 7 (text "draft:v2")) ≡ some (text "draft:v2")
node_id-logical_step_key_example = node_id-logical_step_key 7 (text "draft:v2") (λ e. cc)

wide_key_read : (◌≡◌ {A = ℕ} 10000 10000) × (text "draft" ≡ text "draft")
wide_key_read =
    logical_step_key-injective 10000 10000 (text "draft") (text "draft") (omega arith) (omega arith)
      refl
