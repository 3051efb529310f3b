-- ===== src/Registration/Workflows/Runs.antt =====
-- Runs of a validated definition
-- (platform-plugins/data-postgres/src/registry_validation.rs, crates/worker/src/run_interpreter.rs).
use masonwing.Prelude.{◌-◌, ◌≡◌, subst, inl, inr, Bool, Option, List, ok, Text}
use masonwing.Contracts.Wire.{WorkflowDefinition, PluginManifest}
use masonwing.Worker.Interpreter.{node_at, unsupported, next_step, unmodeled_branch_edge}
use masonwing.Worker.Interpreter.Justified.{At}
use masonwing.Worker.Interpreter.Decisions.{next_step_lem}
use masonwing.Worker.Resume.{DurableCheckpoint, interpreter_from_checkpoints}
use masonwing.Registration.Workflows.{validate_workflow}
use masonwing.Registration.Workflows.Laws.{walk_stop, validate_workflow-IsChecked}

module _ (catalog_valid : Bool) (schema_valid : WorkflowDefinition → Bool)
    (content_digest : WorkflowDefinition → Option Text) where
  -- Once a definition has passed the validation, the traversal of a run of it never names a node
  -- that is not declared: whatever checkpoints are recorded, the one reason for which the next step
  -- is unsupported is an edge on another condition.
  pub validate_workflow-next_step :
      (d : WorkflowDefinition) (manifest : PluginManifest) (rows : List DurableCheckpoint)
      (node_id reason : Text)
      → validate_workflow catalog_valid schema_valid content_digest d manifest ≡ ok tt
      → next_step (interpreter_from_checkpoints d rows) ≡ unsupported node_id reason
      → reason ≡ unmodeled_branch_edge
  unfolding interpreter_from_checkpoints node_at
  validate_workflow-next_step d manifest rows node_id reason valid h =
      let c =
        validate_workflow-IsChecked catalog_valid schema_valid content_digest d manifest valid in
      elim (next_step_lem (interpreter_from_checkpoints d rows)) [
        | inl (seq, low, high, below, grounds) ↦
            walk_stop d c (seq - 1) d.entry_node reason node_id c.entry
              (subst (At (interpreter_from_checkpoints d rows) seq) h grounds)
        | inr (limit, _) ↦ absurd (cc (h, limit))
      ]
