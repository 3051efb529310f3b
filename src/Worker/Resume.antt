-- ===== src/Worker/Resume.antt =====
-- crates/worker/src/run_resume.rs: the interpreter of a run from its durable checkpoint rows.
pub mod Laws
pub mod Drive
use masonwing.Prelude.{
  ℕ, zero, suc, ◌+◌, ◌-◌, ◌*◌, ◌/◌, ◌%◌, ◌^◌, ◌≤◌, ◌<◌, String, ◌≡◌, refl, sym, ap, ap₂, subst, ◌∙◌,
  ◌≢◌, ◌↔◌, ◌⊎◌, inl, inr, Bool, true, false, not, ◌&&◌, ◌||◌, Option, none, some, List, [], ◌∷◌,
  ◌++◌, map, append_assoc, append-nil, arith, ℕ_discrete, dec_le, ℤ, pos, negsuc, pos_part,
  neg_part, ltb_ℤ, leb_ℤ, ◌≤ℤ◌, ◌<ℤ◌, eq_ℤ, suc_ℤ, suc_ℤ_parts, eq_ℤ_iff, length, drop,
  length-append, map_insert, map_get, map_get-insert, Result, ok, err, ◌>>=◌, ◌>>◌, guard, ok_or,
  contains, is_subset, contains_subset, is_subset_iff, contains-append, contains-singleton,
  is_subset_mono, contains-head, contains-tail, ltb, leb, ◌==◌, if◌then◌else◌, ==_iff, Bool-cases,
  Option-cases, Text, text, text_eq, text_eq_iff, text_eq_refl,
}
use masonwing.Contracts.Wire.{WorkflowDefinition}
use masonwing.Worker.StepKeys.{node_id_from_logical_step_id}
use masonwing.Worker.Interpreter.{
  CheckpointRecord, RunInterpreter, StepDecision, execute, index, new,
}

-- The columns of a row that are read. `fence` is an i64.
pub record DurableCheckpoint : Type 0 where
  pub logical_step_id : Text
  pub state : Text
  pub failure_code : Option Text
  pub fence : ℤ

-- The record of a row, if its key names a node, in front of the others.
unfoldable pub keep :
    DurableCheckpoint → Option Text → List CheckpointRecord → List CheckpointRecord
keep row none rest = rest
keep row (some node_id) rest =
    record {
      logical_step_id = row.logical_step_id;
      node_id = node_id;
      state = row.state;
      failure_code = row.failure_code;
    }
    ∷ rest

-- The `filter_map`: a row whose key names no node is dropped.
unfoldable pub to_records : List DurableCheckpoint → List CheckpointRecord
unfolding keep node_id_from_logical_step_id
to_records [] = []
to_records (row ∷ rest) =
    keep row (node_id_from_logical_step_id row.logical_step_id) (to_records rest)

unfoldable pub interpreter_from_checkpoints :
    WorkflowDefinition → List DurableCheckpoint → RunInterpreter
unfolding to_records new
interpreter_from_checkpoints definition rows = new definition (to_records rows)

unfoldable pub checkpoint_fence : List DurableCheckpoint → Option ℤ
checkpoint_fence [] = none
checkpoint_fence (row ∷ _) = some row.fence

abbrev pub dispatches : StepDecision → Bool
dispatches (execute _ _) = true
dispatches _ = false
