-- ===== src/Worker/Resume/Laws.antt =====
-- The records of a resumed run (crates/worker/src/run_resume.rs).
use masonwing.Prelude.{
  ℕ, ◌≡◌, refl, sym, subst, ◌∙◌, ◌≢◌, inl, inr, Option, none, some, List, [], ◌∷◌, map_insert,
  map_get, map_get-insert, Bool-cases, Text, text_eq, text_eq_iff,
}
use masonwing.Contracts.Wire.{WorkflowDefinition}
use masonwing.Worker.StepKeys.{logical_step_key, node_id_from_logical_step_id}
use masonwing.Worker.StepKeys.Laws.{node_id-logical_step_key, node_id-logical_step_key_empty}
use masonwing.Worker.Interpreter.{
  CheckpointRecord, RunInterpreter, replay_incompatible, index, next_step,
}
use masonwing.Worker.Interpreter.Decisions.{IsJustified, next_step_lem}
use masonwing.Worker.Resume.{DurableCheckpoint, keep, to_records, interpreter_from_checkpoints}

-- The node of a record is the one that its key names.
abbrev Names : Text → CheckpointRecord → Type 0
Names key c = node_id_from_logical_step_id key ≡ some c.node_id

abbrev AllNamed : List CheckpointRecord → Type 0
AllNamed [] = Unit
AllNamed (c ∷ rest) = Names c.logical_step_id c × AllNamed rest

abbrev MapNamed : List (Text × CheckpointRecord) → Type 0
MapNamed m = (key : Text) (c : CheckpointRecord) → map_get key m ≡ some c → Names key c

keep-AllNamed :
    (row : DurableCheckpoint) (found : Option Text) (rest : List CheckpointRecord)
    → node_id_from_logical_step_id row.logical_step_id ≡ found
    → AllNamed rest
    → AllNamed (keep row found rest)
unfolding keep
keep-AllNamed row none rest e h = h
keep-AllNamed row (some node_id) rest e h = (e, h)

to_records-AllNamed : (rows : List DurableCheckpoint) → AllNamed (to_records rows)
unfolding to_records
to_records-AllNamed [] = tt
to_records-AllNamed (row ∷ rest) =
    keep-AllNamed row (node_id_from_logical_step_id row.logical_step_id) (to_records rest) refl
      (to_records-AllNamed rest)

insert-MapNamed :
    (m : List (Text × CheckpointRecord)) (c : CheckpointRecord)
    → Names c.logical_step_id c
    → MapNamed m
    → MapNamed (map_insert c.logical_step_id c m)
insert-MapNamed m c h all key c' e = elim (Bool-cases (text_eq c.logical_step_id key)) [
  | inl same ↦
      let found : some c ≡ some c' =
        sym (rw same at (map_get-insert c.logical_step_id key c m)) ∙ e in
      cc ((text_eq_iff c.logical_step_id key).0 same, found, h)
  | inr other ↦ all key c' (sym (rw other at (map_get-insert c.logical_step_id key c m)) ∙ e)
]

index-MapNamed :
    (cs : List CheckpointRecord) (m : List (Text × CheckpointRecord))
    → AllNamed cs
    → MapNamed m
    → MapNamed (index cs m)
unfolding index
index-MapNamed [] m h all = all
index-MapNamed (c ∷ rest) m h all =
    index-MapNamed rest (map_insert c.logical_step_id c m) h.1 (insert-MapNamed m c h.0 all)

resumed-MapNamed :
    (definition : WorkflowDefinition) (rows : List DurableCheckpoint)
    → MapNamed (interpreter_from_checkpoints definition rows).checkpoints
unfolding interpreter_from_checkpoints map_get
resumed-MapNamed definition rows =
    index-MapNamed (to_records rows) [] (to_records-AllNamed rows) (λ key c e. cc)

-- The node in a record of a step is the node of the step.
named_step :
    (seq : ℕ) (node_id : Text) (c : CheckpointRecord)
    → Names (logical_step_key seq node_id) c
    → c.node_id ≡ node_id
named_step seq [] c h = cc (node_id-logical_step_key_empty seq)
named_step seq (b ∷ s) c h =
    let named : node_id_from_logical_step_id (logical_step_key seq (b ∷ s)) ≡ some (b ∷ s) =
      node_id-logical_step_key seq (b ∷ s) (λ e. cc) in
    cc

-- A run that was resumed from rows is never quarantined: whatever the rows and the definition are,
-- the next decision is not that the history is incompatible.
pub resumed_never_incompatible :
    (definition : WorkflowDefinition) (rows : List DurableCheckpoint)
    → next_step (interpreter_from_checkpoints definition rows) ≢ replay_incompatible
resumed_never_incompatible definition rows e =
    refute (subst (IsJustified r r.definition.max_total_steps) e (next_step_lem r))
  where
    r : RunInterpreter
    r = interpreter_from_checkpoints definition rows

    refute : IsJustified r r.definition.max_total_steps replay_incompatible → ⊥
    refute (inl (seq, _, _, _, (node_id, c, reached, found, other))) = other (
        named_step seq node_id c
          (resumed-MapNamed definition rows (logical_step_key seq node_id) c found))
    refute (inr (limit, _)) = cc
