-- ===== src/Worker/Resume/Drive.antt =====
-- A worker that executes what the interpreter says and records each success
-- (crates/worker/src/run_interpreter.rs, crates/worker/src/run_resume.rs).
use masonwing.Prelude.{
  ℕ, zero, suc, ◌+◌, ◌^◌, ◌≤◌, ◌<◌, ◌≡◌, refl, sym, ap, subst, ◌∙◌, inl, inr, false, List, [], ◌∷◌,
  arith, length, contains, Bool-cases, Text, text_eq, text_eq_iff,
}
use masonwing.Contracts.Wire.{WorkflowDefinition}
use masonwing.Worker.StepKeys.{logical_step_key}
use masonwing.Worker.StepKeys.Laws.{logical_step_key-injective}
use masonwing.Worker.Interpreter.{StepDecision, execute, RunInterpreter, next_step}
use masonwing.Worker.Interpreter.Justified.{DoneBelow}
use masonwing.Worker.Interpreter.Progress.{
  record_success, definition-record_success, execute_advances,
}
use masonwing.Worker.Resume.{dispatches}

-- The keys of the executed steps, and the interpreter at the end. A decision that dispatches nothing
-- ends the loop.
pub drive : ℕ → RunInterpreter → List Text × RunInterpreter
drive zero r = ([], r)
drive (suc fuel) r = elim (next_step r) [
  | execute key node_id ↦
      let (keys, last) = drive fuel (record_success r key node_id) in (key ∷ keys, last)
  | _ ↦ ([], r)
]

drive_execute :
    (fuel : ℕ) (r : RunInterpreter) (key node_id : Text)
    → next_step r ≡ execute key node_id
    → drive (suc fuel) r
      ≡ (let rest = drive fuel (record_success r key node_id) in (key ∷ rest.0, rest.1))
unfolding drive
drive_execute fuel r key node_id e = ground arith

drive_stops :
    (fuel : ℕ) (r : RunInterpreter)
    → dispatches (next_step r) ≡ false
    → drive (suc fuel) r ≡ ([], r)
unfolding drive
drive_stops fuel r e = ground arith

-- The keys are of steps whose numbers rise from `first` and stay within the budget.
abbrev Rising : ℕ → ℕ → List Text → Type 0
Rising last first [] = Unit
Rising last first (key ∷ rest) =
    (seq : ℕ) × (node_id : Text) × (first ≤ seq)
    × (seq ≤ last)
    × (key ≡ logical_step_key seq node_id)
    × Rising last (suc seq) rest

-- No key stands in the list twice.
abbrev pub IsDistinct : List Text → Type 0
IsDistinct [] = Unit
IsDistinct (key ∷ rest) = (contains rest key ≡ false) × IsDistinct rest

Rising-length :
    (last first : ℕ) (keys : List Text)
    → Rising last first keys
    → first ≤ suc last
    → first + length keys ≤ suc last
Rising-length last first [] h b = omega arith
Rising-length last first (key ∷ rest) (seq, node_id, low, high, e, more) b =
    omega (arith, Rising-length last (suc seq) rest more (omega arith))

Rising-fresh :
    (last first seq : ℕ) (keys : List Text) (node_id : Text)
    → last < 2 ^ 32
    → seq ≤ last
    → seq < first
    → Rising last first keys
    → contains keys (logical_step_key seq node_id) ≡ false
unfolding contains
Rising-fresh last first seq [] node_id small k below h = refl
Rising-fresh last first seq (key ∷ rest) node_id small k below (at, id, low, high, e, more) =
    elim (Bool-cases (text_eq key (logical_step_key seq node_id))) [
      | inl same ↦ absurd (
          omega (
            arith,
            (logical_step_key-injective at seq id node_id (omega arith) (omega arith)
                (sym e ∙ (text_eq_iff _ _).0 same)).0,
          ))
      | inr other ↦
          rw other (Rising-fresh last (suc at) seq rest node_id small k (omega arith) more)
    ]

Rising-IsDistinct :
    (last first : ℕ) (keys : List Text) → last < 2 ^ 32 → Rising last first keys → IsDistinct keys
Rising-IsDistinct last first [] small h = tt
Rising-IsDistinct last first (key ∷ rest) small (seq, id, low, high, e, more) = (
  rw e (Rising-fresh last (suc seq) seq rest id small high (omega arith) more),
  Rising-IsDistinct last (suc seq) rest small more,
)

abbrev Ends : ℕ → ℕ → List Text × RunInterpreter → Type 0
Ends last first (keys, r) = (dispatches (next_step r) ≡ false) × Rising last first keys

Ends-cons :
    (last first seq : ℕ) (key node_id : Text)
    → first ≤ seq
    → seq ≤ last
    → key ≡ logical_step_key seq node_id
    → (rest : List Text × RunInterpreter) → Ends last (suc seq) rest
    → Ends last first (key ∷ rest.0, rest.1)
Ends-cons last first seq key node_id low high e (keys, r) h =
    (h.0, (seq, node_id, low, high, e, h.1))

module _ (last : ℕ) (small : last < 2 ^ 32) where
  drive_from :
      (fuel : ℕ) (r : RunInterpreter) (first : ℕ)
      → r.definition.max_total_steps ≡ last
      → first ≤ suc last
      → suc last < first + fuel
      → DoneBelow r first
      → Ends last first (drive fuel r)
  drive_from zero r first budget low room done = absurd (omega arith)
  drive_from (suc fuel) r first budget low room done = decided (next_step r) refl (λ key node_id e.
      let (seq, ahead, within, key_is, done') =
        execute_advances r first key node_id (omega arith) done e in
      subst (Ends last first) (sym (drive_execute fuel r key node_id e)) (
        Ends-cons last first seq key node_id ahead (omega arith) key_is
          (drive fuel (record_success r key node_id))
          (drive_from fuel (record_success r key node_id) (suc seq)
            (ap (λ (w : WorkflowDefinition). w.max_total_steps)
                (definition-record_success r key node_id)
              ∙ budget)
            (omega arith) (omega arith) done')))
    where
      decided :
          (decision : StepDecision)
          → next_step r ≡ decision
          → ((key node_id : Text)
              → next_step r ≡ execute key node_id
              → Ends last first (drive (suc fuel) r))
          → Ends last first (drive (suc fuel) r)
      decided (execute key node_id) e later = later key node_id e
      decided _ e later = rw (drive_stops fuel r (rw e)) (rw e, tt)

-- With a budget that a u32 holds, a worker that executes and records as it is told ends with a decision that dispatches nothing,
-- after at most as many executions as the budget has steps, and executes no step twice.
pub drive_ends :
    (r : RunInterpreter)
    → r.definition.max_total_steps < 2 ^ 32
    → let (keys, last) = drive (suc r.definition.max_total_steps) r in
      (dispatches (next_step last) ≡ false)
      × (length keys ≤ r.definition.max_total_steps)
      × IsDistinct keys
drive_ends r small =
    let budget = r.definition.max_total_steps in
    let (ends, rising) =
      drive_from budget small (suc budget) r 1 refl (omega arith) (omega arith)
        (λ i low high. absurd (omega arith)) in
    (
      ends,
      omega (arith, Rising-length budget 1 _ rising (omega arith)),
      Rising-IsDistinct budget 1 _ small rising,
    )
