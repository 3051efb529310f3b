-- ===== src/Kernel/State/Versions.antt =====
-- What a list of attempted transitions does to the version and to the machine
-- (crates/kernel/src/state.rs).
use masonwing.Prelude.{
  ℕ, suc, ◌+◌, ◌%◌, ◌^◌, ◌<◌, true, false, List, [], ◌∷◌, if◌then◌else◌, ◌≡◌, refl, ◌∙◌, inl, inr,
  Bool-cases, arith,
}
use masonwing.Kernel.State.{VersionedState, transition, transition_all}
use masonwing.Kernel.State.Machines.{MachineState, can_transition_to}
use masonwing.Kernel.State.Names.{machine_name}

-- How many of the attempts follow an edge, each from the state that those before it leave.
abbrev pub accepted : MachineState → List MachineState → ℕ
accepted s [] = 0
accepted s (t ∷ rest) =
    let taken = suc (accepted t rest) in
    let skipped = accepted s rest in if can_transition_to s t then taken else skipped

wrap_add : (a b : ℕ) → ((a + 1) % 2 ^ 64 + b) % 2 ^ 64 ≡ (a + suc b) % 2 ^ 64
wrap_add a b = omega arith

module _ (v : VersionedState) (t : MachineState) where
  transition_accepts :
      can_transition_to v.state t ≡ true
      → (transition v t).0 ≡ record { state = t; version = (v.version + 1) % 2 ^ 64 }
  unfolding transition
  transition_accepts h = rw h

  transition_refuses : can_transition_to v.state t ≡ false → (transition v t).0 ≡ v
  unfolding transition
  transition_refuses h = rw h

-- From a version that a u64 holds, the version counts the accepted transitions, modulo the width of
-- a u64.
pub version_counts :
    (v : VersionedState) (targets : List MachineState)
    → v.version < 2 ^ 64
    → (transition_all v targets).version ≡ (v.version + accepted v.state targets) % 2 ^ 64
unfolding transition_all
version_counts v [] h = omega arith
version_counts v (t ∷ rest) h = elim (Bool-cases (can_transition_to v.state t)) [
  | inl edge ↦
      version_counts (transition v t).0 rest (rw (transition_accepts v t edge) (omega arith))
      ∙ rw (transition_accepts v t edge, edge) (wrap_add v.version (accepted t rest))
  | inr edge ↦
      version_counts (transition v t).0 rest (rw (transition_refuses v t edge) h)
      ∙ rw (transition_refuses v t edge, edge)
]

same_machine : (s t : MachineState) → can_transition_to s t ≡ true → machine_name t ≡ machine_name s
unfolding can_transition_to
same_machine s t h = ground arith

-- A state stays in the machine that it began in, whatever is attempted.
pub machine_kept :
    (v : VersionedState) (targets : List MachineState)
    → machine_name (transition_all v targets).state ≡ machine_name v.state
unfolding transition_all
machine_kept v [] = refl
machine_kept v (t ∷ rest) = elim (Bool-cases (can_transition_to v.state t)) [
  | inl edge ↦
      machine_kept (transition v t).0 rest
      ∙ rw (transition_accepts v t edge) (same_machine v.state t edge)
  | inr edge ↦ machine_kept (transition v t).0 rest ∙ rw (transition_refuses v t edge)
]
