-- ===== src/Kernel/State.antt =====
-- crates/kernel/src/state.rs: `VersionedState`, a machine state with an optimistic version.
pub mod Machines
pub mod Parse
pub mod Names
pub mod Paths
pub mod Versions
pub mod Terminal
use masonwing.Prelude.{
  ℕ, ◌+◌, ◌%◌, ◌^◌, Bool, true, false, List, [], ◌∷◌, Result, ok, err, if◌then◌else◌,
}
use Machines.{MachineState, can_transition_to}
use Parse.{StateError, illegal_transition}

-- `version` is a u64, whose `+= 1` wraps in a release build.
pub record VersionedState : Type 0 where
  pub state : MachineState
  pub version : ℕ

unfoldable pub new : MachineState → VersionedState
new s = record { state = s; version = 1 }

-- The state afterwards and the result of the call.
unfoldable pub transition :
    VersionedState → MachineState → VersionedState × Result (Unit {0}) StateError
unfolding can_transition_to
transition v target =
    if can_transition_to v.state target
    then (record { state = target; version = (v.version + 1) % 2 ^ 64 }, ok tt)
    else (v, err illegal_transition)

-- A caller that asks for one target after another and keeps what each call leaves.
unfoldable pub transition_all : VersionedState → List MachineState → VersionedState
transition_all v [] = v
transition_all v (target ∷ rest) = transition_all (transition v target).0 rest
