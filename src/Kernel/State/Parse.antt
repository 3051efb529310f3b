-- ===== src/Kernel/State/Parse.antt =====
-- crates/kernel/src/state.rs: `MachineState::parse`, the stored names of the states.
use masonwing.Prelude.{
  String, Text, text, text_eq, ◌&&◌, List, [], ◌∷◌, Result, ok, err, if◌then◌else◌,
}
use masonwing.Kernel.State.Machines.{
  PluginState, RunState, ApprovalState, EffectState, CostState, MachineState, plugin, run, approval,
  effect, cost,
}

pub data StateError : Type 0 where
  illegal_transition : StateError
  unknown_state : (machine state : Text) → StateError

-- One arm of the `match`: a pair of names and the state that it stands for.
pub record Arm : Type 0 where
  pub machine : Text
  pub state : Text
  pub value : MachineState

abbrev arm : String → String → MachineState → Arm
arm m s v = record { machine = text m; state = text s; value = v }

-- The arms in the order of the source.
abbrev pub arms : List Arm
arms =
    arm "plugin" "DISCOVERED" (plugin PluginState.discovered)
    ∷ arm "plugin" "VERIFIED" (plugin PluginState.verified)
    ∷ arm "plugin" "RESOLVED" (plugin PluginState.resolved)
    ∷ arm "plugin" "STAGED" (plugin PluginState.staged)
    ∷ arm "plugin" "INSTALLED_DISABLED" (plugin PluginState.installed_disabled)
    ∷ arm "plugin" "ENABLED" (plugin PluginState.enabled)
    ∷ arm "plugin" "DRAINING" (plugin PluginState.draining)
    ∷ arm "plugin" "DISABLED" (plugin PluginState.disabled)
    ∷ arm "plugin" "UNINSTALLED" (plugin PluginState.uninstalled)
    ∷ arm "plugin" "QUARANTINED" (plugin PluginState.quarantined)
    ∷ arm "plugin" "REVOKED" (plugin PluginState.revoked)
    ∷ arm "run" "QUEUED" (run RunState.queued)
    ∷ arm "run" "RUNNING" (run RunState.running)
    ∷ arm "run" "WAITING_APPROVAL" (run RunState.waiting_approval)
    ∷ arm "run" "WAITING_RETRY" (run RunState.waiting_retry)
    ∷ arm "run" "BLOCKED" (run RunState.blocked)
    ∷ arm "run" "CANCEL_REQUESTED" (run RunState.cancel_requested)
    ∷ arm "run" "SUCCEEDED" (run RunState.succeeded)
    ∷ arm "run" "FAILED" (run RunState.failed)
    ∷ arm "run" "CANCELLED" (run RunState.cancelled)
    ∷ arm "approval" "PENDING" (approval ApprovalState.pending)
    ∷ arm "approval" "APPROVED" (approval ApprovalState.approved)
    ∷ arm "approval" "REJECTED" (approval ApprovalState.rejected)
    ∷ arm "approval" "CANCELLED" (approval ApprovalState.cancelled)
    ∷ arm "approval" "EXPIRED" (approval ApprovalState.expired)
    ∷ arm "approval" "STALE" (approval ApprovalState.stale)
    ∷ arm "effect" "PREPARED" (effect EffectState.prepared)
    ∷ arm "effect" "WAITING_APPROVAL" (effect EffectState.waiting_approval)
    ∷ arm "effect" "AUTHORIZED" (effect EffectState.authorized)
    ∷ arm "effect" "EXECUTING" (effect EffectState.executing)
    ∷ arm "effect" "SUCCEEDED" (effect EffectState.succeeded)
    ∷ arm "effect" "FAILED_CONFIRMED" (effect EffectState.failed_confirmed)
    ∷ arm "effect" "OUTCOME_UNKNOWN" (effect EffectState.outcome_unknown)
    ∷ arm "effect" "RECONCILING" (effect EffectState.reconciling)
    ∷ arm "effect" "MANUAL_REVIEW" (effect EffectState.manual_review)
    ∷ arm "effect" "CANCELLED" (effect EffectState.cancelled)
    ∷ arm "cost" "RESERVED" (cost CostState.reserved)
    ∷ arm "cost" "SETTLED" (cost CostState.settled)
    ∷ arm "cost" "UNKNOWN" (cost CostState.unknown)
    ∷ arm "cost" "RELEASED" (cost CostState.released)
    ∷ []

-- The first arm that matches; past the last arm, `Err(UnknownState)`.
unfoldable pub first_arm : List Arm → Text → Text → Result MachineState StateError
unfolding text_eq
first_arm [] machine state = err (unknown_state machine state)
first_arm (a ∷ rest) machine state =
    if text_eq machine a.machine && text_eq state a.state
    then ok a.value
    else first_arm rest machine state

unfoldable pub parse : Text → Text → Result MachineState StateError
unfolding first_arm
parse machine state = first_arm arms machine state
