-- ===== src/Kernel/State/Machines.antt =====
-- crates/kernel/src/state.rs: the lifecycle states and the edges of their state machines.
use masonwing.Prelude.{Bool, true, false}

pub data PluginState : Type 0 where
  discovered verified resolved staged installed_disabled enabled draining disabled uninstalled
        quarantined revoked :
      PluginState

pub data RunState : Type 0 where
  queued running waiting_approval waiting_retry blocked cancel_requested succeeded failed
        cancelled :
      RunState

pub data ApprovalState : Type 0 where
  pending approved rejected cancelled expired stale : ApprovalState

pub data EffectState : Type 0 where
  prepared waiting_approval authorized executing succeeded failed_confirmed outcome_unknown
        reconciling manual_review cancelled :
      EffectState

pub data CostState : Type 0 where
  reserved settled unknown released : CostState

pub data MachineState : Type 0 where
  plugin : PluginState → MachineState
  run : RunState → MachineState
  approval : ApprovalState → MachineState
  effect : EffectState → MachineState
  cost : CostState → MachineState

unfoldable pub plugin_edge : PluginState → PluginState → Bool
plugin_edge PluginState.discovered PluginState.verified = true
plugin_edge PluginState.verified PluginState.resolved = true
plugin_edge PluginState.resolved PluginState.staged = true
plugin_edge PluginState.staged PluginState.installed_disabled = true
plugin_edge PluginState.installed_disabled PluginState.enabled = true
plugin_edge PluginState.enabled PluginState.draining = true
plugin_edge PluginState.draining PluginState.disabled = true
plugin_edge PluginState.disabled PluginState.enabled = true
plugin_edge PluginState.disabled PluginState.uninstalled = true
plugin_edge PluginState.installed_disabled PluginState.uninstalled = true
plugin_edge PluginState.discovered PluginState.quarantined = true
plugin_edge PluginState.verified PluginState.quarantined = true
plugin_edge PluginState.staged PluginState.quarantined = true
plugin_edge PluginState.enabled PluginState.revoked = true
plugin_edge PluginState.draining PluginState.revoked = true
plugin_edge PluginState.disabled PluginState.revoked = true
plugin_edge PluginState.installed_disabled PluginState.revoked = true
plugin_edge _ _ = false

unfoldable pub run_edge : RunState → RunState → Bool
run_edge RunState.queued RunState.running = true
run_edge RunState.running RunState.waiting_approval = true
run_edge RunState.waiting_approval RunState.running = true
run_edge RunState.running RunState.waiting_retry = true
run_edge RunState.waiting_retry RunState.running = true
run_edge RunState.running RunState.blocked = true
run_edge RunState.blocked RunState.running = true
run_edge RunState.running RunState.succeeded = true
run_edge RunState.running RunState.failed = true
run_edge RunState.queued RunState.cancelled = true
run_edge RunState.waiting_approval RunState.cancelled = true
run_edge RunState.waiting_retry RunState.cancelled = true
run_edge RunState.blocked RunState.cancelled = true
run_edge RunState.running RunState.cancel_requested = true
run_edge RunState.cancel_requested RunState.cancelled = true
run_edge RunState.cancel_requested RunState.succeeded = true
run_edge _ _ = false

unfoldable pub approval_edge : ApprovalState → ApprovalState → Bool
approval_edge ApprovalState.pending ApprovalState.approved = true
approval_edge ApprovalState.pending ApprovalState.rejected = true
approval_edge ApprovalState.pending ApprovalState.cancelled = true
approval_edge ApprovalState.pending ApprovalState.expired = true
approval_edge ApprovalState.pending ApprovalState.stale = true
approval_edge ApprovalState.approved ApprovalState.stale = true
approval_edge ApprovalState.approved ApprovalState.expired = true
approval_edge ApprovalState.approved ApprovalState.cancelled = true
approval_edge _ _ = false

unfoldable pub effect_edge : EffectState → EffectState → Bool
effect_edge EffectState.prepared EffectState.waiting_approval = true
effect_edge EffectState.prepared EffectState.authorized = true
effect_edge EffectState.waiting_approval EffectState.authorized = true
effect_edge EffectState.authorized EffectState.executing = true
effect_edge EffectState.executing EffectState.succeeded = true
effect_edge EffectState.executing EffectState.failed_confirmed = true
effect_edge EffectState.executing EffectState.outcome_unknown = true
effect_edge EffectState.outcome_unknown EffectState.reconciling = true
effect_edge EffectState.reconciling EffectState.succeeded = true
effect_edge EffectState.reconciling EffectState.failed_confirmed = true
effect_edge EffectState.reconciling EffectState.authorized = true
effect_edge EffectState.reconciling EffectState.manual_review = true
effect_edge EffectState.manual_review EffectState.reconciling = true
effect_edge EffectState.prepared EffectState.cancelled = true
effect_edge EffectState.waiting_approval EffectState.cancelled = true
effect_edge EffectState.authorized EffectState.cancelled = true
effect_edge _ _ = false

unfoldable pub cost_edge : CostState → CostState → Bool
cost_edge CostState.reserved CostState.settled = true
cost_edge CostState.reserved CostState.unknown = true
cost_edge CostState.reserved CostState.released = true
cost_edge CostState.unknown CostState.settled = true
cost_edge CostState.unknown CostState.released = true
cost_edge _ _ = false

unfoldable pub can_transition_to : MachineState → MachineState → Bool
unfolding plugin_edge run_edge approval_edge effect_edge cost_edge
can_transition_to (plugin from) (plugin to) = plugin_edge from to
can_transition_to (run from) (run to) = run_edge from to
can_transition_to (approval from) (approval to) = approval_edge from to
can_transition_to (effect from) (effect to) = effect_edge from to
can_transition_to (cost from) (cost to) = cost_edge from to
can_transition_to _ _ = false
