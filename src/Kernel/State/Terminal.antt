-- ===== src/Kernel/State/Terminal.antt =====
-- The states that no transition leaves, and that every other state can still reach
-- (crates/kernel/src/state.rs).
use masonwing.Prelude.{
  ℕ, suc, ◌≤◌, Bool, true, false, List, [], ◌∷◌, length, inl, inr, Bool-cases, err, ◌≡◌, refl, ◌↔◌,
  arith,
}
use masonwing.Kernel.State.{VersionedState, transition, transition_all}
use masonwing.Kernel.State.Parse.{illegal_transition}
use masonwing.Kernel.State.Machines.{
  PluginState, RunState, ApprovalState, EffectState, CostState, MachineState, plugin, run, approval,
  effect, cost, can_transition_to,
}

-- The ends of the five lifecycles.
abbrev pub is_terminal : MachineState → Bool
is_terminal (plugin PluginState.uninstalled) = true
is_terminal (plugin PluginState.quarantined) = true
is_terminal (plugin PluginState.revoked) = true
is_terminal (run RunState.succeeded) = true
is_terminal (run RunState.failed) = true
is_terminal (run RunState.cancelled) = true
is_terminal (approval ApprovalState.rejected) = true
is_terminal (approval ApprovalState.cancelled) = true
is_terminal (approval ApprovalState.expired) = true
is_terminal (approval ApprovalState.stale) = true
is_terminal (effect EffectState.succeeded) = true
is_terminal (effect EffectState.failed_confirmed) = true
is_terminal (effect EffectState.cancelled) = true
is_terminal (cost CostState.settled) = true
is_terminal (cost CostState.released) = true
is_terminal _ = false

pub terminal_stays : (s t : MachineState) → is_terminal s ≡ true → can_transition_to s t ≡ false
unfolding can_transition_to
terminal_stays s t h = ground arith

-- One step towards the end of the lifecycle, from a state that is not terminal.
abbrev onward : MachineState → MachineState
onward (plugin PluginState.resolved) = plugin PluginState.staged
onward (plugin PluginState.discovered) = plugin PluginState.quarantined
onward (plugin PluginState.verified) = plugin PluginState.quarantined
onward (plugin PluginState.staged) = plugin PluginState.quarantined
onward (plugin _) = plugin PluginState.revoked
onward (run RunState.running) = run RunState.failed
onward (run _) = run RunState.cancelled
onward (approval _) = approval ApprovalState.expired
onward (effect EffectState.executing) = effect EffectState.succeeded
onward (effect EffectState.outcome_unknown) = effect EffectState.reconciling
onward (effect EffectState.reconciling) = effect EffectState.succeeded
onward (effect EffectState.manual_review) = effect EffectState.reconciling
onward (effect _) = effect EffectState.cancelled
onward (cost _) = cost CostState.released

onward_step : (s : MachineState) → is_terminal s ≡ false → can_transition_to s (onward s) ≡ true
unfolding can_transition_to
onward_step s h = ground arith

onward_ends : (s : MachineState) → is_terminal (onward (onward (onward s))) ≡ true
onward_ends s = ground arith

-- The terminal states are exactly those that no transition leaves.
pub terminal_iff_stuck :
    (s : MachineState)
    → (is_terminal s ≡ true) ↔ ((t : MachineState) → can_transition_to s t ≡ false)
terminal_iff_stuck s = (
  λ h t. terminal_stays s t h,
  λ stuck. elim (Bool-cases (is_terminal s)) [
    | inl done ↦ done
    | inr more ↦ cc (onward_step s more, stuck (onward s))
  ],
)

module _ (v : VersionedState) where
  transition_terminal :
      (t : MachineState) → is_terminal v.state ≡ true → transition v t ≡ (v, err illegal_transition)
  unfolding transition
  transition_terminal t h = rw (terminal_stays v.state t h)

  transition_open :
      is_terminal v.state ≡ false → (transition v (onward v.state)).0.state ≡ onward v.state
  unfolding transition
  transition_open h = rw (onward_step v.state h)

-- Once the state is terminal, no list of attempts changes the state or its version.
pub terminal_absorbs :
    (v : VersionedState) (targets : List MachineState)
    → is_terminal v.state ≡ true
    → transition_all v targets ≡ v
unfolding transition_all
terminal_absorbs v [] h = refl
terminal_absorbs v (t ∷ rest) h = rw (transition_terminal v t h) (terminal_absorbs v rest h)

-- Some list of at most `n` targets, each one accepted or refused, ends in a terminal state.
abbrev pub EndsWithin : ℕ → VersionedState → Type 0
EndsWithin n v =
    (targets : List MachineState) × (length targets ≤ n)
    × (is_terminal (transition_all v targets).state ≡ true)

ends_now : (n : ℕ) (v : VersionedState) → is_terminal v.state ≡ true → EndsWithin n v
unfolding transition_all
ends_now n v h = ([], omega arith, h)

ends_later :
    (n : ℕ) (v : VersionedState)
    → EndsWithin n (transition v (onward v.state)).0
    → EndsWithin (suc n) v
unfolding transition_all
ends_later n v (targets, short, ends) = (onward v.state ∷ targets, omega arith, ends)

ends_by :
    (n : ℕ) (v : VersionedState)
    → ((s : VersionedState) → s.state ≡ onward v.state → EndsWithin n s)
    → EndsWithin (suc n) v
ends_by n v later = elim (Bool-cases (is_terminal v.state)) [
  | inl done ↦ ends_now (suc n) v done
  | inr more ↦ ends_later n v (later (transition v (onward v.state)).0 (transition_open v more))
]

-- From every state at most three accepted transitions lead to a terminal one.
pub terminal_reachable : (v : VersionedState) → EndsWithin 3 v
terminal_reachable v = ends_by 2 v λ a ea.
    ends_by 1 a λ b eb. ends_by 0 b λ c ec. ends_now 0 c (rw (ec, eb, ea) (onward_ends v.state))
