-- ===== src/Kernel/Tests/State.antt =====
-- The state machines at concrete inputs.
use masonwing.Prelude.{
  ◌+◌, ◌%◌, ◌^◌, ◌≡◌, refl, ◌↔◌, true, false, List, [], ◌∷◌, arith, ok, err, text,
}
use masonwing.Kernel.State.Machines.{
  PluginState, RunState, EffectState, CostState, MachineState, run, cost, can_transition_to,
  plugin_edge, effect_edge,
}
use masonwing.Kernel.State.{VersionedState, new, transition, transition_all}
use masonwing.Kernel.State.Parse.{parse, unknown_state, illegal_transition}
use masonwing.Kernel.State.Names.{machine_name, Parses, parse-state_name, parse_lem}
use masonwing.Kernel.State.Terminal.{
  is_terminal, terminal_iff_stuck, terminal_absorbs, EndsWithin, terminal_reachable,
}
use masonwing.Kernel.State.Versions.{accepted, version_counts, machine_kept}
use masonwing.Kernel.State.Paths.{
  visits, is_verified, is_resolved, is_staged, is_installed_disabled, is_reconciling, is_authorized,
  enabled_after_chain, executing_after_reconciling,
}

retry_parsed : parse (text "run") (text "WAITING_RETRY") ≡ ok (run RunState.waiting_retry)
retry_parsed = parse-state_name (run RunState.waiting_retry)

parse_lem_example : Parses (text "run") (text "SETTLED") (parse (text "run") (text "SETTLED"))
parse_lem_example = parse_lem (text "run") (text "SETTLED")

parse_unknown :
    parse (text "run") (text "SETTLED") ≡ err (unknown_state (text "run") (text "SETTLED"))
unfolding parse
parse_unknown = refl

abbrev queued_run : VersionedState
queued_run = record { state = run RunState.queued; version = 1 }

abbrev attempts : List MachineState
attempts =
    run RunState.running ∷ run RunState.queued ∷ run RunState.succeeded ∷ run RunState.running ∷ []

-- The unit test `terminal_run_cannot_resume_and_version_does_not_change`.
terminal_run :
    transition (new (run RunState.succeeded)) (run RunState.running)
    ≡ (new (run RunState.succeeded), err illegal_transition)
unfolding transition new
terminal_run = refl

attempts_run :
    transition_all queued_run attempts ≡ record { state = run RunState.succeeded; version = 3 }
unfolding transition_all transition
attempts_run = refl

released_stuck :
    (is_terminal (cost CostState.released) ≡ true)
    ↔ ((t : MachineState) → can_transition_to (cost CostState.released) t ≡ false)
released_stuck = terminal_iff_stuck (cost CostState.released)

queued_run_absorbed :
    transition_all (record { state = run RunState.succeeded; version = 3 }) attempts
    ≡ record { state = run RunState.succeeded; version = 3 }
queued_run_absorbed =
    terminal_absorbs (record { state = run RunState.succeeded; version = 3 }) attempts refl

queued_run_ends : EndsWithin 3 queued_run
queued_run_ends = terminal_reachable queued_run

attempts_counted :
    (transition_all queued_run attempts).version
    ≡ (1 + accepted (run RunState.queued) attempts) % 2 ^ 64
attempts_counted = version_counts queued_run attempts (omega arith)

queued_run_kept : machine_name (transition_all queued_run attempts).state ≡ text "run"
queued_run_kept = machine_kept queued_run attempts

abbrev install_path : List PluginState
install_path =
    PluginState.verified ∷ PluginState.resolved ∷ PluginState.staged
    ∷ PluginState.installed_disabled ∷ PluginState.enabled ∷ []

enabled_run :
    (visits is_verified install_path ≡ true)
    × (visits is_resolved install_path ≡ true)
    × (visits is_staged install_path ≡ true)
    × (visits is_installed_disabled install_path ≡ true)
unfolding plugin_edge
enabled_run = enabled_after_chain install_path (refl, (refl, (refl, (refl, (refl, tt))))) refl

abbrev retry_path : List EffectState
retry_path = EffectState.reconciling ∷ EffectState.authorized ∷ EffectState.executing ∷ []

retried_effect :
    (visits is_reconciling retry_path ≡ true) × (visits is_authorized retry_path ≡ true)
unfolding effect_edge
retried_effect = executing_after_reconciling retry_path (refl, (refl, (refl, tt))) refl
