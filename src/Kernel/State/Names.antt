-- ===== src/Kernel/State/Names.antt =====
-- The stored names of the states as an independent table, and the round trip of `parse` with it
-- (crates/kernel/src/state.rs, `MachineState::parse`).
use masonwing.Prelude.{
  ◌≡◌, refl, ap₂, inl, inr, ◌&&◌, List, [], ◌∷◌, arith, Result, ok, err, Bool-cases, Text, text,
  text_eq, text_eq_iff,
}
use masonwing.Kernel.State.Machines.{
  PluginState, RunState, ApprovalState, EffectState, CostState, MachineState, plugin, run, approval,
  effect, cost,
}
use masonwing.Kernel.State.Parse.{StateError, unknown_state, Arm, arms, first_arm, parse}

abbrev plugin_name : PluginState → Text
plugin_name PluginState.discovered = text "DISCOVERED"
plugin_name PluginState.verified = text "VERIFIED"
plugin_name PluginState.resolved = text "RESOLVED"
plugin_name PluginState.staged = text "STAGED"
plugin_name PluginState.installed_disabled = text "INSTALLED_DISABLED"
plugin_name PluginState.enabled = text "ENABLED"
plugin_name PluginState.draining = text "DRAINING"
plugin_name PluginState.disabled = text "DISABLED"
plugin_name PluginState.uninstalled = text "UNINSTALLED"
plugin_name PluginState.quarantined = text "QUARANTINED"
plugin_name PluginState.revoked = text "REVOKED"

abbrev run_name : RunState → Text
run_name RunState.queued = text "QUEUED"
run_name RunState.running = text "RUNNING"
run_name RunState.waiting_approval = text "WAITING_APPROVAL"
run_name RunState.waiting_retry = text "WAITING_RETRY"
run_name RunState.blocked = text "BLOCKED"
run_name RunState.cancel_requested = text "CANCEL_REQUESTED"
run_name RunState.succeeded = text "SUCCEEDED"
run_name RunState.failed = text "FAILED"
run_name RunState.cancelled = text "CANCELLED"

abbrev approval_name : ApprovalState → Text
approval_name ApprovalState.pending = text "PENDING"
approval_name ApprovalState.approved = text "APPROVED"
approval_name ApprovalState.rejected = text "REJECTED"
approval_name ApprovalState.cancelled = text "CANCELLED"
approval_name ApprovalState.expired = text "EXPIRED"
approval_name ApprovalState.stale = text "STALE"

abbrev effect_name : EffectState → Text
effect_name EffectState.prepared = text "PREPARED"
effect_name EffectState.waiting_approval = text "WAITING_APPROVAL"
effect_name EffectState.authorized = text "AUTHORIZED"
effect_name EffectState.executing = text "EXECUTING"
effect_name EffectState.succeeded = text "SUCCEEDED"
effect_name EffectState.failed_confirmed = text "FAILED_CONFIRMED"
effect_name EffectState.outcome_unknown = text "OUTCOME_UNKNOWN"
effect_name EffectState.reconciling = text "RECONCILING"
effect_name EffectState.manual_review = text "MANUAL_REVIEW"
effect_name EffectState.cancelled = text "CANCELLED"

abbrev cost_name : CostState → Text
cost_name CostState.reserved = text "RESERVED"
cost_name CostState.settled = text "SETTLED"
cost_name CostState.unknown = text "UNKNOWN"
cost_name CostState.released = text "RELEASED"

abbrev pub machine_name : MachineState → Text
machine_name (plugin _) = text "plugin"
machine_name (run _) = text "run"
machine_name (approval _) = text "approval"
machine_name (effect _) = text "effect"
machine_name (cost _) = text "cost"

abbrev pub state_name : MachineState → Text
state_name (plugin s) = plugin_name s
state_name (run s) = run_name s
state_name (approval s) = approval_name s
state_name (effect s) = effect_name s
state_name (cost s) = cost_name s

parse-plugin_name : (s : PluginState) → parse (text "plugin") (plugin_name s) ≡ ok (plugin s)
unfolding parse
parse-plugin_name PluginState.discovered = refl
parse-plugin_name PluginState.verified = refl
parse-plugin_name PluginState.resolved = refl
parse-plugin_name PluginState.staged = refl
parse-plugin_name PluginState.installed_disabled = refl
parse-plugin_name PluginState.enabled = refl
parse-plugin_name PluginState.draining = refl
parse-plugin_name PluginState.disabled = refl
parse-plugin_name PluginState.uninstalled = refl
parse-plugin_name PluginState.quarantined = refl
parse-plugin_name PluginState.revoked = refl

parse-run_name : (s : RunState) → parse (text "run") (run_name s) ≡ ok (run s)
unfolding parse
parse-run_name RunState.queued = refl
parse-run_name RunState.running = refl
parse-run_name RunState.waiting_approval = refl
parse-run_name RunState.waiting_retry = refl
parse-run_name RunState.blocked = refl
parse-run_name RunState.cancel_requested = refl
parse-run_name RunState.succeeded = refl
parse-run_name RunState.failed = refl
parse-run_name RunState.cancelled = refl

parse-approval_name :
    (s : ApprovalState) → parse (text "approval") (approval_name s) ≡ ok (approval s)
unfolding parse
parse-approval_name ApprovalState.pending = refl
parse-approval_name ApprovalState.approved = refl
parse-approval_name ApprovalState.rejected = refl
parse-approval_name ApprovalState.cancelled = refl
parse-approval_name ApprovalState.expired = refl
parse-approval_name ApprovalState.stale = refl

parse-effect_name : (s : EffectState) → parse (text "effect") (effect_name s) ≡ ok (effect s)
unfolding parse
parse-effect_name EffectState.prepared = refl
parse-effect_name EffectState.waiting_approval = refl
parse-effect_name EffectState.authorized = refl
parse-effect_name EffectState.executing = refl
parse-effect_name EffectState.succeeded = refl
parse-effect_name EffectState.failed_confirmed = refl
parse-effect_name EffectState.outcome_unknown = refl
parse-effect_name EffectState.reconciling = refl
parse-effect_name EffectState.manual_review = refl
parse-effect_name EffectState.cancelled = refl

parse-cost_name : (s : CostState) → parse (text "cost") (cost_name s) ≡ ok (cost s)
unfolding parse
parse-cost_name CostState.reserved = refl
parse-cost_name CostState.settled = refl
parse-cost_name CostState.unknown = refl
parse-cost_name CostState.released = refl

-- Every state is parsed back from its own pair of names.
pub parse-state_name : (s : MachineState) → parse (machine_name s) (state_name s) ≡ ok s
parse-state_name (plugin s) = parse-plugin_name s
parse-state_name (run s) = parse-run_name s
parse-state_name (approval s) = parse-approval_name s
parse-state_name (effect s) = parse-effect_name s
parse-state_name (cost s) = parse-cost_name s

abbrev IsNamed : Arm → Type 0
IsNamed a = (a.machine ≡ machine_name a.value) × (a.state ≡ state_name a.value)

abbrev AllNamed : List Arm → Type 0
AllNamed [] = Unit
AllNamed (a ∷ rest) = IsNamed a × AllNamed rest

arms-AllNamed : AllNamed arms
arms-AllNamed = (
  (refl, refl),
  (
    (refl, refl),
    (
      (refl, refl),
      (
        (refl, refl),
        (
          (refl, refl),
          (
            (refl, refl),
            (
              (refl, refl),
              (
                (refl, refl),
                (
                  (refl, refl),
                  (
                    (refl, refl),
                    (
                      (refl, refl),
                      (
                        (refl, refl),
                        (
                          (refl, refl),
                          (
                            (refl, refl),
                            (
                              (refl, refl),
                              (
                                (refl, refl),
                                (
                                  (refl, refl),
                                  (
                                    (refl, refl),
                                    (
                                      (refl, refl),
                                      (
                                        (refl, refl),
                                        (
                                          (refl, refl),
                                          (
                                            (refl, refl),
                                            (
                                              (refl, refl),
                                              (
                                                (refl, refl),
                                                (
                                                  (refl, refl),
                                                  (
                                                    (refl, refl),
                                                    (
                                                      (refl, refl),
                                                      (
                                                        (refl, refl),
                                                        (
                                                          (refl, refl),
                                                          (
                                                            (refl, refl),
                                                            (
                                                            (refl, refl),
                                                            (
                                                            (refl, refl),
                                                            (
                                                            (refl, refl),
                                                            (
                                                            (refl, refl),
                                                            (
                                                            (refl, refl),
                                                            (
                                                            (refl, refl),
                                                            (
                                                            (refl, refl),
                                                            (
                                                            (refl, refl),
                                                            ((refl, refl), ((refl, refl), tt)),
                                                            ),
                                                            ),
                                                            ),
                                                            ),
                                                            ),
                                                            ),
                                                            ),
                                                            ),
                                                          ),
                                                        ),
                                                      ),
                                                    ),
                                                  ),
                                                ),
                                              ),
                                            ),
                                          ),
                                        ),
                                      ),
                                    ),
                                  ),
                                ),
                              ),
                            ),
                          ),
                        ),
                      ),
                    ),
                  ),
                ),
              ),
            ),
          ),
        ),
      ),
    ),
  ),
)

-- What a result of `parse` says of the names that were read.
abbrev pub Reads : Text → Text → Result MachineState StateError → Type 0
Reads machine state (ok s) = (machine ≡ machine_name s) × (state ≡ state_name s)
Reads machine state (err e) = e ≡ unknown_state machine state

first_arm-Reads :
    (table : List Arm) (machine state : Text)
    → AllNamed table
    → Reads machine state (first_arm table machine state)
unfolding first_arm
first_arm-Reads [] machine state named = refl
first_arm-Reads (a ∷ rest) machine state named =
    elim (Bool-cases (text_eq machine a.machine && text_eq state a.state)) [
      | inl hit ↦ rw hit (ground (arith, text_eq_iff machine a.machine, text_eq_iff state a.state))
      | inr miss ↦ rw miss (first_arm-Reads rest machine state named.1)
    ]

parse-Reads : (machine state : Text) → Reads machine state (parse machine state)
unfolding parse
parse-Reads machine state = first_arm-Reads arms machine state arms-AllNamed

-- A result of `parse` against the names of the states.
abbrev pub Parses : Text → Text → Result MachineState StateError → Type 0
Parses machine state (ok s) = (machine ≡ machine_name s) × (state ≡ state_name s)
Parses machine state (err e) =
    (e ≡ unknown_state machine state)
    × ((s : MachineState) → ¬ ((machine ≡ machine_name s) × (state ≡ state_name s)))

-- A state that is read has the two names that were given, and a pair of names is refused as unknown
-- only when it is the pair of no state.
pub parse_lem : (machine state : Text) → Parses machine state (parse machine state)
parse_lem machine state = judged (parse machine state) refl (parse-Reads machine state)
  where
    judged :
        (r : Result MachineState StateError)
        → parse machine state ≡ r
        → Reads machine state r
        → Parses machine state r
    judged (ok s) e h = h
    judged (err x) e h = (h, λ s named. cc (e, ap₂ parse named.0 named.1, parse-state_name s))
