-- ===== src/Kernel/State/Paths.antt =====
-- Which states a path through a lifecycle visits (crates/kernel/src/state.rs).
use masonwing.Prelude.{
  Bool, true, false, ◌||◌, List, [], ◌∷◌, ◌≡◌, refl, inl, inr, Bool-cases, arith,
}
use masonwing.Kernel.State.Machines.{PluginState, EffectState, plugin_edge, effect_edge}

module _ {S : Type 0} (edge : S → S → Bool) where
  -- The list is a path of edges from `s`.
  abbrev pub IsTrace : S → List S → Type 0
  IsTrace s [] = Unit
  IsTrace s (t ∷ rest) = (edge s t ≡ true) × IsTrace t rest

abbrev pub visits : {S : Type 0} → (S → Bool) → List S → Bool
visits is_it [] = false
visits is_it (t ∷ rest) = is_it t || visits is_it rest

module _ {S : Type 0} (edge : S → S → Bool) (inside gate goal : S → Bool)
    (closed : (s t : S) → inside s ≡ true → edge s t ≡ true → (inside t || gate t) ≡ true)
    (outside : (s : S) → inside s ≡ true → goal s ≡ false) where
  -- Where edges leave a set of states through the gate alone, a path from the set to a goal
  -- outside of it visits the gate.
  gate_visited :
      (s : S) (trace : List S)
      → inside s ≡ true
      → IsTrace edge s trace
      → visits goal trace ≡ true
      → (visits gate trace ≡ true)
  gate_visited s [] h steps found = cc
  gate_visited s (t ∷ rest) h steps found = elim (Bool-cases (gate t)) [
    | inl at_gate ↦ rw at_gate
    | inr off ↦ ground (
      arith,
      closed s t h steps.0,
      outside t,
      λ (i : inside t ≡ true) (f : visits goal rest ≡ true). gate_visited t rest i steps.1 f,
    )
  ]

abbrev pub is_verified : PluginState → Bool
is_verified PluginState.verified = true
is_verified _ = false

abbrev pub is_resolved : PluginState → Bool
is_resolved PluginState.resolved = true
is_resolved _ = false

abbrev pub is_staged : PluginState → Bool
is_staged PluginState.staged = true
is_staged _ = false

abbrev pub is_installed_disabled : PluginState → Bool
is_installed_disabled PluginState.installed_disabled = true
is_installed_disabled _ = false

abbrev pub is_enabled : PluginState → Bool
is_enabled PluginState.enabled = true
is_enabled _ = false

abbrev before_verified : PluginState → Bool
before_verified PluginState.discovered = true
before_verified PluginState.quarantined = true
before_verified _ = false

abbrev before_resolved : PluginState → Bool
before_resolved PluginState.discovered = true
before_resolved PluginState.quarantined = true
before_resolved PluginState.verified = true
before_resolved _ = false

abbrev before_staged : PluginState → Bool
before_staged PluginState.discovered = true
before_staged PluginState.quarantined = true
before_staged PluginState.verified = true
before_staged PluginState.resolved = true
before_staged _ = false

abbrev before_installed_disabled : PluginState → Bool
before_installed_disabled PluginState.discovered = true
before_installed_disabled PluginState.quarantined = true
before_installed_disabled PluginState.verified = true
before_installed_disabled PluginState.resolved = true
before_installed_disabled PluginState.staged = true
before_installed_disabled _ = false

-- A path from discovery to an enabled plugin visits verification, resolution, staging and the
-- disabled installation.
pub enabled_after_chain :
    (trace : List PluginState)
    → IsTrace plugin_edge PluginState.discovered trace
    → visits is_enabled trace ≡ true
    → (visits is_verified trace ≡ true)
      × (visits is_resolved trace ≡ true)
      × (visits is_staged trace ≡ true)
      × (visits is_installed_disabled trace ≡ true)
unfolding plugin_edge
enabled_after_chain trace steps found = (
  gate_visited plugin_edge before_verified is_verified is_enabled (λ s t h e. ground arith)
      (λ s h. ground arith) PluginState.discovered trace refl steps found,
  gate_visited plugin_edge before_resolved is_resolved is_enabled (λ s t h e. ground arith)
      (λ s h. ground arith) PluginState.discovered trace refl steps found,
  gate_visited plugin_edge before_staged is_staged is_enabled (λ s t h e. ground arith)
      (λ s h. ground arith) PluginState.discovered trace refl steps found,
  gate_visited plugin_edge before_installed_disabled is_installed_disabled is_enabled
      (λ s t h e. ground arith) (λ s h. ground arith) PluginState.discovered trace refl steps found,
)

abbrev pub is_reconciling : EffectState → Bool
is_reconciling EffectState.reconciling = true
is_reconciling _ = false

abbrev pub is_authorized : EffectState → Bool
is_authorized EffectState.authorized = true
is_authorized _ = false

abbrev pub is_executing : EffectState → Bool
is_executing EffectState.executing = true
is_executing _ = false

abbrev before_reconciling : EffectState → Bool
before_reconciling EffectState.outcome_unknown = true
before_reconciling EffectState.succeeded = true
before_reconciling EffectState.failed_confirmed = true
before_reconciling EffectState.cancelled = true
before_reconciling _ = false

abbrev before_authorized : EffectState → Bool
before_authorized EffectState.outcome_unknown = true
before_authorized EffectState.reconciling = true
before_authorized EffectState.manual_review = true
before_authorized EffectState.succeeded = true
before_authorized EffectState.failed_confirmed = true
before_authorized EffectState.cancelled = true
before_authorized _ = false

-- A path from an unknown outcome to another execution visits reconciliation and a new
-- authorization.
pub executing_after_reconciling :
    (trace : List EffectState)
    → IsTrace effect_edge EffectState.outcome_unknown trace
    → visits is_executing trace ≡ true
    → (visits is_reconciling trace ≡ true) × (visits is_authorized trace ≡ true)
unfolding effect_edge
executing_after_reconciling trace steps found = (
  gate_visited effect_edge before_reconciling is_reconciling is_executing (λ s t h e. ground arith)
      (λ s h. ground arith) EffectState.outcome_unknown trace refl steps found,
  gate_visited effect_edge before_authorized is_authorized is_executing (λ s t h e. ground arith)
      (λ s h. ground arith) EffectState.outcome_unknown trace refl steps found,
)
