-- ===== src/Sdk/Invocation/Laws.antt =====
-- What the tests of contexts and inputs guarantee together (crates/sdk/src/lib.rs).
use masonwing.Prelude.{◌≤◌, ◌≡◌, sym, ap, ◌∙◌, ◌↔◌, true, arith, length, ok, contains, text_eq_iff}
use masonwing.Contracts.Wire.{ArtifactRef, artifact_eq_iff}
use masonwing.Sdk.Versions.{ensure_contract_compatible}
use masonwing.Sdk.Invocation.{
  PluginDescriptor, InvocationContext, InvocationInput, new_context, validate_invocation,
}

-- What holds of an invocation that a handler is called with.
pub record IsAccepted (descriptor : PluginDescriptor) (c : InvocationContext)
    (input : InvocationInput) : Type 0 where
  pub plugin_compatible : ensure_contract_compatible descriptor.contract_version ≡ ok tt
  pub context_compatible : ensure_contract_compatible c.contract_version ≡ ok tt
  pub same_plugin : descriptor.id ≡ c.plugin_id
  pub declared : contains descriptor.operations c.handler_id ≡ true
  pub named : (1 ≤ length c.handler_id) × (length c.handler_id ≤ 128)
  pub input_schema : input.schema_ref ≡ c.input_schema_ref
  pub one_tenant :
      (input.schema_ref.tenant_id ≡ c.tenant_id) × (c.output_schema_ref.tenant_id ≡ c.tenant_id)

abbrev IsContext : InvocationContext → Type 0
IsContext c =
    ((1 ≤ length c.handler_id) × (length c.handler_id ≤ 128))
    × (ensure_contract_compatible c.contract_version ≡ ok tt)
    × (c.input_schema_ref.tenant_id ≡ c.tenant_id)
    × (c.output_schema_ref.tenant_id ≡ c.tenant_id)

new_context_lem : (c : InvocationContext) → (new_context c ≡ ok c) ↔ IsContext c
unfolding new_context
new_context_lem c = ground (
  arith,
  text_eq_iff c.input_schema_ref.tenant_id c.tenant_id,
  text_eq_iff c.output_schema_ref.tenant_id c.tenant_id,
)

abbrev IsValidFor : PluginDescriptor → InvocationContext → InvocationInput → Type 0
IsValidFor descriptor c input =
    (ensure_contract_compatible descriptor.contract_version ≡ ok tt)
    × (descriptor.id ≡ c.plugin_id)
    × (contains descriptor.operations c.handler_id ≡ true)
    × (input.schema_ref ≡ c.input_schema_ref)

validate_invocation_lem :
    (descriptor : PluginDescriptor) (c : InvocationContext) (input : InvocationInput)
    → (validate_invocation descriptor c input ≡ ok tt) ↔ IsValidFor descriptor c input
unfolding validate_invocation
validate_invocation_lem descriptor c input = ground (
  arith,
  text_eq_iff descriptor.id c.plugin_id,
  artifact_eq_iff input.schema_ref c.input_schema_ref,
)

-- A context can be made and an input passes its validation exactly when both contract versions are
-- compatible, the plugin is the one of the context and declares the handler, the handler's name has
-- 1 to 128 bytes, and the input has the context's schema, within one tenant.
pub validate_invocation-IsAccepted :
    (descriptor : PluginDescriptor) (c : InvocationContext) (input : InvocationInput)
    → ((new_context c ≡ ok c) × (validate_invocation descriptor c input ≡ ok tt))
      ↔ IsAccepted descriptor c input
validate_invocation-IsAccepted descriptor c input = (
  λ h.
      let (sized, fits, input_tenant, output_tenant) = (new_context_lem c).0 h.0 in
      let (compat, same, has, schema) = (validate_invocation_lem descriptor c input).0 h.1 in
      record {
        plugin_compatible = compat;
        context_compatible = fits;
        same_plugin = same;
        declared = has;
        named = sized;
        input_schema = schema;
        one_tenant = (rw schema input_tenant, output_tenant);
      },
  λ a. (
    (new_context_lem c).1 (
      a.named,
      a.context_compatible,
      ap (λ (r : ArtifactRef). r.tenant_id) (sym a.input_schema) ∙ a.one_tenant.0,
      a.one_tenant.1,
    ),
    (validate_invocation_lem descriptor c input).1
        (a.plugin_compatible, a.same_plugin, a.declared, a.input_schema),
  ),
)
