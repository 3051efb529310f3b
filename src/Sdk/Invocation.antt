-- ===== src/Sdk/Invocation.antt =====
-- crates/sdk/src/lib.rs: invocation contexts, inputs and results, and what `validate_invocation` and
-- `validate_output` test of them.
pub mod Laws
use masonwing.Prelude.{
  ℕ, zero, suc, ◌+◌, ◌-◌, ◌*◌, ◌/◌, ◌%◌, ◌^◌, ◌≤◌, ◌<◌, String, ◌≡◌, refl, sym, ap, ap₂, subst, ◌∙◌,
  ◌≢◌, ◌↔◌, ◌⊎◌, inl, inr, Bool, true, false, not, ◌&&◌, ◌||◌, Option, none, some, List, [], ◌∷◌,
  ◌++◌, map, append_assoc, append-nil, arith, ℕ_discrete, dec_le, ℤ, pos, negsuc, pos_part,
  neg_part, ltb_ℤ, leb_ℤ, ◌≤ℤ◌, ◌<ℤ◌, eq_ℤ, suc_ℤ, suc_ℤ_parts, eq_ℤ_iff, length, drop,
  length-append, All, Any, map_insert, map_get, map_get-insert, Result, ok, err, ◌>>=◌, ◌>>◌, guard,
  ok_or, contains, is_subset, contains_subset, is_subset_iff, contains-append, contains-singleton,
  is_subset_mono, contains-head, contains-tail, ltb, leb, ◌==◌, if◌then◌else◌, ==_iff, Bool-cases,
  Option-cases, Text, text, text_eq, text_eq_iff, text_eq_refl,
}
use masonwing.Contracts.Wire.{ArtifactRef, artifact_eq}
use masonwing.Sdk.Errors.{
  SdkError, invalid_invocation, plugin_identity_mismatch, unsupported_operation,
  input_schema_mismatch, output_schema_mismatch, not_implemented,
}
use masonwing.Sdk.Versions.{ensure_contract_compatible}

pub record PluginDescriptor : Type 0 where
  pub id : Text
  pub contract_version : Text
  pub feature_namespaces : List Text
  pub operations : List Text
  pub trace_ids : List Text

pub record InvocationContext : Type 0 where
  pub invocation_id : Text
  pub tenant_id : Text
  pub plugin_id : Text
  pub handler_id : Text
  pub grant_id : Text
  pub contract_version : Text
  pub input_schema_ref : ArtifactRef
  pub output_schema_ref : ArtifactRef
  pub granted_capabilities : List Text

-- `InvocationContext::new`, whose arguments are the fields of the context.
unfoldable pub new_context : InvocationContext → Result InvocationContext SdkError
unfolding ensure_contract_compatible text_eq
new_context c =
    guard (not (length c.handler_id == 0 || ltb 128 (length c.handler_id)))
      (invalid_invocation (text "handler_id"))
    >> ensure_contract_compatible c.contract_version
    >> guard
        (text_eq c.input_schema_ref.tenant_id c.tenant_id
          && text_eq c.output_schema_ref.tenant_id c.tenant_id)
        (invalid_invocation (text "schema_tenant"))
    >> ok c

unfoldable pub allows : InvocationContext → Text → Bool
unfolding contains
allows c action = contains c.granted_capabilities action

pub record InvocationInput : Type 0 where
  pub schema_ref : ArtifactRef
  pub bytes : List ℕ

pub record InvocationOutput : Type 0 where
  pub schema_ref : ArtifactRef
  pub bytes : List ℕ

pub record InvocationResult : Type 0 where
  pub output : InvocationOutput
  pub proposed_effects : List Text

unfoldable pub validate_invocation :
    PluginDescriptor → InvocationContext → InvocationInput → Result (Unit {0}) SdkError
unfolding ensure_contract_compatible text_eq contains artifact_eq
validate_invocation descriptor c input =
    ensure_contract_compatible descriptor.contract_version
    >> guard (text_eq descriptor.id c.plugin_id) plugin_identity_mismatch
    >> guard (contains descriptor.operations c.handler_id) (unsupported_operation c.handler_id)
    >> guard (artifact_eq input.schema_ref c.input_schema_ref) input_schema_mismatch

unfoldable pub for_context : InvocationContext → List ℕ → InvocationOutput
for_context c bytes = record { schema_ref = c.output_schema_ref; bytes = bytes }

unfoldable pub pure : InvocationContext → List ℕ → InvocationResult
unfolding for_context
pure c bytes = record { output = for_context c bytes; proposed_effects = [] }

unfoldable pub validate_output : InvocationResult → InvocationContext → Result (Unit {0}) SdkError
unfolding artifact_eq
validate_output r c =
    guard (artifact_eq r.output.schema_ref c.output_schema_ref) output_schema_mismatch

-- The default `invoke` of a plugin, which only validates.
unfoldable pub invoke :
    PluginDescriptor → InvocationContext → InvocationInput → Result InvocationResult SdkError
unfolding validate_invocation
invoke descriptor c input =
    validate_invocation descriptor c input
    >> err (not_implemented c.handler_id descriptor.trace_ids)

unfoldable pub invoke_scaffold : PluginDescriptor → Text → Result (Unit {0}) SdkError
unfolding contains
invoke_scaffold descriptor operation =
    guard (contains descriptor.operations operation) (unsupported_operation operation)
    >> err (not_implemented operation descriptor.trace_ids)
