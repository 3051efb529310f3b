-- ===== src/Contracts/Wire.antt =====
-- crates/contracts/src/wire.rs: the records of the application boundary that the model uses. An
-- identifier or a digest is its text.
use masonwing.Prelude.{
  ℤ, ℕ, ◌≡◌, ◌↔◌, Bool, true, false, ◌&&◌, Option, List, arith, Text, text_eq, text_eq_iff,
}

pub data Classification : Type 0 where
  public internal confidential restricted : Classification

pub record ResourceRef : Type 0 where
  pub resource_type : Text
  pub resource_id : Text
  pub version : ℤ

pub record ArtifactRef : Type 0 where
  pub artifact_id : Text
  pub tenant_id : Text
  pub digest : Text
  pub schema_version : Text
  pub classification : Classification

pub record WorkflowNode : Type 0 where
  pub id : Text
  pub kind : Text
  pub handler_id : Option Text
  pub input_schema_ref : ArtifactRef
  pub output_schema_ref : ArtifactRef
  pub max_attempts : ℕ
  pub timeout_seconds : ℕ
  pub max_iterations : ℕ
  pub on_failure : Text

pub record WorkflowEdge : Type 0 where
  pub from : Text
  pub to : Text
  pub condition : Text

-- The counters are u32.
pub record WorkflowDefinition : Type 0 where
  pub id : Text
  pub version : Text
  pub input_schema_ref : ArtifactRef
  pub output_schema_ref : ArtifactRef
  pub entry_node : Text
  pub nodes : List WorkflowNode
  pub edges : List WorkflowEdge
  pub max_total_steps : ℕ
  pub max_model_turns : ℕ
  pub required_actions : List Text
  pub digest : Text

pub data ExecutionClass : Type 0 where
  trusted_native wasm_component remote_worker : ExecutionClass

pub record HandlerContract : Type 0 where
  pub id : Text
  pub input_schema_ref : ArtifactRef
  pub output_schema_ref : ArtifactRef
  pub effects : Text
  pub required_capabilities : List Text
  pub max_execution_seconds : ℕ

pub record PluginDependency : Type 0 where
  pub plugin_id : Text
  pub contract_range : Text
  pub optional : Bool

pub record UiContribution : Type 0 where
  pub id : Text
  pub slot : Text
  pub path : Text
  pub ui_contract_version : Text
  pub trust : Text
  pub required_action : Text

pub record PluginMigration : Type 0 where
  pub id : Text
  pub digest : Text
  pub compatibility : Text
  pub reversible : Bool

pub record ToolDescriptor : Type 0 where
  pub id : Text
  pub version : Text
  pub input_schema_ref : ArtifactRef
  pub output_schema_ref : ArtifactRef
  pub action : Text
  pub effect_class : Text
  pub connection_provider : Option Text
  pub trust : Text

pub record PluginManifest : Type 0 where
  pub id : Text
  pub version : Text
  pub contract_version : Text
  pub artifact_digest : Text
  pub publisher_id : Text
  pub execution_class : ExecutionClass
  pub requested_capabilities : List Text
  pub dependencies : List PluginDependency
  pub ui : List UiContribution
  pub migrations : List PluginMigration
  pub license_expression : Text
  pub sbom_digest : Text
  pub signature_ref : Text
  pub handlers : List HandlerContract
  pub workflows : List ArtifactRef
  pub data_contracts : List ArtifactRef
  pub tools : List ToolDescriptor

classification_eq : Classification → Classification → Bool
classification_eq public public = true
classification_eq internal internal = true
classification_eq confidential confidential = true
classification_eq restricted restricted = true
classification_eq _ _ = false

-- The derived `==`.
unfoldable pub artifact_eq : ArtifactRef → ArtifactRef → Bool
unfolding classification_eq text_eq
artifact_eq a b =
    text_eq a.artifact_id b.artifact_id
    && text_eq a.tenant_id b.tenant_id
    && text_eq a.digest b.digest
    && text_eq a.schema_version b.schema_version
    && classification_eq a.classification b.classification

classification_eq_iff : (a b : Classification) → (classification_eq a b ≡ true) ↔ (a ≡ b)
unfolding classification_eq
classification_eq_iff a b = ground arith

pub artifact_eq_iff : (a b : ArtifactRef) → (artifact_eq a b ≡ true) ↔ (a ≡ b)
unfolding artifact_eq
artifact_eq_iff a b = ground (
  arith,
  text_eq_iff a.artifact_id b.artifact_id,
  text_eq_iff a.tenant_id b.tenant_id,
  text_eq_iff a.digest b.digest,
  text_eq_iff a.schema_version b.schema_version,
  classification_eq_iff a.classification b.classification,
)
