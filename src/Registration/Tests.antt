-- ===== src/Registration/Tests.antt =====
-- The checks of the registration at small manifests, workflows and locks.
use masonwing.Prelude.{
  ◌≡◌, refl, ◌≢◌, ◌↔◌, inl, inr, Bool, true, false, Option, none, some, List, [], ◌∷◌, pos, All,
  Any, map_get, ok, err, contains, Text, text,
}
use masonwing.Contracts.Wire.{
  ArtifactRef, Classification, ExecutionClass, HandlerContract, PluginDependency, UiContribution,
  PluginManifest, WorkflowNode, WorkflowEdge, WorkflowDefinition,
}
use masonwing.Contracts.Values.{try_from, validate_opaque_identifier, all_bytes}
use masonwing.Kernel.Registry.{resolve}
use masonwing.Worker.Interpreter.{unsupported, next_step, unmodeled_branch_edge}
use masonwing.Worker.Resume.{DurableCheckpoint, interpreter_from_checkpoints}
use masonwing.Registration.Failures.{
  dependency_cycle_found, dependency_missing, workflow_invalid, scope_denied, config_unsupported,
}
use masonwing.Registration.Dependencies.{Manifests, resolve_manifests}
use masonwing.Registration.Dependencies.Edges.{HasDistinctKeys}
use masonwing.Registration.Dependencies.Laws.{IsInstallable, resolve_manifests_lem}
use masonwing.Registration.Workflows.{validate_workflow}
use masonwing.Registration.Workflows.Runs.{validate_workflow-next_step}
use masonwing.Registration.Workflows.Loops.{IsBounded, validate_workflow-IsBounded}
use masonwing.Registration.Manifests.{validate_manifest}
use masonwing.Registration.Manifests.Laws.{IsAdmitted, validate_manifest-IsAdmitted}
use masonwing.Registration.Manifests.Namespaces.{validate_manifest-apart}
use masonwing.Registration.Locks.{PluginLock, validate_lock}
use masonwing.Registration.Locks.Laws.{IsClosed, validate_lock_iff}

abbrev schema : ArtifactRef
schema = record {
  artifact_id = text "a";
  tenant_id = text "t";
  digest = text "00";
  schema_version = text "1.0.0";
  classification = Classification.internal;
}

abbrev handler : HandlerContract
handler = record {
  id = text "h1";
  input_schema_ref = schema;
  output_schema_ref = schema;
  effects = text "DETERMINISTIC";
  required_capabilities = text "resource.read" ∷ [];
  max_execution_seconds = 60;
}

abbrev contribution : Text → UiContribution
contribution path = record {
  id = text "nav";
  slot = text "NAVIGATION";
  path = path;
  ui_contract_version = text "1.0.0";
  trust = text "DECLARATIVE";
  required_action = text "resource.read";
}

abbrev manifest : Text → List PluginDependency → List Text → List UiContribution → PluginManifest
manifest id dependencies requested ui = record {
  id = id;
  version = text "1.0.0";
  contract_version = text "1.0.0";
  artifact_digest = text "00";
  publisher_id = text "publisher";
  execution_class = ExecutionClass.wasm_component;
  requested_capabilities = requested;
  dependencies = dependencies;
  ui = ui;
  migrations = [];
  license_expression = text "MIT";
  sbom_digest = text "00";
  signature_ref = text "signature";
  handlers = handler ∷ [];
  workflows = schema ∷ [];
  data_contracts = [];
  tools = [];
}

abbrev needs : Text → List PluginDependency
needs id = record { plugin_id = id; contract_range = text "^1.0"; optional = false } ∷ []

abbrev read : List Text
read = text "resource.read" ∷ []

-- Readings of versions for the tests: a version is its text, and a range holds every version.
abbrev parse : Text → Option Text
parse s = some s

abbrev holds : Text → Text → Bool
holds range version = true

abbrev two : List PluginDependency → Manifests
two back =
    (text "a", manifest (text "a") (needs (text "b")) read [])
    ∷ (text "b", manifest (text "b") back read [])
    ∷ []

abbrev sorted : List Text
sorted = text "b" ∷ text "a" ∷ []

two-sorted : resolve_manifests parse parse holds (two []) ≡ ok sorted
unfolding resolve_manifests resolve
two-sorted = refl

two_cycle :
    resolve_manifests parse parse holds (two (needs (text "a"))) ≡ err dependency_cycle_found
unfolding resolve_manifests resolve
two_cycle = refl

two_missing : resolve_manifests parse parse holds (two (needs (text "c"))) ≡ err dependency_missing
unfolding resolve_manifests resolve
two_missing = refl

two-HasDistinctKeys : HasDistinctKeys (two [])
unfolding map_get
two-HasDistinctKeys = (refl, (refl, tt))

resolve_manifests_lem_example :
    IsInstallable parse parse holds (two []) [] sorted
    × ((id : Text) → (contains sorted id ≡ true) ↔ (map_get id (two []) ≢ none))
resolve_manifests_lem_example =
    resolve_manifests_lem parse parse holds (two []) sorted two-HasDistinctKeys two-sorted

abbrev node_of : Text → Text → Option Text → WorkflowNode
node_of id kind handler_id = record {
  id = id;
  kind = kind;
  handler_id = handler_id;
  input_schema_ref = schema;
  output_schema_ref = schema;
  max_attempts = 1;
  timeout_seconds = 30;
  max_iterations = 1;
  on_failure = text "FAIL";
}

abbrev edge : Text → Text → Text → WorkflowEdge
edge from to condition = record { from = from; to = to; condition = condition }

-- `draft` goes on to the node of the given kind, which leads back on failure.
abbrev workflow : Text → WorkflowDefinition
workflow kind = record {
  id = text "wf";
  version = text "1.0.0";
  input_schema_ref = schema;
  output_schema_ref = schema;
  entry_node = text "draft";
  nodes =
      node_of (text "draft") (text "ACTIVITY") (some (text "h1"))
      ∷ node_of (text "retry") kind none
      ∷ [];
  edges =
      edge (text "draft") (text "retry") (text "SUCCESS")
      ∷ edge (text "retry") (text "draft") (text "FAILURE")
      ∷ [];
  max_total_steps = 10;
  max_model_turns = 5;
  required_actions = read;
  digest = text "00";
}

abbrev loop : WorkflowDefinition
loop = workflow (text "BOUNDED_LOOP")

abbrev plugin : PluginManifest
plugin = manifest (text "a") [] read (contribution (text "/plugins/a/home") ∷ [])

abbrev any_schema : {A : Type 0} → A → Bool
any_schema d = true

abbrev own_digest : WorkflowDefinition → Option Text
own_digest d = some d.digest

loop_valid : validate_workflow true any_schema own_digest loop plugin ≡ ok tt
unfolding validate_workflow validate_opaque_identifier all_bytes
loop_valid = refl

unguarded_invalid :
    validate_workflow true any_schema own_digest (workflow (text "APPROVAL")) plugin
    ≡ err workflow_invalid
unfolding validate_workflow validate_opaque_identifier all_bytes
unguarded_invalid = refl

handlerless_invalid :
    validate_workflow true any_schema own_digest (workflow (text "ACTIVITY")) plugin
    ≡ err workflow_invalid
unfolding validate_workflow validate_opaque_identifier all_bytes
handlerless_invalid = refl

abbrev row : Text → DurableCheckpoint
row key = record {
  logical_step_id = key;
  state = text "SUCCEEDED";
  failure_code = none;
  fence = pos 1;
}

abbrev rows : List DurableCheckpoint
rows = row (text "0001:draft") ∷ row (text "0002:retry") ∷ []

loop_stops :
    next_step (interpreter_from_checkpoints loop rows)
    ≡ unsupported (text "retry") unmodeled_branch_edge
unfolding next_step interpreter_from_checkpoints
loop_stops = refl

validate_workflow-next_step_example : unmodeled_branch_edge ≡ unmodeled_branch_edge
validate_workflow-next_step_example =
    validate_workflow-next_step true any_schema own_digest loop plugin rows (text "retry")
      unmodeled_branch_edge loop_valid loop_stops

validate_workflow-IsBounded_example : Any (IsBounded loop.nodes) (text "draft" ∷ text "retry" ∷ [])
validate_workflow-IsBounded_example =
    validate_workflow-IsBounded true any_schema own_digest loop plugin (text "draft")
      (text "retry" ∷ []) loop_valid (inl (refl, refl), (inr (inl (refl, refl)), tt))

plugin_valid : validate_manifest true any_schema plugin (text "t") read ≡ ok tt
unfolding validate_manifest
plugin_valid = refl

foreign_path :
    validate_manifest true any_schema
      (manifest (text "a") [] read (contribution (text "/plugins/b/private") ∷ []))
      (text "t")
      read
    ≡ err scope_denied
unfolding validate_manifest
foreign_path = refl

climbing_path :
    validate_manifest true any_schema
      (manifest (text "a") [] read (contribution (text "/plugins/a/../b") ∷ []))
      (text "t")
      read
    ≡ err scope_denied
unfolding validate_manifest
climbing_path = refl

unknown_capability :
    validate_manifest true any_schema
      (manifest (text "a") [] (text "private.execute" ∷ []) [])
      (text "t")
      read
    ≡ err config_unsupported
unfolding validate_manifest
unknown_capability = refl

validate_manifest-IsAdmitted_example : IsAdmitted plugin (text "t") read
validate_manifest-IsAdmitted_example =
    validate_manifest-IsAdmitted true any_schema plugin (text "t") read plugin_valid

abbrev neighbour : PluginManifest
neighbour = manifest (text "ab") [] read (contribution (text "/plugins/ab/home") ∷ [])

neighbour_valid : validate_manifest true any_schema neighbour (text "t") read ≡ ok tt
unfolding validate_manifest
neighbour_valid = refl

valid_a : try_from (text "PluginId") (text "a") ≡ ok (text "a")
unfolding try_from validate_opaque_identifier all_bytes
valid_a = refl

valid_ab : try_from (text "PluginId") (text "ab") ≡ ok (text "ab")
unfolding try_from validate_opaque_identifier all_bytes
valid_ab = refl

validate_manifest-apart_example :
    All
      (λ (u : UiContribution). All (λ (v : UiContribution). u.path ≢ v.path) neighbour.ui)
      plugin.ui
validate_manifest-apart_example =
    validate_manifest-apart true any_schema plugin neighbour (text "t") (text "t") read read valid_a
      valid_ab (λ e. cc) plugin_valid neighbour_valid

abbrev lock : PluginLock
lock = record {
  schema_version = text "1.0.0";
  product_id = text "product";
  plugins =
      record { plugin_id = text "a"; artifact_digest = text "00"; contract_version = text "1.0.0" }
      ∷ [];
}

lock_valid : validate_lock lock (text "product") ≡ ok tt
unfolding validate_lock
lock_valid = refl

validate_lock_iff_example :
    (validate_lock lock (text "product") ≡ ok tt) ↔ IsClosed lock (text "product")
validate_lock_iff_example = validate_lock_iff lock (text "product")
