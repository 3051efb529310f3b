-- ===== src/Registration/Workflows.antt =====
-- platform-plugins/data-postgres/src/registry_validation.rs: `validate_workflow`. The schema catalogue
-- and the digest of the definition without its own digest belong to other crates and are parameters.
pub mod Graph
pub mod Nodes
pub mod Acyclic
pub mod Laws
pub mod Runs
pub mod Loops
use masonwing.Prelude.{
  ℕ, zero, suc, ◌+◌, ◌-◌, ◌*◌, ◌/◌, ◌%◌, ◌^◌, ◌≤◌, ◌<◌, String, ◌≡◌, refl, sym, ap, ap₂, subst, ◌∙◌,
  ◌≢◌, ◌↔◌, ◌⊎◌, inl, inr, Bool, true, false, not, ◌&&◌, ◌||◌, Option, none, some, List, [], ◌∷◌,
  ◌++◌, map, append_assoc, append-nil, arith, ℕ_discrete, dec_le, ℤ, pos, negsuc, pos_part,
  neg_part, ltb_ℤ, leb_ℤ, ◌≤ℤ◌, ◌<ℤ◌, eq_ℤ, suc_ℤ, suc_ℤ_parts, eq_ℤ_iff, length, drop,
  length-append, All, Any, map_insert, map_get, map_get-insert, Result, ok, err, ◌>>=◌, ◌>>◌, guard,
  ok_or, bind_ok, ok-injective, contains, is_subset, contains_subset, is_subset_iff,
  contains-append, contains-singleton, is_subset_mono, contains-head, contains-tail, ltb, leb, ◌==◌,
  if◌then◌else◌, ==_iff, Bool-cases, Option-cases, Text, text, text_eq, text_eq_iff, text_eq_refl,
}
use masonwing.Contracts.Wire.{
  WorkflowNode, WorkflowEdge, WorkflowDefinition, HandlerContract, PluginManifest, artifact_eq,
}
use masonwing.Contracts.Values.{ValueError, try_from}
use masonwing.Kernel.Runtime.Failure.{CommandFailure}
use masonwing.Kernel.Registry.{DependencyGraph, insert, Resolution, plan, resolve}
use masonwing.Registration.Failures.{workflow_invalid, catalog_invalid}

abbrev pub NodeMap : Type 0
NodeMap = List (Text × WorkflowNode)

-- `collect` into a map: of two nodes with one identifier the later is kept.
unfoldable pub index_nodes : List WorkflowNode → NodeMap → NodeMap
unfolding map_insert
index_nodes [] m = m
index_nodes (n ∷ rest) m = index_nodes rest (map_insert n.id n m)

abbrev pub is_loop : WorkflowNode → Bool
unfolding text_eq
is_loop n = text_eq n.kind (text "BOUNDED_LOOP")

unfoldable pub find_handler : Text → List HandlerContract → Option HandlerContract
unfolding text_eq
find_handler id [] = none
find_handler id (h ∷ rest) = if text_eq h.id id then some h else find_handler id rest

-- What is tested of a node with a handler.
unfoldable pub handler_fits : WorkflowDefinition → WorkflowNode → Option HandlerContract → Bool
unfolding artifact_eq is_subset
handler_fits definition n none = false
handler_fits definition n (some h) =
    artifact_eq n.input_schema_ref h.input_schema_ref
    && artifact_eq n.output_schema_ref h.output_schema_ref
    && leb n.timeout_seconds h.max_execution_seconds
    && is_subset h.required_capabilities definition.required_actions

abbrev needs_handler : List Text
needs_handler = text "DETERMINISTIC" ∷ text "ACTIVITY" ∷ []

unfoldable pub node_fits : WorkflowDefinition → PluginManifest → WorkflowNode → Option Text → Bool
unfolding handler_fits find_handler contains
node_fits definition manifest n none = not (contains needs_handler n.kind)
node_fits definition manifest n (some id) =
    handler_fits definition n (find_handler id manifest.handlers)

unfoldable pub nodes_fit : WorkflowDefinition → PluginManifest → List WorkflowNode → Bool
unfolding node_fits
nodes_fit definition manifest [] = true
nodes_fit definition manifest (n ∷ rest) =
    node_fits definition manifest n n.handler_id && nodes_fit definition manifest rest

abbrev id_or_failure : Result Text ValueError → Result Text CommandFailure
id_or_failure (ok id) = ok id
id_or_failure (err _) = err workflow_invalid

-- `PluginId::new` with its error mapped.
unfoldable pub plugin_id : Text → Result Text CommandFailure
unfolding try_from
plugin_id id = id_or_failure (try_from (text "PluginId") id)

-- What the target of an edge adds to the edges of the graph: a node that is declared and no loop.
unfoldable pub target_of : Option WorkflowNode → Result (List Text) CommandFailure
unfolding plugin_id
target_of none = ok []
target_of (some n) = if is_loop n then ok [] else (plugin_id n.id >>= λ id. ok (id ∷ []))

unfoldable pub targets : NodeMap → Text → List WorkflowEdge → Result (List Text) CommandFailure
unfolding target_of text_eq map_get
targets m from [] = ok []
targets m from (e ∷ rest) =
    let others = targets m from rest in
    if text_eq e.from from
    then (target_of (map_get e.to m) >>= λ here. others >>= λ more. ok (here ++ more))
    else others

-- The graph without the loops: the loop over the nodes that builds it.
unfoldable pub unbounded_from :
    NodeMap
    → List WorkflowEdge
    → DependencyGraph
    → List WorkflowNode
    → Result DependencyGraph CommandFailure
unfolding targets plugin_id insert
unbounded_from m edges graph [] = ok graph
unbounded_from m edges graph (n ∷ rest) =
    let skipped = unbounded_from m edges graph rest in
    if is_loop n
    then skipped
    else (targets m n.id edges >>= λ next.
        plugin_id n.id >>= λ id. unbounded_from m edges (insert graph id next) rest)

abbrev pub is_declared : Option WorkflowNode → Bool
is_declared none = false
is_declared (some _) = true

-- Whether one of the edges before leaves the same node on the same condition.
unfoldable pub has_branch : List WorkflowEdge → WorkflowEdge → Bool
unfolding text_eq
has_branch [] e = false
has_branch (x ∷ rest) e =
    (text_eq x.from e.from && text_eq x.condition e.condition) || has_branch rest e

unfoldable pub edges_fit : NodeMap → List WorkflowEdge → List WorkflowEdge → Bool
unfolding has_branch map_get
edges_fit m before [] = true
edges_fit m before (e ∷ rest) =
    is_declared (map_get e.from m)
    && is_declared (map_get e.to m)
    && not (has_branch before e)
    && edges_fit m (e ∷ before) rest

abbrev pub is_plan : Resolution → Bool
is_plan (plan _) = true
is_plan _ = false

unfoldable pub all_resolve : DependencyGraph → List WorkflowNode → Bool
unfolding resolve
all_resolve graph [] = true
all_resolve graph (n ∷ rest) = (is_loop n || is_plan (resolve graph n.id)) && all_resolve graph rest

abbrev pub empty_graph : DependencyGraph
empty_graph = record { dependencies = [] }

abbrev is_digest : Option Text → Text → Bool
unfolding text_eq
is_digest none digest = false
is_digest (some d) digest = text_eq d digest

-- What follows the checks of schema and digest.
unfoldable pub validate_graph :
    WorkflowDefinition → PluginManifest → Result (Unit {0}) CommandFailure
unfolding index_nodes map_get is_subset nodes_fit unbounded_from edges_fit all_resolve
validate_graph definition manifest =
    let nodes = index_nodes definition.nodes [] in
    guard
      (length nodes == length definition.nodes && is_declared (map_get definition.entry_node nodes))
      workflow_invalid
    >>= λ _.
        guard (is_subset definition.required_actions manifest.requested_capabilities)
          workflow_invalid
        >>= λ _. guard (nodes_fit definition manifest definition.nodes) workflow_invalid >>= λ _.
            unbounded_from nodes definition.edges empty_graph definition.nodes >>= λ unbounded.
            guard (edges_fit nodes [] definition.edges) workflow_invalid >>= λ _.
            guard (all_resolve unbounded definition.nodes) workflow_invalid

module _ (catalog_valid : Bool) (schema_valid : WorkflowDefinition → Bool)
    (content_digest : WorkflowDefinition → Option Text) where
  unfoldable pub validate_workflow :
      WorkflowDefinition → PluginManifest → Result (Unit {0}) CommandFailure
  unfolding validate_graph
  validate_workflow definition manifest = guard catalog_valid catalog_invalid >>= λ _.
      guard (schema_valid definition) workflow_invalid >>= λ _.
      guard (is_digest (content_digest definition) definition.digest) workflow_invalid >>= λ _.
      validate_graph definition manifest
