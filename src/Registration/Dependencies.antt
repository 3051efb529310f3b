-- ===== src/Registration/Dependencies.antt =====
-- platform-plugins/data-postgres/src/registry_validation.rs: `resolve_manifests`. The map of manifests
-- is the list of its entries, in the order of the map. The parsing of versions and of version ranges,
-- and the test of one in the other, belong to the semver library and are parameters.
pub mod Edges
pub mod Merge
pub mod Laws
use masonwing.Prelude.{
  ℕ, zero, suc, ◌+◌, ◌-◌, ◌*◌, ◌/◌, ◌%◌, ◌^◌, ◌≤◌, ◌<◌, String, ◌≡◌, refl, sym, ap, ap₂, subst, ◌∙◌,
  ◌≢◌, ◌↔◌, ◌⊎◌, inl, inr, Bool, true, false, not, ◌&&◌, ◌||◌, Option, none, some, List, [], ◌∷◌,
  ◌++◌, map, append_assoc, append-nil, arith, ℕ_discrete, dec_le, ℤ, pos, negsuc, pos_part,
  neg_part, ltb_ℤ, leb_ℤ, ◌≤ℤ◌, ◌<ℤ◌, eq_ℤ, suc_ℤ, suc_ℤ_parts, eq_ℤ_iff, length, drop,
  length-append, All, Any, map_insert, map_get, map_get-insert, Result, ok, err, ◌>>=◌, ◌>>◌, guard,
  ok_or, bind_ok, ok-injective, contains, is_subset, contains_subset, is_subset_iff,
  contains-append, contains-singleton, is_subset_mono, contains-head, contains-tail, ltb, leb, ◌==◌,
  if◌then◌else◌, ==_iff, Bool-cases, Option-cases, Text, text, text_eq, text_eq_iff, text_eq_refl,
}
use masonwing.Contracts.Wire.{PluginDependency, PluginManifest}
use masonwing.Kernel.Runtime.Failure.{CommandFailure}
use masonwing.Kernel.Registry.{
  DependencyGraph, insert, RegistryError, dependency_cycle, dependency_unsatisfied, Resolution,
  plan, refused, stuck, resolve,
}
use masonwing.Registration.Failures.{
  manifest_invalid, dependency_cycle_found, dependency_missing, registry_capacity,
}

abbrev pub Manifests : Type 0
Manifests = List (Text × PluginManifest)

-- Appends what is new of a plan: `seen` holds what `ordered` lists.
unfoldable pub add_new : List Text → List Text → List Text
unfolding contains
add_new ordered [] = ordered
add_new ordered (p ∷ rest) =
    add_new (if contains ordered p then ordered else ordered ++ p ∷ []) rest

abbrev pub empty_graph : DependencyGraph
empty_graph = record { dependencies = [] }

-- The result of `resolve` with its errors mapped. The last case does not arise.
unfoldable pub plan_or_failure : Resolution → Result (List Text) CommandFailure
plan_or_failure (plan order) = ok order
plan_or_failure (refused (dependency_cycle _)) = err dependency_cycle_found
plan_or_failure (refused (dependency_unsatisfied _)) = err dependency_missing
plan_or_failure stuck = err dependency_missing

-- The loop over the keys of the map.
unfoldable pub order_from :
    DependencyGraph → List Text → Manifests → Result (List Text) CommandFailure
unfolding plan_or_failure add_new
order_from graph ordered [] = ok ordered
order_from graph ordered ((id, _) ∷ rest) =
    plan_or_failure (resolve graph id) >>= λ order. order_from graph (add_new ordered order) rest

module _ {Range Version : Type 0} (parse_range : Text → Option Range)
    (parse_version : Text → Option Version) (matches : Range → Version → Bool) where
  -- Whether the range that a dependency names holds the version of its target.
  unfoldable pub check_range : Option Range → Option Version → Result (Unit {0}) CommandFailure
  check_range none version = err manifest_invalid
  check_range (some range) none = err manifest_invalid
  check_range (some range) (some version) = guard (matches range version) dependency_missing

  -- What a dependency adds to the edges, by the manifest that it names.
  unfoldable pub edge_of :
      PluginDependency → Option PluginManifest → Result (List Text) CommandFailure
  unfolding check_range
  edge_of dependency none = ok_or (parse_range dependency.contract_range) manifest_invalid >>= λ _.
      if dependency.optional then ok [] else err dependency_missing
  edge_of dependency (some target) =
      check_range (parse_range dependency.contract_range) (parse_version target.contract_version)
      >>= λ _. ok (dependency.plugin_id ∷ [])

  -- The loop over the dependencies of one manifest.
  unfoldable pub edges_of :
      Manifests → List Text → List PluginDependency → Result (List Text) CommandFailure
  unfolding edge_of contains map_get
  edges_of manifests seen [] = ok []
  edges_of manifests seen (dependency ∷ rest) =
      guard (not (contains seen dependency.plugin_id)) manifest_invalid >>= λ _.
      edge_of dependency (map_get dependency.plugin_id manifests) >>= λ edge.
      edges_of manifests (dependency.plugin_id ∷ seen) rest >>= λ edges. ok (edge ++ edges)

  -- The loop over the manifests.
  unfoldable pub graph_from :
      Manifests → DependencyGraph → Manifests → Result DependencyGraph CommandFailure
  unfolding edges_of insert
  graph_from manifests graph [] = ok graph
  graph_from manifests graph ((id, manifest) ∷ rest) =
      edges_of manifests [] manifest.dependencies >>= λ edges.
      graph_from manifests (insert graph id edges) rest

  unfoldable pub resolve_manifests : Manifests → Result (List Text) CommandFailure
  unfolding graph_from order_from
  resolve_manifests manifests = guard (not (ltb 512 (length manifests))) registry_capacity >>= λ _.
      graph_from manifests empty_graph manifests >>= λ graph. order_from graph [] manifests
