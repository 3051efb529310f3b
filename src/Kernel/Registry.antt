-- ===== src/Kernel/Registry.antt =====
-- crates/kernel/src/registry.rs: the plugin dependency graph, its resolution, and installation.
-- `BTreeMap` is an association list with one entry for a key, `BTreeSet` a list read by membership.
pub mod Walks
pub mod Room
pub mod Order
pub mod Visits
pub mod Induction
pub mod Resolve
pub mod Install
use masonwing.Prelude.{
  ℕ, zero, suc, ◌+◌, ◌-◌, ◌*◌, ◌/◌, ◌%◌, ◌^◌, ◌≤◌, ◌<◌, String, ◌≡◌, refl, sym, ap, ap₂, subst, ◌∙◌,
  ◌≢◌, ◌↔◌, ◌⊎◌, inl, inr, Bool, true, false, not, ◌&&◌, ◌||◌, Option, none, some, List, [], ◌∷◌,
  ◌++◌, map, append_assoc, append-nil, arith, ℕ_discrete, ℤ, pos, negsuc, pos_part, neg_part, ltb_ℤ,
  leb_ℤ, ◌≤ℤ◌, ◌<ℤ◌, eq_ℤ, suc_ℤ, suc_ℤ_parts, eq_ℤ_iff, length, drop, length-append, map_insert,
  map_get, map_get-insert, Result, ok, err, ◌>>=◌, ◌>>◌, guard, ok_or, contains, is_subset,
  contains_subset, is_subset_iff, contains-append, contains-singleton, is_subset_mono,
  contains-head, contains-tail, ltb, leb, ◌==◌, if◌then◌else◌, ==_iff, Bool-cases, Option-cases,
  Text, text, text_eq, text_eq_iff, text_eq_refl,
}

pub record DependencyGraph : Type 0 where
  pub dependencies : List (Text × List Text)

unfoldable pub insert : DependencyGraph → Text → List Text → DependencyGraph
unfolding map_insert
insert graph plugin deps = record { dependencies = map_insert plugin deps graph.dependencies }

-- `dependencies.get(plugin)`
unfoldable pub get : DependencyGraph → Text → Option (List Text)
unfolding map_get
get graph plugin = map_get plugin graph.dependencies

pub data RegistryError : Type 0 where
  dependency_cycle : (path : List Text) → RegistryError
  dependency_unsatisfied : (plugin : Text) → RegistryError

-- The three collections that `visit` mutates.
pub record Visit : Type 0 where
  pub visiting : List Text
  pub visited : List Text
  pub order : List Text

pub data Visited : Type 0 where
  done : Visit → Visited
  failed : RegistryError → Visited
  out_of_fuel : Visited

abbrev pub and_then : Visited → (Visit → Visited) → Visited
and_then (done s) next = next s
and_then (failed e) next = failed e
and_then out_of_fuel next = out_of_fuel

-- `iter().position(…)` and the slice from there on.
unfoldable pub from_position : Text → List Text → Option (List Text)
unfolding text_eq
from_position plugin [] = none
from_position plugin (x ∷ xs) = if text_eq x plugin then some (x ∷ xs) else from_position plugin xs

-- `Vec::pop`, its value dropped.
unfoldable pub pop : List Text → List Text
pop [] = []
pop (x ∷ []) = []
pop (x ∷ y ∷ rest) = x ∷ pop (y ∷ rest)

-- The `for` loop of `visit`, over the call for one plugin.
unfoldable pub visit_all : (Text → Visit → Visited) → List Text → Visit → Visited
visit_all call [] s = done s
visit_all call (d ∷ rest) s = and_then (call d s) (visit_all call rest)

-- `visited.insert(plugin); order.push(plugin)` after `visiting.pop()`.
unfoldable pub leave : Text → Visit → Visit
unfolding pop
leave plugin s = record {
  visiting = pop s.visiting;
  visited = plugin ∷ s.visited;
  order = s.order ++ plugin ∷ [];
}

unfoldable pub enter : Text → Visit → Visit
enter plugin s = record s { visiting = s.visiting ++ plugin ∷ [] }

unfoldable pub visit : DependencyGraph → ℕ → Text → Visit → Visited
unfolding get contains from_position visit_all leave enter
visit graph zero plugin s = out_of_fuel
visit graph (suc fuel) plugin s = elim (contains s.visited plugin) [
  | true ↦ done s
  | false ↦ elim (from_position plugin s.visiting) [
    | some cycle ↦ failed (dependency_cycle (cycle ++ plugin ∷ []))
    | none ↦ elim (get graph plugin) [
      | none ↦ failed (dependency_unsatisfied plugin)
      | some deps ↦
          and_then (visit_all (visit graph fuel) deps (enter plugin s)) (λ t. done (leave plugin t))
    ]
  ]
]

abbrev pub fresh : Visit
fresh = record { visiting = []; visited = []; order = [] }

-- A plugin is visited at most once below itself, so one round for each entry and one more suffice.
abbrev pub fuel_of : DependencyGraph → ℕ
fuel_of graph = suc (length graph.dependencies)

unfoldable pub resolve_with : DependencyGraph → ℕ → Text → Visited
unfolding visit
resolve_with graph fuel root = visit graph fuel root fresh

pub data Resolution : Type 0 where
  plan : List Text → Resolution
  refused : RegistryError → Resolution
  stuck : Resolution

abbrev pub to_resolution : Visited → Resolution
to_resolution (done s) = plan s.order
to_resolution (failed e) = refused e
to_resolution out_of_fuel = stuck

unfoldable pub resolve : DependencyGraph → Text → Resolution
unfolding resolve_with
resolve graph root = to_resolution (resolve_with graph (fuel_of graph) root)
