-- ===== src/Registration/Dependencies/Edges.antt =====
-- The edges that the dependencies of a manifest become
-- (platform-plugins/data-postgres/src/registry_validation.rs).
use masonwing.Prelude.{
  ◌≡◌, refl, sym, ap, subst, ◌∙◌, ◌⊎◌, inl, inr, Bool, true, not, Option, none, some, List, [], ◌∷◌,
  ◌++◌, arith, All, map_get, map_get-insert, ok, err, guard, ok_or, bind_ok, ok-injective, contains,
  contains-append, contains-head, if◌then◌else◌, Bool-cases, Text, text_eq, text_eq_iff,
}
use masonwing.Contracts.Wire.{PluginDependency, PluginManifest}
use masonwing.Kernel.Registry.{DependencyGraph, insert, get}
use masonwing.Registration.Failures.{manifest_invalid, dependency_missing}
use masonwing.Registration.Dependencies.{Manifests, check_range, edge_of, edges_of, graph_from}

pub get-insert :
    (graph : DependencyGraph) (id other : Text) (edges : List Text)
    → get (insert graph id edges) other ≡ (if text_eq id other then some edges else get graph other)
unfolding get insert
get-insert graph id other edges = map_get-insert id other edges graph.dependencies

-- No key is listed twice: the list is that of a map.
abbrev pub HasDistinctKeys : Manifests → Type 0
HasDistinctKeys [] = Unit
HasDistinctKeys ((id, _) ∷ rest) = (map_get id rest ≡ none) × HasDistinctKeys rest

module _ {Range Version : Type 0} (parse_range : Text → Option Range)
    (parse_version : Text → Option Version) (matches : Range → Version → Bool) where
  -- The version of the target lies in the range that the dependency names.
  abbrev pub InRange : PluginDependency → PluginManifest → Type 0
  InRange d target =
      (range : Range) × (version : Version) × (parse_range d.contract_range ≡ some range)
      × (parse_version target.contract_version ≡ some version)
      × (matches range version ≡ true)

  -- A dependency is among the listed plugins, in a version within its range, or it is optional and
  -- no manifest is selected for it.
  abbrev pub IsMet : Manifests → List Text → PluginDependency → Type 0
  IsMet manifests listed d =
      ((target : PluginManifest) × (map_get d.plugin_id manifests ≡ some target)
        × (contains listed d.plugin_id ≡ true)
        × InRange d target)
      ⊎ ((map_get d.plugin_id manifests ≡ none) × (d.optional ≡ true))

  pub IsMet-more :
      (manifests : Manifests) (xs ys : List Text) (d : PluginDependency)
      → ((a : Text) → contains xs a ≡ true → contains ys a ≡ true)
      → IsMet manifests xs d
      → IsMet manifests ys d
  IsMet-more manifests xs ys d more (inl (target, found, listed, range)) =
      inl (target, found, more d.plugin_id listed, range)
  IsMet-more manifests xs ys d more (inr h) = inr h

  All-IsMet-more :
      (manifests : Manifests) (xs ys : List Text) (ds : List PluginDependency)
      → ((a : Text) → contains xs a ≡ true → contains ys a ≡ true)
      → All (IsMet manifests xs) ds
      → All (IsMet manifests ys) ds
  All-IsMet-more manifests xs ys [] more h = tt
  All-IsMet-more manifests xs ys (d ∷ ds) more h =
      (IsMet-more manifests xs ys d more h.0, All-IsMet-more manifests xs ys ds more h.1)

  check_range-InRange :
      (range : Option Range) (version : Option Version) (u : Unit {0})
      → check_range parse_range parse_version matches range version ≡ ok u
      → (r : Range) × (v : Version) × (range ≡ some r) × (version ≡ some v) × (matches r v ≡ true)
  unfolding check_range
  check_range-InRange none version u h = absurd cc
  check_range-InRange (some range) none u h = absurd cc
  check_range-InRange (some range) (some version) u h = (range, version, refl, refl, ground arith)

  edge_of-IsMet :
      (manifests : Manifests) (d : PluginDependency) (o : Option PluginManifest) (edge : List Text)
      → map_get d.plugin_id manifests ≡ o
      → edge_of parse_range parse_version matches d o ≡ ok edge
      → IsMet manifests edge d
  unfolding edge_of
  edge_of-IsMet manifests d none edge found h =
      let (_, _, decided) =
        bind_ok (ok_or (parse_range d.contract_range) manifest_invalid)
          (λ _. if d.optional then ok [] else err dependency_missing) edge h in
      inr (found, ground arith)
  edge_of-IsMet manifests d (some target) edge found h =
      let (u, checked, listed) =
        bind_ok
          (check_range parse_range parse_version matches (parse_range d.contract_range)
            (parse_version target.contract_version))
          (λ _. ok (d.plugin_id ∷ [])) edge h in
      let range =
        check_range-InRange (parse_range d.contract_range) (parse_version target.contract_version) u
          checked in
      inl (
        target,
        found,
        subst (λ (e : List Text). contains e d.plugin_id ≡ true)
            (ok-injective (d.plugin_id ∷ []) edge listed) (contains-head d.plugin_id []),
        range,
      )

  -- Every dependency of an accepted list is met by the edges.
  pub edges_of-IsMet :
      (manifests : Manifests) (seen : List Text) (ds : List PluginDependency) (edges : List Text)
      → edges_of parse_range parse_version matches manifests seen ds ≡ ok edges
      → All (IsMet manifests edges) ds
  unfolding edges_of
  edges_of-IsMet manifests seen [] edges h = tt
  edges_of-IsMet manifests seen (d ∷ ds) edges h =
      let (_, _, h1) =
        bind_ok (guard (not (contains seen d.plugin_id)) manifest_invalid) _ edges h in
      let (edge, made, h2) =
        bind_ok (edge_of parse_range parse_version matches d (map_get d.plugin_id manifests)) _
          edges h1 in
      let (others, later, h3) =
        bind_ok (edges_of parse_range parse_version matches manifests (d.plugin_id ∷ seen) ds) _
          edges h2 in
      let whole : edge ++ others ≡ edges = ok-injective (edge ++ others) edges h3 in
      subst (λ (e : List Text). All (IsMet manifests e) (d ∷ ds)) whole
        (
          IsMet-more manifests edge (edge ++ others) d
              (λ a m. rw (contains-append edge others a, m) refl)
              (edge_of-IsMet manifests d (map_get d.plugin_id manifests) edge refl made),
          All-IsMet-more manifests others (edge ++ others) ds
              (λ a m. contains-append edge others a ∙ ground arith)
              (edges_of-IsMet manifests (d.plugin_id ∷ seen) ds others later),
        )

  -- The entry of a plugin in the graph that the loop leaves: from its manifest, if the loop came to
  -- one, or as it was.
  abbrev pub HasEntry :
      Manifests → DependencyGraph → DependencyGraph → Text → Option PluginManifest → Type 0
  HasEntry manifests before after id none = get after id ≡ get before id
  HasEntry manifests before after id (some manifest) =
      (edges : List Text) × (get after id ≡ some edges)
      × (edges_of parse_range parse_version matches manifests [] manifest.dependencies ≡ ok edges)

  pub graph_from-HasEntry :
      (manifests : Manifests) (graph : DependencyGraph) (rest : Manifests) (last : DependencyGraph)
      (id : Text)
      → HasDistinctKeys rest
      → graph_from parse_range parse_version matches manifests graph rest ≡ ok last
      → HasEntry manifests graph last id (map_get id rest)
  unfolding graph_from map_get
  graph_from-HasEntry manifests graph [] last id distinct h =
      ap (λ (g : DependencyGraph). get g id) (sym (ok-injective graph last h))
  graph_from-HasEntry manifests graph ((key, manifest) ∷ rest) last id distinct h =
      let (edges, made, h1) =
        bind_ok (edges_of parse_range parse_version matches manifests [] manifest.dependencies) _
          last h in
      let later =
        graph_from-HasEntry manifests (insert graph key edges) rest last id distinct.1 h1 in
      elim (Bool-cases (text_eq key id)) [
        | inl same ↦
            let e : key ≡ id = (text_eq_iff key id).0 same in
            let absent : map_get id rest ≡ none = rw e at distinct.0 in
            rw same (edges, rw absent at later ∙ (get-insert graph key id edges ∙ rw same), made)
        | inr other ↦ rw other (
            kept (map_get id rest) (insert graph key edges)
              (get-insert graph key id edges ∙ rw other) later)
      ]
    where
      kept :
          (o : Option PluginManifest) (middle : DependencyGraph)
          → get middle id ≡ get graph id
          → HasEntry manifests middle last id o
          → HasEntry manifests graph last id o
      kept none middle e later = later ∙ e
      kept (some m) middle e later = later
