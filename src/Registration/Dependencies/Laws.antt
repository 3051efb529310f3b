-- ===== src/Registration/Dependencies/Laws.antt =====
-- What an order of plugins that `resolve_manifests` answers says of their manifests
-- (platform-plugins/data-postgres/src/registry_validation.rs).
use masonwing.Prelude.{
  ◌≡◌, refl, subst, ◌≢◌, ◌↔◌, inl, inr, Bool, true, false, not, Option, none, some, List, [], ◌∷◌,
  ◌++◌, length, All, map_get, ok, guard, bind_ok, contains, is_subset, contains_subset, ltb,
  Bool-cases, Text, text_eq, text_eq_iff,
}
use masonwing.Contracts.Wire.{PluginDependency, PluginManifest}
use masonwing.Kernel.Registry.{DependencyGraph, get}
use masonwing.Kernel.Registry.Order.{IsOrdered}
use masonwing.Registration.Failures.{registry_capacity}
use masonwing.Registration.Dependencies.{Manifests, empty_graph, graph_from, resolve_manifests}
use masonwing.Registration.Dependencies.Edges.{
  HasDistinctKeys, IsMet, IsMet-more, edges_of-IsMet, HasEntry, graph_from-HasEntry,
}
use masonwing.Registration.Dependencies.Merge.{order_from-IsOrdered}

module _ {Range Version : Type 0} (parse_range : Text → Option Range)
    (parse_version : Text → Option Version) (matches : Range → Version → Bool)
    (manifests : Manifests) where
  -- Each plugin of the order has a manifest, is not among those before it, and all its dependencies
  -- are met by those before it.
  abbrev pub IsInstallable : List Text → List Text → Type 0
  IsInstallable before [] = Unit
  IsInstallable before (p ∷ rest) =
      ((manifest : PluginManifest) × (map_get p manifests ≡ some manifest)
        × (contains before p ≡ false)
        × All (IsMet parse_range parse_version matches manifests before) manifest.dependencies)
      × IsInstallable (before ++ p ∷ []) rest

  All-IsMet-subset :
      (xs ys : List Text) (ds : List PluginDependency)
      → is_subset xs ys ≡ true
      → All (IsMet parse_range parse_version matches manifests xs) ds
      → All (IsMet parse_range parse_version matches manifests ys) ds
  All-IsMet-subset xs ys [] sub h = tt
  All-IsMet-subset xs ys (d ∷ ds) sub h = (
    IsMet-more parse_range parse_version matches manifests xs ys d
        (λ a m. contains_subset xs ys a sub m) h.0,
    All-IsMet-subset xs ys ds sub h.1,
  )

  module _ (graph : DependencyGraph)
      (built : (id : Text)
        → HasEntry parse_range parse_version matches manifests empty_graph graph id
            (map_get id manifests)) where
    entry_manifest :
        (p : Text) (deps : List Text) (o : Option PluginManifest)
        → map_get p manifests ≡ o
        → HasEntry parse_range parse_version matches manifests empty_graph graph p o
        → get graph p ≡ some deps
        → (manifest : PluginManifest) × (map_get p manifests ≡ some manifest)
          × All (IsMet parse_range parse_version matches manifests deps) manifest.dependencies
    unfolding get map_get
    entry_manifest p deps none e h entry = absurd (cc (h, entry))
    entry_manifest p deps (some m) e (edges, listed, made) entry = (
      m,
      e,
      subst
          (λ (xs : List Text).
            All (IsMet parse_range parse_version matches manifests xs) m.dependencies)
          (cc)
          (edges_of-IsMet parse_range parse_version matches manifests [] m.dependencies edges made),
    )

    ordered-IsInstallable :
        (before order : List Text) → IsOrdered graph before order → IsInstallable before order
    ordered-IsInstallable before [] h = tt
    ordered-IsInstallable before (p ∷ rest) ((deps, entry, listed, new), h) =
        let (m, found, met) = entry_manifest p deps (map_get p manifests) refl (built p) entry in
        (
          (m, found, new, All-IsMet-subset deps before m.dependencies listed met),
          ordered-IsInstallable (before ++ p ∷ []) rest h,
        )

  installable_known :
      (before order : List Text) (a : Text)
      → IsInstallable before order
      → contains order a ≡ true
      → map_get a manifests ≢ none
  unfolding contains
  installable_known before [] a h m = absurd cc
  installable_known before (p ∷ rest) a ((manifest, found, _, _), h) m =
      elim (Bool-cases (text_eq p a)) [
        | inl same ↦ λ e. cc (found, e, (text_eq_iff p a).0 same)
        | inr other ↦ installable_known (before ++ p ∷ []) rest a h (rw other at m)
      ]

  -- An order that is answered lists exactly the plugins with a manifest, each of them once and behind
  -- its dependencies: every dependency is there in a version within its range, unless it is optional
  -- and has no manifest.
  pub resolve_manifests_lem :
      (order : List Text)
      → HasDistinctKeys manifests
      → resolve_manifests parse_range parse_version matches manifests ≡ ok order
      → IsInstallable [] order
        × ((id : Text) → (contains order id ≡ true) ↔ (map_get id manifests ≢ none))
  unfolding resolve_manifests
  resolve_manifests_lem order distinct h =
      let (_, _, h1) =
        bind_ok (guard (not (ltb 512 (length manifests))) registry_capacity) _ order h in
      let (graph, made, h2) =
        bind_ok (graph_from parse_range parse_version matches manifests empty_graph manifests) _
          order h1 in
      let (sorted, _, keys) = order_from-IsOrdered graph [] manifests order tt h2 in
      let installable : IsInstallable [] order =
        ordered-IsInstallable graph
          (λ id.
            graph_from-HasEntry parse_range parse_version matches manifests empty_graph manifests
              graph id distinct made)
          [] order sorted in
      (installable, λ id. (λ m. installable_known [] order id installable m, keys id))
