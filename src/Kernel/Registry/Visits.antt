-- ===== src/Kernel/Registry/Visits.antt =====
-- What one call of `visit` does to the three collections (crates/kernel/src/registry.rs).
use masonwing.Prelude.{
  ◌≡◌, refl, ◌∙◌, true, false, none, List, [], ◌∷◌, arith, contains, is_subset, contains-head,
  contains-tail, Text,
}
use masonwing.Kernel.Registry.Walks.{IsWalk, IsCycle, Reach}
use masonwing.Kernel.Registry.Order.{IsOrdered}
use masonwing.Kernel.Registry.{
  DependencyGraph, get, RegistryError, dependency_cycle, dependency_unsatisfied, Visit, Visited,
  done, failed, out_of_fuel, and_then, visit_all,
}

module _ (graph : DependencyGraph) (root : Text) where
  -- What holds of the collections between two calls.
  pub record Inv (s : Visit) : Type 0 where
    pub ordered : IsOrdered graph [] s.order
    pub same : (a : Text) → contains s.visited a ≡ contains s.order a
    pub apart : (a : Text) → contains s.visiting a ≡ true → contains s.visited a ≡ false
    pub reached : (a : Text) → contains s.visited a ≡ true → Reach graph root a

  -- What a successful call leaves, besides what it was called for.
  pub record After (s t : Visit) : Type 0 where
    pub inv : Inv t
    pub restored : t.visiting ≡ s.visiting
    pub grows : (a : Text) → contains s.visited a ≡ true → contains t.visited a ≡ true

  -- What an error reports.
  abbrev pub Reports : RegistryError → Type 0
  Reports (dependency_cycle path) = IsCycle graph path
  Reports (dependency_unsatisfied p) = (get graph p ≡ none) × Reach graph root p

  abbrev pub Post : Visit → (Visit → Type 0) → Visited → Type 0
  Post s Q (done t) = After s t × Q t
  Post s Q (failed e) = Reports e
  Post s Q out_of_fuel = ⊥

  -- When `visit` may be called for `p`.
  pub record Callable (visiting : List Text) (p : Text) : Type 0 where
    pub walk : IsWalk graph visiting p
    pub reach : Reach graph root p

  abbrev pub Works : List Text → (Text → Visit → Visited) → Type 0
  Works visiting call =
      (p : Text) (s : Visit)
      → s.visiting ≡ visiting
      → Inv s
      → Callable visiting p
      → Post s (λ t. contains t.visited p ≡ true) (call p s)

  After-trans : (s t u : Visit) → After s t → After t u → After s u
  After-trans s t u a b = record {
    inv = b.inv;
    restored = b.restored ∙ a.restored;
    grows = λ x m. b.grows x (a.grows x m);
  }

  pub Post-and_then :
      (s : Visit) (P Q : Visit → Type 0) (r : Visited) (next : Visit → Visited)
      → Post s P r
      → ((t : Visit) → After s t → P t → Post s Q (next t))
      → Post s Q (and_then r next)
  Post-and_then s P Q (done t) next h k = k t h.0 h.1
  Post-and_then s P Q (failed e) next h k = h
  Post-and_then s P Q out_of_fuel next h k = h

  Post-After :
      (s t : Visit) (P Q : Visit → Type 0) (r : Visited)
      → After s t
      → Post t P r
      → ((u : Visit) → After t u → P u → Q u)
      → Post s Q r
  Post-After s t P Q (done u) a h k = (After-trans s t u a h.0, k u h.0 h.1)
  Post-After s t P Q (failed e) a h k = h
  Post-After s t P Q out_of_fuel a h k = h

  pub visit_all-Post :
      (visiting : List Text) (call : Text → Visit → Visited) (deps : List Text) (s : Visit)
      → Works visiting call
      → s.visiting ≡ visiting
      → Inv s
      → ((d : Text) → contains deps d ≡ true → Callable visiting d)
      → Post s (λ t. is_subset deps t.visited ≡ true) (visit_all call deps s)
  unfolding visit_all is_subset
  visit_all-Post visiting call [] s works e i ok_dep =
      (record { inv = i; restored = refl; grows = λ a m. m }, refl)
  visit_all-Post visiting call (d ∷ rest) s works e i ok_dep =
      Post-and_then s (λ t. contains t.visited d ≡ true) _ (call d s) (visit_all call rest)
        (works d s e i (ok_dep d (contains-head d rest)))
        λ t a m.
          Post-After s t (λ u. is_subset rest u.visited ≡ true) _ (visit_all call rest t) a
            (visit_all-Post visiting call rest t works (a.restored ∙ e) a.inv
              (λ x n. ok_dep x (contains-tail d rest x n)))
            λ u b n. ground (arith, b.grows d m)
