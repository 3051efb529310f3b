-- ===== src/Kernel/Registry/Resolve.antt =====
-- What an answer of `resolve` says of the graph (crates/kernel/src/registry.rs).
use masonwing.Prelude.{
  ℕ, ◌<◌, ◌≡◌, refl, sym, subst, ◌∙◌, ◌≢◌, ◌↔◌, inl, inr, true, none, some, List, [], ◌∷◌, ◌++◌,
  append_assoc, arith, contains, contains_subset, contains-append, Bool-cases, Text, text_eq,
  text_eq_iff,
}
use masonwing.Kernel.Registry.Walks.{
  IsCycle, IsWalk-falls, Reach, depends, depends_listed, here, further,
}
use masonwing.Kernel.Registry.Room.{free-le-length}
use masonwing.Kernel.Registry.Order.{IsOrdered}
use masonwing.Kernel.Registry.Visits.{Inv, Post}
use masonwing.Kernel.Registry.Induction.{visit_post}
use masonwing.Kernel.Registry.{
  DependencyGraph, get, dependency_cycle, dependency_unsatisfied, Visit, Visited, done, failed,
  out_of_fuel, fresh, fuel_of, resolve_with, Resolution, plan, refused, stuck, to_resolution,
  resolve,
}

module _ (graph : DependencyGraph) (root : Text) where
  fresh-Inv : Inv graph root fresh
  unfolding contains
  fresh-Inv = record { ordered = tt; same = λ a. refl; apart = λ a m. refl; reached = λ a m. cc }

  resolve_with-Post :
      Post graph root fresh
        (λ t. contains t.visited root ≡ true)
        (resolve_with graph (fuel_of graph) root)
  unfolding resolve_with
  resolve_with-Post =
      visit_post graph root (fuel_of graph) root fresh
        (omega (arith, free-le-length [] graph.dependencies)) fresh-Inv
        (record { walk = tt; reach = here })

  -- In such an order everything that a member needs is a member.
  IsOrdered-closed :
      (before order : List Text) (u v : Text)
      → IsOrdered graph before order
      → contains order u ≡ true
      → depends graph u v ≡ true
      → contains (before ++ order) v ≡ true
  unfolding contains
  IsOrdered-closed before [] u v h m e = cc
  IsOrdered-closed before (p ∷ rest) u v h m e = elim (Bool-cases (text_eq p u)) [
    | inl same ↦
        let (deps, entry, listed, _) = h.0 in
        let names : contains deps v ≡ true =
          depends_listed graph u v deps
            (subst (λ (x : Text). get graph x ≡ some deps) ((text_eq_iff p u).0 same) entry) e in
        rw (contains-append before (p ∷ rest) v, contains_subset deps before v listed names)
    | inr other ↦
        rw append_assoc at (IsOrdered-closed (before ++ p ∷ []) rest u v h.1 (rw other at m) e)
  ]

  -- What an answer of `resolve` says of the graph.
  abbrev pub Explains : Resolution → Type 0
  Explains (plan order) =
      IsOrdered graph [] order × ((a : Text) → (contains order a ≡ true) ↔ Reach graph root a)
  Explains (refused (dependency_cycle path)) = IsCycle graph path
  Explains (refused (dependency_unsatisfied p)) = (get graph p ≡ none) × Reach graph root p
  Explains stuck = ⊥

  Reach-listed :
      (order : List Text)
      → IsOrdered graph [] order
      → contains order root ≡ true
      → {a : Text} → Reach graph root a
      → contains order a ≡ true
  Reach-listed order h m here = m
  Reach-listed order h m (further {u = u} {v = v} r e) =
      IsOrdered-closed [] order u v h (Reach-listed order h m r) e

  Explains-done :
      (t : Visit) → Inv graph root t → contains t.visited root ≡ true → Explains (plan t.order)
  Explains-done t inv m = (
    inv.ordered,
    λ a. (
      λ n. inv.reached a (inv.same a ∙ n),
      Reach-listed t.order inv.ordered (sym (inv.same root) ∙ m),
    ),
  )

  Explains-visited :
      (r : Visited)
      → Post graph root fresh (λ t. contains t.visited root ≡ true) r
      → Explains (to_resolution r)
  Explains-visited (done t) h = Explains-done t h.0.inv h.1
  Explains-visited (failed (dependency_cycle path)) h = h
  Explains-visited (failed (dependency_unsatisfied p)) h = h
  Explains-visited out_of_fuel h = h

  -- Every resolution ends. A plan lists each plugin behind its dependencies, without repetition, and
  -- holds exactly what the root needs; a reported cycle is a cycle of the graph; a plugin that is
  -- reported as unsatisfied is needed by the root and has no entry.
  pub resolve_lem : Explains (resolve graph root)
  unfolding resolve
  resolve_lem = Explains-visited (resolve_with graph (fuel_of graph) root) resolve_with-Post

  -- A graph with no cycle, in which all that the root needs has an entry, is resolved to a plan.
  pub resolve_plan :
      (rank : Text → ℕ)
      → ((u v : Text) → depends graph u v ≡ true → rank v < rank u)
      → ((p : Text) → Reach graph root p → get graph p ≢ none)
      → (order : List Text) × (resolve graph root ≡ plan order)
  resolve_plan rank falls entered = answer (resolve graph root) resolve_lem
    where
      answer : (r : Resolution) → Explains r → (order : List Text) × (r ≡ plan order)
      answer (plan order) h = (order, refl)
      answer (refused (dependency_cycle path)) (p, inner, e, w) =
          absurd (omega (arith, IsWalk-falls graph rank falls p inner p w))
      answer (refused (dependency_unsatisfied p)) h = absurd (entered p h.1 h.0)
      answer stuck h = absurd h
