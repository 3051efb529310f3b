-- ===== src/Registration/Workflows/Acyclic.antt =====
-- Graphs of which a plan was made (crates/kernel/src/registry.rs).
use masonwing.Prelude.{
  ℕ, suc, ◌<◌, ◌≡◌, refl, sym, subst, inl, inr, true, false, List, [], ◌∷◌, ◌++◌, arith, contains,
  contains_subset, contains-append, contains-singleton, if◌then◌else◌, Bool-cases, Text, text_eq,
  text_eq_iff,
}
use masonwing.Kernel.Registry.{DependencyGraph}
use masonwing.Kernel.Registry.Walks.{depends, depends_listed, IsWalk}
use masonwing.Kernel.Registry.Order.{IsReady, IsOrdered}

-- The position in a list.
place : List Text → Text → ℕ
place [] a = 0
place (x ∷ xs) a = if text_eq x a then 0 else suc (place xs a)

module _ (graph : DependencyGraph) where
  IsReady-depends :
      (before : List Text) (p v : Text)
      → IsReady graph before p
      → depends graph p v ≡ true
      → contains before v ≡ true
  IsReady-depends before p v (deps, entry, listed, _) e =
      contains_subset deps before v listed (depends_listed graph p v deps entry e)

  -- What a member of the rest of an order needs is among those before, or earlier in the rest.
  IsOrdered-falls :
      (before rest : List Text) (u v : Text)
      → IsOrdered graph before rest
      → contains rest u ≡ true
      → contains before v ≡ false
      → depends graph u v ≡ true
      → (contains rest v ≡ true) × (place rest v < place rest u)
  unfolding contains place
  IsOrdered-falls before [] u v h m new e = absurd cc
  IsOrdered-falls before (p ∷ rest) u v (ready, h) m new e = elim (Bool-cases (text_eq p u)) [
    | inl same ↦ absurd (
        let needed : contains before v ≡ true =
          IsReady-depends before p v ready
            (subst (λ (x : Text). depends graph x v ≡ true) (sym ((text_eq_iff p u).0 same)) e) in
        cc)
    | inr other ↦ elim (Bool-cases (text_eq p v)) [
      | inl first ↦ rw (first, other) (refl, omega arith)
      | inr later ↦
          let (member, lower) =
            IsOrdered-falls (before ++ p ∷ []) rest u v h (rw other at m)
              (rw (contains-append before (p ∷ []) v, contains-singleton p v, new, later) refl) e in
          rw (later, other) (member, omega arith)
    ]
  ]

  -- A walk from a member of an order falls in position.
  IsWalk-place :
      (order : List Text) (x : Text) (xs : List Text) (last : Text)
      → IsOrdered graph [] order
      → contains order x ≡ true
      → IsWalk graph (x ∷ xs) last
      → place order last < place order x
  unfolding contains
  IsWalk-place order x [] last h m w = (IsOrdered-falls [] order x last h m refl w.0).1
  IsWalk-place order x (y ∷ xs) last h m w =
      let (member, lower) = IsOrdered-falls [] order x y h m refl w.0 in
      omega (arith, lower, IsWalk-place order y xs last h member w.1)

  -- No walk leads from a member of an order back to it.
  pub no_cycle :
      (order : List Text) (p : Text) (inner : List Text)
      → IsOrdered graph [] order
      → contains order p ≡ true
      → ¬ IsWalk graph (p ∷ inner) p
  no_cycle order p inner h m w = absurd (omega (arith, IsWalk-place order p inner p h m w))
