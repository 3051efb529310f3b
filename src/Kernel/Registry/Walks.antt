-- ===== src/Kernel/Registry/Walks.antt =====
-- The dependency relation of a graph, its walks and its cycles (crates/kernel/src/registry.rs).
use masonwing.Prelude.{
  ℕ, ◌<◌, ◌≡◌, refl, subst, inl, inr, Bool, true, false, Option, none, some, List, [], ◌∷◌, ◌++◌,
  arith, contains, Bool-cases, Text, text_eq, text_eq_iff,
}
use masonwing.Kernel.Registry.{DependencyGraph, get, from_position}

abbrev lists : Option (List Text) → Text → Bool
lists none v = false
lists (some deps) v = contains deps v

module _ (graph : DependencyGraph) where
  -- `u` has an entry that names `v`.
  unfoldable pub depends : Text → Text → Bool
  depends u v = lists (get graph u) v

  pub depends_entry :
      (u v : Text) (deps : List Text)
      → get graph u ≡ some deps
      → contains deps v ≡ true
      → depends u v ≡ true
  unfolding depends
  depends_entry u v deps e m = rw e m

  pub depends_listed :
      (u v : Text) (deps : List Text)
      → get graph u ≡ some deps
      → depends u v ≡ true
      → contains deps v ≡ true
  unfolding depends
  depends_listed u v deps e d = rw e at d

  abbrev pub head_or : List Text → Text → Text
  head_or [] last = last
  head_or (x ∷ _) last = x

  -- The list, followed by `last`, goes along dependencies.
  abbrev pub IsWalk : List Text → Text → Type 0
  IsWalk [] last = Unit
  IsWalk (x ∷ xs) last = (depends x (head_or xs last) ≡ true) × IsWalk xs last

  pub IsWalk-concat :
      (xs : List Text) (p d : Text) → IsWalk xs p → depends p d ≡ true → IsWalk (xs ++ p ∷ []) d
  IsWalk-concat [] p d w e = (e, tt)
  IsWalk-concat (x ∷ []) p d w e = (w.0, (e, tt))
  IsWalk-concat (x ∷ y ∷ xs) p d w e = (w.0, IsWalk-concat (y ∷ xs) p d w.1 e)

  -- A numbering that falls along dependencies falls along a walk.
  pub IsWalk-falls :
      (rank : Text → ℕ)
      → ((u v : Text) → depends u v ≡ true → rank v < rank u)
      → (x : Text) (xs : List Text) (last : Text) → IsWalk (x ∷ xs) last
      → rank last < rank x
  IsWalk-falls rank falls x [] last w = falls x last w.0
  IsWalk-falls rank falls x (y ∷ xs) last w =
      omega (arith, falls x y w.0, IsWalk-falls rank falls y xs last w.1)

  -- A walk of at least one step that ends where it began.
  abbrev pub IsCycle : List Text → Type 0
  IsCycle path =
      (p : Text) × (inner : List Text) × (path ≡ p ∷ (inner ++ p ∷ [])) × IsWalk (p ∷ inner) p

  -- What the root needs, directly or through others.
  pub data Reach (root : Text) : Text → Type 0 where
    here : Reach root root
    further : {u v : Text} → Reach root u → depends u v ≡ true → Reach root v

  pub from_position-IsCycle :
      (xs : List Text) (p : Text) (cycle : List Text)
      → from_position p xs ≡ some cycle
      → IsWalk xs p
      → IsCycle (cycle ++ p ∷ [])
  unfolding from_position
  from_position-IsCycle [] p cycle h w = cc
  from_position-IsCycle (x ∷ xs) p cycle h w = elim (Bool-cases (text_eq x p)) [
    | inl same ↦ (
      p,
      xs,
      cc ((text_eq_iff x p).0 same, rw same at h),
      subst (λ (y : Text). IsWalk (y ∷ xs) p) ((text_eq_iff x p).0 same) w,
    )
    | inr other ↦ from_position-IsCycle xs p cycle (rw other at h) w.1
  ]

pub from_position-none :
    (xs : List Text) (p : Text) → from_position p xs ≡ none → contains xs p ≡ false
unfolding from_position contains
from_position-none [] p h = refl
from_position-none (x ∷ xs) p h = ground (arith, from_position-none xs p)
