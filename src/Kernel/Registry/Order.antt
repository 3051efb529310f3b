-- ===== src/Kernel/Registry/Order.antt =====
-- Orders in which every plugin stands behind its dependencies (crates/kernel/src/registry.rs).
use masonwing.Prelude.{
  ◌≡◌, true, false, some, List, [], ◌∷◌, ◌++◌, append_assoc, append-nil, contains, is_subset, Text,
}
use masonwing.Kernel.Registry.{DependencyGraph, get}

module _ (graph : DependencyGraph) where
  -- `p` is new, has an entry, and all that the entry names comes before.
  abbrev pub IsReady : List Text → Text → Type 0
  IsReady before p =
      (deps : List Text) × (get graph p ≡ some deps)
      × (is_subset deps before ≡ true)
      × (contains before p ≡ false)

  abbrev pub IsOrdered : List Text → List Text → Type 0
  IsOrdered before [] = Unit
  IsOrdered before (p ∷ rest) = IsReady before p × IsOrdered (before ++ p ∷ []) rest

  pub IsOrdered-concat :
      (before xs : List Text) (p : Text)
      → IsOrdered before xs
      → IsReady (before ++ xs) p
      → IsOrdered before (xs ++ p ∷ [])
  IsOrdered-concat before [] p h ready = (rw append-nil at ready, tt)
  IsOrdered-concat before (x ∷ xs) p h ready =
      (h.0, IsOrdered-concat (before ++ x ∷ []) xs p h.1 (rw append_assoc ready))
