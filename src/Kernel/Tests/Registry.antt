-- ===== src/Kernel/Tests/Registry.antt =====
-- Dependency resolution and installation at concrete graphs.
use masonwing.Prelude.{
  ℕ, ◌<◌, ◌≡◌, refl, ◌≢◌, ◌⊎◌, inl, inr, true, none, List, [], ◌∷◌, arith, map_get, contains,
  if◌then◌else◌, Text, text, text_eq, text_eq_iff,
}
use masonwing.Kernel.Registry.{
  DependencyGraph, insert, get, resolve, plan, refused, dependency_cycle, dependency_unsatisfied,
}
use masonwing.Kernel.Registry.Walks.{depends, Reach, here, further}
use masonwing.Kernel.Registry.Resolve.{Explains, resolve_lem, resolve_plan}
use masonwing.Kernel.Registry.Install.{
  InstallRegistry, install_with_migration, migrate_all, Installs, install_with_migration_lem,
}

abbrev a : Text
a = text "a"

abbrev b : Text
b = text "b"

abbrev c : Text
c = text "c"

-- `a` needs `b` and `c`, `b` needs `c`.
abbrev diamond : DependencyGraph
diamond = record { dependencies = (a, b ∷ c ∷ []) ∷ (b, c ∷ []) ∷ (c, []) ∷ [] }

-- `a` and `b` need one another.
abbrev loop : DependencyGraph
loop = record { dependencies = (a, b ∷ []) ∷ (b, a ∷ []) ∷ [] }

built : insert (insert (record { dependencies = [] }) a (b ∷ [])) b (a ∷ []) ≡ loop
unfolding insert
built = refl

diamond_plan : resolve diamond a ≡ plan (c ∷ b ∷ a ∷ [])
unfolding resolve
diamond_plan = refl

loop_cycle : resolve loop a ≡ refused (dependency_cycle (a ∷ b ∷ a ∷ []))
unfolding resolve
loop_cycle = refl

missing_plugin :
    resolve (record { dependencies = (a, b ∷ []) ∷ [] }) a ≡ refused (dependency_unsatisfied b)
unfolding resolve
missing_plugin = refl

resolve_lem_example : Explains diamond a (resolve diamond a)
resolve_lem_example = resolve_lem diamond a

-- `a` needs `b` alone.
abbrev chain : DependencyGraph
chain = record { dependencies = (a, b ∷ []) ∷ (b, []) ∷ [] }

abbrev rank : Text → ℕ
rank x = if text_eq a x then 1 else 0

chain_falls : (u v : Text) → depends chain u v ≡ true → rank v < rank u
unfolding depends get map_get contains
chain_falls u v h = ground (arith, text_eq_iff a v, text_eq_iff b v)

Entered : Text → Type 0
Entered p = (p ≡ a) ⊎ (p ≡ b)

chain_entered : (u v : Text) → depends chain u v ≡ true → v ≡ b
unfolding depends get map_get contains
chain_entered u v h = ground (arith, text_eq_iff b v)

chain-Reach : {p : Text} → Reach chain a p → Entered p
unfolding Entered
chain-Reach here = inl refl
chain-Reach (further {u = u} {v = v} r e) = inr (chain_entered u v e)

Entered-get : (p : Text) → Entered p → get chain p ≢ none
unfolding Entered get
Entered-get p (inl e) = rw e (λ n. cc)
Entered-get p (inr e) = rw e (λ n. cc)

resolve_plan_example : (order : List Text) × (resolve chain a ≡ plan order)
resolve_plan_example = resolve_plan chain a rank chain_falls (λ p r. Entered-get p (chain-Reach r))

abbrev registry : InstallRegistry
registry = record { installed = b ∷ [] }

abbrev migrate : Text → List Text → List Text
migrate p world = p ∷ world

install_with_migration_lem_example :
    ((install_with_migration registry diamond a migrate []).2 ≡ resolve diamond a)
    × Installs registry diamond a migrate [] (install_with_migration registry diamond a migrate [])
install_with_migration_lem_example = install_with_migration_lem registry diamond a migrate []

installed_order : (install_with_migration registry diamond a migrate []).1 ≡ a ∷ b ∷ c ∷ []
unfolding install_with_migration migrate_all resolve
installed_order = refl
