-- ===== src/Kernel/Registry/Install.antt =====
-- crates/kernel/src/registry.rs: `InstallRegistry`. The migration callback is a transformer of
-- whatever it acts on.
use masonwing.Prelude.{
  ◌≡◌, refl, ◌∙◌, inl, inr, Bool, ◌||◌, List, [], ◌∷◌, arith, contains, if◌then◌else◌, Bool-cases,
  Text, text_eq, text_eq_iff,
}
use masonwing.Kernel.Registry.Resolve.{Explains, resolve_lem}
use masonwing.Kernel.Registry.{DependencyGraph, Resolution, plan, refused, stuck, resolve}

pub record InstallRegistry : Type 0 where
  pub installed : List Text

-- `BTreeSet::extend`
unfoldable pub extend : List Text → List Text → List Text
unfolding contains
extend set [] = set
extend set (p ∷ rest) = extend (if contains set p then set else p ∷ set) rest

module _ {W : Type 0} where
  unfoldable pub migrate_all : (Text → W → W) → List Text → W → W
  migrate_all migrate [] world = world
  migrate_all migrate (p ∷ rest) world = migrate_all migrate rest (migrate p world)

  -- What follows `graph.resolve(root)?`.
  install_plan :
      InstallRegistry → (Text → W → W) → W → Resolution → InstallRegistry × W × Resolution
  install_plan registry migrate world (plan order) = (
    record { installed = extend registry.installed order },
    migrate_all migrate order world,
    plan order,
  )
  install_plan registry migrate world r = (registry, world, r)

  -- The registry and the world afterwards, and the result.
  unfoldable pub install_with_migration :
      InstallRegistry
      → DependencyGraph
      → Text
      → (Text → W → W)
      → W
      → InstallRegistry × W × Resolution
  unfolding install_plan
  install_with_migration registry graph root migrate world =
      install_plan registry migrate world (resolve graph root)

contains_added :
    (set : List Text) (p a : Text) (rest : Bool)
    → (contains (if contains set p then set else p ∷ set) a || rest)
      ≡ (contains set a || (text_eq p a || rest))
unfolding contains
contains_added set p a rest = elim (Bool-cases (contains set p)) [
  | inl old ↦ rw old (ground (arith, text_eq_iff p a))
  | inr new ↦ rw new (ground arith)
]

pub contains-extend :
    (set xs : List Text) (a : Text) → contains (extend set xs) a ≡ (contains set a || contains xs a)
unfolding extend contains
contains-extend set [] a = ground arith
contains-extend set (p ∷ rest) a =
    contains-extend (if contains set p then set else p ∷ set) rest a
    ∙ contains_added set p a (contains rest a)

-- The callback has run once for each plugin of the order, one behind the other, and led from the one
-- world to the other.
pub data HaveRun {W : Type 0} (migrate : Text → W → W) : List Text → W → W → Type 0 where
  none_left : {world : W} → HaveRun migrate [] world world
  ran_first :
      {p : Text} {rest : List Text} {world after : W}
      → HaveRun migrate rest (migrate p world) after
      → HaveRun migrate (p ∷ rest) world after

migrate_all-HaveRun :
    {W : Type 0} (migrate : Text → W → W) (order : List Text) (world : W)
    → HaveRun migrate order world (migrate_all migrate order world)
unfolding migrate_all
migrate_all-HaveRun migrate [] world = none_left
migrate_all-HaveRun migrate (p ∷ rest) world =
    ran_first (migrate_all-HaveRun migrate rest (migrate p world))

module _ {W : Type 0} (registry : InstallRegistry) (graph : DependencyGraph) (root : Text)
    (migrate : Text → W → W) (world : W) where
  -- What an installation did, by its result: a refusal changed neither the registry nor the world; a
  -- plan ran the callback for each of its plugins in its own order, and the installed plugins are the former and the plan's.
  abbrev pub Installs : InstallRegistry × W × Resolution → Type 0
  Installs (after, world', plan order) =
      HaveRun migrate order world world'
      × ((a : Text)
          → contains after.installed a ≡ (contains registry.installed a || contains order a))
  Installs (after, world', refused e) = (world' ≡ world) × (after ≡ registry)
  Installs (after, world', stuck) = ⊥

  install_plan_lem :
      (r : Resolution)
      → Explains graph root r
      → ((install_plan registry migrate world r).2 ≡ r)
        × Installs (install_plan registry migrate world r)
  unfolding install_plan
  install_plan_lem (plan order) h =
      (refl, (migrate_all-HaveRun migrate order world, contains-extend registry.installed order))
  install_plan_lem (refused e) h = (refl, (refl, refl))
  install_plan_lem stuck h = absurd h

  -- An installation returns what `resolve` returns, which is a plan or a refusal. On a refusal the registry and the world are as
  -- before. On a plan the callback has run once for each plugin of the plan, in its order, and the
  -- plugins installed are those installed before and those of the plan.
  pub install_with_migration_lem :
      ((install_with_migration registry graph root migrate world).2 ≡ resolve graph root)
      × Installs (install_with_migration registry graph root migrate world)
  unfolding install_with_migration
  install_with_migration_lem = install_plan_lem (resolve graph root) (resolve_lem graph root)
