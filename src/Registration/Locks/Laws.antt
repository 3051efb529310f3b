-- ===== src/Registration/Locks/Laws.antt =====
-- Which locks are accepted (platform-plugins/data-postgres/src/registry_validation.rs).
use masonwing.Prelude.{
  ◌≤◌, ◌≡◌, refl, ◌↔◌, Bool, true, false, not, ◌&&◌, List, [], ◌∷◌, map, arith, length, All, ok,
  ◌>>=◌, guard, contains, ltb, leb, Text, text, text_eq, text_eq_iff,
}
use masonwing.Registration.Failures.{lock_invalid}
use masonwing.Registration.Locks.{LockedPlugin, PluginLock, plugins_fit, validate_lock}
use masonwing.Registration.Manifests.Sets.{AreDistinct, new_iff}

-- A lock of the product, with an exact version for each of at least one and at most a hundred
-- plugins.
pub record IsClosed (lock : PluginLock) (product : Text) : Type 0 where
  pub schema : lock.schema_version ≡ text "1.0.0"
  pub owner : lock.product_id ≡ product
  pub some_plugin : 1 ≤ length lock.plugins
  pub few_plugins : length lock.plugins ≤ 100
  pub versions : All (λ (p : LockedPlugin). p.contract_version ≡ text "1.0.0") lock.plugins
  pub distinct : AreDistinct (map (λ (p : LockedPlugin). p.plugin_id) lock.plugins)

abbrev ids_of : List LockedPlugin → List Text
ids_of = map (λ (p : LockedPlugin). p.plugin_id)

-- What is asked of the plugins behind those seen.
abbrev AreLocked : List Text → List LockedPlugin → Type 0
AreLocked seen ps =
    All (λ (p : LockedPlugin). p.contract_version ≡ text "1.0.0") ps
    × All (λ y. contains seen y ≡ false) (ids_of ps)
    × AreDistinct (ids_of ps)

plugins_fit-AreLocked :
    (seen : List Text) (ps : List LockedPlugin) → plugins_fit seen ps ≡ true → AreLocked seen ps
unfolding plugins_fit
plugins_fit-AreLocked seen [] h = (tt, tt, tt)
plugins_fit-AreLocked seen (p ∷ rest) h =
    let (new, version, h1) = tests _ _ _ h in
    let (versions, fresh, distinct) = plugins_fit-AreLocked (p.plugin_id ∷ seen) rest h1 in
    let (others, later) = (new_iff p.plugin_id seen (ids_of rest)).0 fresh in
    (
      ((text_eq_iff p.contract_version (text "1.0.0")).0 version, versions),
      (new, later),
      (others, distinct),
    )
  where
    tests : (a b c : Bool) → (not a && b && c) ≡ true → (a ≡ false) × (b ≡ true) × (c ≡ true)
    tests a b c k = ground arith

AreLocked-plugins_fit :
    (seen : List Text) (ps : List LockedPlugin) → AreLocked seen ps → plugins_fit seen ps ≡ true
unfolding plugins_fit
AreLocked-plugins_fit seen [] h = refl
AreLocked-plugins_fit seen (p ∷ rest) ((version, versions), (new, later), (others, distinct)) =
    let exact : text_eq p.contract_version (text "1.0.0") ≡ true =
      (text_eq_iff p.contract_version (text "1.0.0")).1 version in
    let fresh = (new_iff p.plugin_id seen (ids_of rest)).1 (others, later) in
    let fits : plugins_fit (p.plugin_id ∷ seen) rest ≡ true =
      AreLocked-plugins_fit (p.plugin_id ∷ seen) rest (versions, fresh, distinct) in
    rw (new, exact, fits) refl

nothing_seen : (ys : List Text) → All (λ y. contains [] y ≡ false) ys
unfolding contains
nothing_seen [] = tt
nothing_seen (y ∷ ys) = (refl, nothing_seen ys)

guards :
    (b c : Bool)
    → ((guard b lock_invalid >>= λ _. guard c lock_invalid) ≡ ok tt) ↔ ((b ≡ true) × (c ≡ true))
guards true true = (λ h. (refl, refl), λ h. refl)
guards true false = (λ h. absurd cc, λ h. absurd cc)
guards false c = (λ h. absurd cc, λ h. absurd cc)

-- The validation accepts exactly the locks of the product that give one exact version to each of
-- between one and a hundred plugins.
pub validate_lock_iff :
    (lock : PluginLock) (product : Text)
    → (validate_lock lock product ≡ ok tt) ↔ IsClosed lock product
unfolding validate_lock
validate_lock_iff lock product = (forward, backward)
  where
    forward : validate_lock lock product ≡ ok tt → IsClosed lock product
    forward h =
        let (first, fits) = (guards _ _).0 h in
        let (versions, _, distinct) = plugins_fit-AreLocked [] lock.plugins fits in
        let (schema, owner, some_plugin, few_plugins) = parts _ _ _ _ first in
        record {
          schema = (text_eq_iff lock.schema_version (text "1.0.0")).0 schema;
          owner = (text_eq_iff lock.product_id product).0 owner;
          some_plugin = ground arith;
          few_plugins = ground arith;
          versions = versions;
          distinct = distinct;
        }
      where
        parts :
            (a b c d : Bool)
            → (a && b && c && d) ≡ true
            → (a ≡ true) × (b ≡ true) × (c ≡ true) × (d ≡ true)
        parts a b c d k = ground arith

    backward : IsClosed lock product → validate_lock lock product ≡ ok tt
    backward h =
        let schema : text_eq lock.schema_version (text "1.0.0") ≡ true =
          (text_eq_iff lock.schema_version (text "1.0.0")).1 h.schema in
        let owner : text_eq lock.product_id product ≡ true =
          (text_eq_iff lock.product_id product).1 h.owner in
        let some_plugin : ltb 0 (length lock.plugins) ≡ true = ground (arith, h.some_plugin) in
        let few_plugins : leb (length lock.plugins) 100 ≡ true = ground (arith, h.few_plugins) in
        (guards _ _).1 (
          rw (schema, owner, some_plugin, few_plugins) refl,
          AreLocked-plugins_fit [] lock.plugins
              (h.versions, nothing_seen (ids_of lock.plugins), h.distinct),
        )
