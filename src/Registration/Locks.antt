-- ===== src/Registration/Locks.antt =====
-- platform-plugins/data-postgres/src/registry_validation.rs: the lock of a product and `validate_lock`.
pub mod Laws
use masonwing.Prelude.{
  ℕ, zero, suc, ◌+◌, ◌-◌, ◌*◌, ◌/◌, ◌%◌, ◌^◌, ◌≤◌, ◌<◌, String, ◌≡◌, refl, sym, ap, ap₂, subst, ◌∙◌,
  ◌≢◌, ◌↔◌, ◌⊎◌, inl, inr, Bool, true, false, not, ◌&&◌, ◌||◌, Option, none, some, List, [], ◌∷◌,
  ◌++◌, map, append_assoc, append-nil, arith, ℕ_discrete, dec_le, ℤ, pos, negsuc, pos_part,
  neg_part, ltb_ℤ, leb_ℤ, ◌≤ℤ◌, ◌<ℤ◌, eq_ℤ, suc_ℤ, suc_ℤ_parts, eq_ℤ_iff, length, drop,
  length-append, All, Any, map_insert, map_get, map_get-insert, Result, ok, err, ◌>>=◌, ◌>>◌, guard,
  ok_or, bind_ok, ok-injective, contains, is_subset, contains_subset, is_subset_iff,
  contains-append, contains-singleton, is_subset_mono, contains-head, contains-tail, ltb, leb, ◌==◌,
  if◌then◌else◌, ==_iff, Bool-cases, Option-cases, Text, text, text_eq, text_eq_iff, text_eq_refl,
}
use masonwing.Kernel.Runtime.Failure.{CommandFailure}
use masonwing.Registration.Failures.{lock_invalid}

pub record LockedPlugin : Type 0 where
  pub plugin_id : Text
  pub artifact_digest : Text
  pub contract_version : Text

pub record PluginLock : Type 0 where
  pub schema_version : Text
  pub product_id : Text
  pub plugins : List LockedPlugin

unfoldable pub plugins_fit : List Text → List LockedPlugin → Bool
unfolding contains text_eq
plugins_fit ids [] = true
plugins_fit ids (p ∷ rest) =
    not (contains ids p.plugin_id)
    && text_eq p.contract_version (text "1.0.0")
    && plugins_fit (p.plugin_id ∷ ids) rest

unfoldable pub validate_lock : PluginLock → Text → Result (Unit {0}) CommandFailure
unfolding plugins_fit text_eq
validate_lock lock product =
    guard
      (text_eq lock.schema_version (text "1.0.0")
        && text_eq lock.product_id product
        && ltb 0 (length lock.plugins)
        && leb (length lock.plugins) 100)
      lock_invalid
    >>= λ _. guard (plugins_fit [] lock.plugins) lock_invalid
