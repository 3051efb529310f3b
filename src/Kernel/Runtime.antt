-- ===== src/Kernel/Runtime.antt =====
-- crates/kernel/src/runtime.rs: the failures of commands, and the two checks that the file makes.
pub mod Kind
pub mod Failure
pub mod Laws
use masonwing.Prelude.{
  ℕ, zero, suc, ◌+◌, ◌-◌, ◌*◌, ◌/◌, ◌%◌, ◌^◌, ◌≤◌, ◌<◌, String, ◌≡◌, refl, sym, ap, ap₂, subst, ◌∙◌,
  ◌≢◌, ◌↔◌, ◌⊎◌, inl, inr, Bool, true, false, not, ◌&&◌, ◌||◌, Option, none, some, List, [], ◌∷◌,
  ◌++◌, map, append_assoc, append-nil, arith, ℕ_discrete, ℤ, pos, negsuc, pos_part, neg_part, ltb_ℤ,
  leb_ℤ, ◌≤ℤ◌, ◌<ℤ◌, eq_ℤ, suc_ℤ, suc_ℤ_parts, eq_ℤ_iff, length, drop, length-append, Result, ok,
  err, ◌>>=◌, ◌>>◌, guard, ok_or, contains, is_subset, contains_subset, is_subset_iff, ltb, leb,
  ◌==◌, if◌then◌else◌, ==_iff, Bool-cases, Option-cases, Text, text, text_eq, text_eq_iff,
  text_eq_refl,
}
use Failure.{CommandFailure}

pub record PageQuery : Type 0 where
  pub cursor : Option Text
  pub limit : Option ℕ
  pub q : Option Text

abbrev unwrap_or : Option ℕ → ℕ → ℕ
unwrap_or none default = default
unwrap_or (some n) default = n

-- The limit is a u32.
unfoldable pub checked_limit : PageQuery → Result ℕ CommandFailure
checked_limit query =
    let limit = unwrap_or query.limit 50 in
    if leb 1 limit && leb limit 200
    then ok limit
    else err (Failure.invalid (text "PAGE_LIMIT_INVALID"))

abbrev pub stale_version : CommandFailure
stale_version = Failure.conflict (text "STALE_VERSION")

abbrev pub version_exhausted : CommandFailure
version_exhausted = Failure.precondition (text "VERSION_EXHAUSTED")

abbrev pub i32_max : ℤ
i32_max = pos 2147483647

-- `i32::checked_add(1)`
abbrev checked_add_one : ℤ → Option ℤ
checked_add_one a = if leb_ℤ i32_max a then none else some (suc_ℤ a)

unfoldable pub require_expected_version : ℤ → ℤ → Result ℤ CommandFailure
require_expected_version actual expected =
    if not (eq_ℤ actual expected)
    then err stale_version
    else ok_or (checked_add_one actual) version_exhausted
