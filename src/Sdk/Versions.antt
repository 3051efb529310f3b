-- ===== src/Sdk/Versions.antt =====
-- crates/sdk/src/lib.rs: `ensure_contract_compatible`. `str::parse::<u64>` takes one leading plus sign,
-- then at least one digit and nothing else, and refuses what is above the largest u64.
pub mod Laws
use masonwing.Prelude.{
  ℕ, zero, suc, ◌+◌, ◌-◌, ◌*◌, ◌/◌, ◌%◌, ◌^◌, ◌≤◌, ◌<◌, String, ◌≡◌, refl, sym, ap, ap₂, subst, ◌∙◌,
  ◌≢◌, ◌↔◌, ◌⊎◌, inl, inr, Bool, true, false, not, ◌&&◌, ◌||◌, Option, none, some, List, [], ◌∷◌,
  ◌++◌, map, append_assoc, append-nil, arith, ℕ_discrete, dec_le, ℤ, pos, negsuc, pos_part,
  neg_part, ltb_ℤ, leb_ℤ, ◌≤ℤ◌, ◌<ℤ◌, eq_ℤ, suc_ℤ, suc_ℤ_parts, eq_ℤ_iff, length, drop,
  length-append, map_insert, map_get, map_get-insert, Result, ok, err, ◌>>=◌, ◌>>◌, guard, ok_or,
  contains, is_subset, contains_subset, is_subset_iff, contains-append, contains-singleton,
  is_subset_mono, contains-head, contains-tail, ltb, leb, ◌==◌, if◌then◌else◌, ==_iff, Bool-cases,
  Option-cases, Text, text, text_eq, text_eq_iff, text_eq_refl,
}
use masonwing.Sdk.Errors.{SdkError, contract_incompatible}

-- `split('.')`: the first part and the others.
unfoldable pub split_dot : Text → Text × List Text
split_dot [] = ([], [])
split_dot (b ∷ s) =
    let (part, parts) = split_dot s in if b == b'.' then ([], part ∷ parts) else (b ∷ part, parts)

-- The digits of a number behind those that make `acc`.
unfoldable pub parse_digits : ℕ → Text → Option ℕ
parse_digits acc [] = some acc
parse_digits acc (b ∷ s) =
    let rest = parse_digits (acc * 10 + (b - b'0')) s in
    if leb b'0' b && leb b b'9' && ltb (acc * 10 + (b - b'0')) (2 ^ 64) then rest else none

unfoldable pub parse_number : Text → Option ℕ
parse_number [] = none
parse_number (b ∷ s) = parse_digits 0 (b ∷ s)

unfoldable pub parse_u64 : Text → Option ℕ
unfolding parse_number
parse_u64 [] = none
parse_u64 (b ∷ s) = if b == b'+' then parse_number s else parse_number (b ∷ s)

-- `Some` of the major version 1.
abbrev pub is_one : Option ℕ → Bool
is_one none = false
is_one (some n) = n == 1

abbrev pub is_some : Option ℕ → Bool
is_some none = false
is_some (some n) = true

unfoldable pub compatible : Text × List Text → Bool
compatible (major, minor ∷ patch ∷ []) =
    is_some (parse_u64 minor) && is_some (parse_u64 patch) && is_one (parse_u64 major)
compatible _ = false

unfoldable pub ensure_contract_compatible : Text → Result (Unit {0}) SdkError
unfolding split_dot compatible parse_u64
ensure_contract_compatible required =
    if compatible (split_dot required) then ok tt else err (contract_incompatible required)
