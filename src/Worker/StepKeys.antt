-- ===== src/Worker/StepKeys.antt =====
-- crates/worker/src/run_interpreter.rs: the keys of logical steps, `{seq:04}:{node_id}`.
pub mod Laws
use masonwing.Prelude.{
  ℕ, zero, suc, ◌+◌, ◌-◌, ◌*◌, ◌/◌, ◌%◌, ◌^◌, ◌≤◌, ◌<◌, String, ◌≡◌, refl, sym, ap, ap₂, subst, ◌∙◌,
  ◌≢◌, ◌↔◌, ◌⊎◌, inl, inr, Bool, true, false, not, ◌&&◌, ◌||◌, Option, none, some, List, [], ◌∷◌,
  ◌++◌, map, append_assoc, append-nil, arith, ℕ_discrete, ℤ, pos, negsuc, pos_part, neg_part, ltb_ℤ,
  leb_ℤ, ◌≤ℤ◌, ◌<ℤ◌, eq_ℤ, suc_ℤ, suc_ℤ_parts, eq_ℤ_iff, length, drop, length-append, map_insert,
  map_get, map_get-insert, Result, ok, err, ◌>>=◌, ◌>>◌, guard, ok_or, contains, is_subset,
  contains_subset, is_subset_iff, contains-append, contains-singleton, is_subset_mono,
  contains-head, contains-tail, ltb, leb, ◌==◌, if◌then◌else◌, ==_iff, Bool-cases, Option-cases,
  Text, text, text_eq, text_eq_iff, text_eq_refl,
}

-- The decimal digits of `n`, in front of `rest`. A u32 has at most ten.
unfoldable pub digits_from : ℕ → ℕ → Text → Text
digits_from zero n rest = rest
digits_from (suc fuel) n rest =
    let shorter = digits_from fuel (n / 10) ((b'0' + n % 10) ∷ rest) in
    if ltb n 10 then (b'0' + n) ∷ rest else shorter

unfoldable pub decimal : ℕ → Text
unfolding digits_from
decimal n = digits_from 10 n []

unfoldable pub pad_zeros : ℕ → Text → Text
pad_zeros zero s = s
pad_zeros (suc n) s = b'0' ∷ pad_zeros n s

-- `{seq:04}`
unfoldable pub padded : ℕ → Text
unfolding decimal pad_zeros
padded seq = pad_zeros (4 - length (decimal seq)) (decimal seq)

unfoldable pub logical_step_key : ℕ → Text → Text
unfolding padded
logical_step_key seq node_id = padded seq ++ b':' ∷ node_id

-- `split_once(':')`, of which the second part is used.
unfoldable pub after_colon : Text → Option Text
after_colon [] = none
after_colon (c ∷ s) = if c == b':' then some s else after_colon s

abbrev non_empty : Option Text → Option Text
non_empty none = none
non_empty (some []) = none
non_empty (some (c ∷ s)) = some (c ∷ s)

unfoldable pub node_id_from_logical_step_id : Text → Option Text
unfolding after_colon
node_id_from_logical_step_id s = non_empty (after_colon s)
