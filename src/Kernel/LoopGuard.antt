-- ===== src/Kernel/LoopGuard.antt =====
-- crates/kernel/src/loop_guard.rs: a bound on the turns of an agent loop. The callback is a state
-- transformer of whatever it acts on.
pub mod Laws
use masonwing.Prelude.{
  ℕ, zero, suc, ◌+◌, ◌-◌, ◌*◌, ◌/◌, ◌%◌, ◌^◌, ◌≤◌, ◌<◌, String, ◌≡◌, refl, sym, ap, ap₂, subst, ◌∙◌,
  ◌≢◌, ◌↔◌, ◌⊎◌, inl, inr, Bool, true, false, not, ◌&&◌, ◌||◌, Option, none, some, List, [], ◌∷◌,
  ◌++◌, map, append_assoc, append-nil, arith, ℕ_discrete, ℤ, pos, negsuc, pos_part, neg_part, ltb_ℤ,
  leb_ℤ, ◌≤ℤ◌, ◌<ℤ◌, length, drop, length-append, Result, ok, err, ◌>>=◌, ◌>>◌, guard, ok_or,
  contains, is_subset, contains_subset, is_subset_iff, ltb, leb, ◌==◌, if◌then◌else◌, ==_iff,
  Bool-cases, Option-cases, Text, text, text_eq, text_eq_iff, text_eq_refl,
}

-- Both counters are u32.
pub record BoundedLoop : Type 0 where
  pub max_turns : ℕ
  pub completed_turns : ℕ

pub data LoopError : Type 0 where
  limit_reached : LoopError

unfoldable pub new : ℕ → BoundedLoop
new max_turns = record { max_turns = max_turns; completed_turns = 0 }

module _ {W T : Type 0} where
  -- The guard and the world afterwards, and the result.
  unfoldable pub run_next : BoundedLoop → (W → W × T) → W → BoundedLoop × W × Result T LoopError
  run_next g dispatch world =
      if leb g.max_turns g.completed_turns
      then (g, world, err limit_reached)
      else (let (world', value) = dispatch world in
          (record g { completed_turns = (g.completed_turns + 1) % 2 ^ 32 }, world', ok value))

  -- A caller that offers one callback after another and ignores the results.
  unfoldable pub run_all : BoundedLoop → List (W → W × T) → W → BoundedLoop × W
  run_all g [] world = (g, world)
  run_all g (dispatch ∷ rest) world =
      let (g', world', result) = run_next g dispatch world in run_all g' rest world'
