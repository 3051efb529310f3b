-- ===== src/Kernel/LoopGuard/Laws.antt =====
-- Which callbacks a guard runs (crates/kernel/src/loop_guard.rs).
use masonwing.Prelude.{
  ℕ, zero, suc, ◌+◌, ◌^◌, ◌≤◌, ◌<◌, ◌≡◌, ◌∙◌, List, [], ◌∷◌, arith, length, ok, err,
}
use Prim.Native.Nat.{min}
use masonwing.Kernel.LoopGuard.{BoundedLoop, limit_reached, new, run_next, run_all}

module _ {W T : Type 0} where
  -- What the first `n` callbacks do to the world.
  abbrev pub first_turns : ℕ → List (W → W × T) → W → W
  first_turns zero ds world = world
  first_turns (suc n) [] world = world
  first_turns (suc n) (dispatch ∷ rest) world = first_turns n rest (dispatch world).0

  run_next_full :
      (g : BoundedLoop) (d : W → W × T) (world : W)
      → g.max_turns ≤ g.completed_turns
      → run_next g d world ≡ (g, world, err limit_reached)
  unfolding run_next
  run_next_full g d world h = ground arith

  run_next_open :
      (g : BoundedLoop) (d : W → W × T) (world : W)
      → g.max_turns < 2 ^ 32
      → g.completed_turns < g.max_turns
      → run_next g d world
        ≡ (record g { completed_turns = g.completed_turns + 1 }, (d world).0, ok (d world).1)
  unfolding run_next
  run_next_open g d world h l = ground arith

  run_all_left :
      (left : ℕ) (g : BoundedLoop) (ds : List (W → W × T)) (world : W)
      → g.max_turns < 2 ^ 32
      → g.completed_turns + left ≡ g.max_turns
      → run_all g ds world ≡ (
        record g { completed_turns = g.completed_turns + min left (length ds) },
        first_turns left ds world,
      )
  unfolding run_all
  run_all_left zero g [] world h e = ground arith
  run_all_left (suc left) g [] world h e = ground arith
  run_all_left zero g (d ∷ rest) world h e =
      rw (run_next_full g d world (omega arith)) (run_all_left zero g rest world h e ∙ ground arith)
  run_all_left (suc left) g (d ∷ rest) world h e = rw (run_next_open g d world h (omega arith)) (
      run_all_left left (record g { completed_turns = g.completed_turns + 1 }) rest (d world).0 h
        (omega arith)
      ∙ ground arith)

  -- Whatever is offered to a new guard, exactly the first `max_turns` callbacks run, in order, and
  -- the guard has counted them.
  pub run_all_bounded :
      (max_turns : ℕ) (ds : List (W → W × T)) (world : W)
      → max_turns < 2 ^ 32
      → run_all (new max_turns) ds world ≡ (
        record { max_turns = max_turns; completed_turns = min max_turns (length ds) },
        first_turns max_turns ds world,
      )
  unfolding new
  run_all_bounded max_turns ds world h =
      run_all_left max_turns (new max_turns) ds world h (omega arith) ∙ ground arith
