-- ===== src/Kernel/Runtime/Laws.antt =====
-- Optimistic versions (crates/kernel/src/runtime.rs).
use masonwing.Prelude.{◌≡◌, ◌≢◌, ◌↔◌, arith, ℤ, ◌≤ℤ◌, ◌<ℤ◌, suc_ℤ, suc_ℤ_parts, eq_ℤ_iff, ok, err}
use masonwing.Kernel.Runtime.{i32_max, stale_version, version_exhausted, require_expected_version}

-- A write succeeds exactly at the version it expects, below the largest i32; the new version is the
-- next one. At the largest version it is refused as exhausted, elsewhere as stale.
pub require_expected_version_lem :
    (actual expected next : ℤ)
    → ((require_expected_version actual expected ≡ ok next)
        ↔ ((actual ≡ expected) × (actual <ℤ i32_max) × (next ≡ suc_ℤ actual)))
      × ((require_expected_version actual expected ≡ err stale_version) ↔ (actual ≢ expected))
      × ((require_expected_version actual expected ≡ err version_exhausted)
          ↔ ((actual ≡ expected) × (i32_max ≤ℤ actual)))
unfolding require_expected_version
require_expected_version_lem actual expected next =
    ground (arith, eq_ℤ_iff actual expected, suc_ℤ_parts actual)

-- Of two writers that expect the same version, the second is refused as stale.
pub no_lost_update :
    (actual expected next : ℤ)
    → require_expected_version actual expected ≡ ok next
    → require_expected_version next expected ≡ err stale_version
unfolding require_expected_version
no_lost_update actual expected next h =
    ground (arith, eq_ℤ_iff actual expected, eq_ℤ_iff next expected, suc_ℤ_parts actual)
