-- ===== src/Effects/Dispatch.antt =====
-- platform-plugins/data-postgres/src/effect_commands.rs: `dispatch_effect` and `reconcile_effect`, with
-- the kill switches of administration.rs. `now` is the clock of the database.
use masonwing.Prelude.{
  ℕ, ◌+◌, Bool, true, false, not, ◌&&◌, ◌||◌, Option, none, some, List, [], ◌∷◌, ℤ, pos, pos_part,
  map_get, Result, ok, err, ◌>>=◌, ◌>>◌, guard, contains, ltb, if◌then◌else◌, Text, text, text_eq,
}
use masonwing.Kernel.Runtime.Failure.{CommandFailure, precondition, conflict}
use masonwing.Kernel.Runtime.{require_expected_version}
use masonwing.Ledger.Tables.{constraint_invalid}
use masonwing.Approvals.Tables.{Approval}
use masonwing.Effects.Tables.{
  Effect, KillSwitch, Store, Answer, written, locked_effect, illegal_transition,
}

-- `target_id = $n`, where `$n` may be NULL.
abbrev is_target : Option Text → Text → Bool
unfolding text_eq
is_target none target_id = false
is_target (some t) target_id = text_eq target_id t

unfoldable pub is_stopped : List KillSwitch → Text → Option Text → Option Text → Bool
unfolding text_eq
is_stopped [] tenant plugin connection = false
is_stopped (k ∷ rest) tenant plugin connection =
    (k.active
      && ((text_eq k.scope (text "TENANT") && text_eq k.target_id tenant)
          || (text_eq k.scope (text "PLUGIN") && is_target plugin k.target_id)
          || (text_eq k.scope (text "CONNECTION") && is_target connection k.target_id)))
    || is_stopped rest tenant plugin connection

unfoldable pub require_dispatch_enabled :
    Store → Option Text → Option Text → Result (Unit {0}) CommandFailure
unfolding is_stopped
require_dispatch_enabled s plugin connection =
    guard (not (is_stopped s.kill_switches s.tenant_id plugin connection))
      (precondition (text "KILL_SWITCH_ACTIVE"))

abbrev pub blocking_states : List Text
blocking_states = text "OUTCOME_UNKNOWN" ∷ text "RECONCILING" ∷ text "MANUAL_REVIEW" ∷ []

abbrev pub dispatchable_states : List Text
dispatchable_states = text "PREPARED" ∷ text "AUTHORIZED" ∷ []

abbrev pub reconcilable_states : List Text
reconcilable_states = text "OUTCOME_UNKNOWN" ∷ text "MANUAL_REVIEW" ∷ []

abbrev pub approval_required : CommandFailure
approval_required = precondition (text "APPROVAL_REQUIRED")

-- The test of the approval that the row of the effect names.
unfoldable pub check_row : Option Approval → ℕ → Result (Unit {0}) CommandFailure
unfolding text_eq
check_row none now = err approval_required
check_row (some a) now =
    guard (text_eq a.state (text "APPROVED")) approval_required
    >> guard (ltb now a.expires_at) (precondition (text "APPROVAL_EXPIRED"))

unfoldable pub check_approval : Store → Option Text → ℕ → Result (Unit {0}) CommandFailure
unfolding check_row map_get
check_approval s none now = ok tt
check_approval s (some id) now = check_row (map_get id s.approvals) now

-- `n + 1` in a column, where a number above the largest is out of range.
unfoldable pub incremented : ℕ → ℕ → Result ℕ CommandFailure
incremented largest n = if ltb n largest then ok (n + 1) else err constraint_invalid

-- The row that the UPDATE of `dispatch_effect` leaves.
unfoldable pub dispatched : Effect → ℕ → ℕ → Result Effect CommandFailure
unfolding incremented
dispatched e version now = incremented 2147483647 e.transmit_count >>= λ transmit_count.
    incremented 9223372036854775807 e.dispatch_fence >>= λ dispatch_fence. ok (record e {
      state = text "EXECUTING";
      transmit_count = transmit_count;
      dispatch_fence = dispatch_fence;
      lease_expires_at = some (now + 60000000);
      version = version;
    })

unfoldable pub dispatch_effect : Store → ℕ → Text → ℤ → Answer
unfolding locked_effect require_expected_version require_dispatch_enabled check_approval dispatched
    contains
dispatch_effect s now id expected = locked_effect s id >>= λ e.
    require_expected_version (pos e.version) expected >>= λ version.
    require_dispatch_enabled s none (some e.connection_id) >>= λ _.
    guard (not (contains blocking_states e.state)) (conflict (text "OUTCOME_UNKNOWN_BLOCKS_RESEND"))
    >>= λ _. guard (contains dispatchable_states e.state) illegal_transition >>= λ _.
        check_approval s e.approval_id now >>= λ _. dispatched e (pos_part version) now >>= λ after.
        ok (written s id after (text "dispatch effect") true)

unfoldable pub reconcile_effect : Store → Text → ℤ → Answer
unfolding locked_effect require_expected_version contains
reconcile_effect s id expected = locked_effect s id >>= λ e.
    require_expected_version (pos e.version) expected >>= λ version.
    guard (contains reconcilable_states e.state) illegal_transition >>= λ _. ok (
      written s id
        (record e {
          state = text "RECONCILING";
          reconciliation_queued = true;
          version = pos_part version;
        })
        (text "reconcile effect") false)
