-- ===== src/Approvals/Decide.antt =====
-- platform-plugins/data-postgres/src/approval_commands.rs: `decide_approval`. `now` is the clock of the
-- database.
use masonwing.Prelude.{
  ℕ, not, Option, none, some, List, [], ◌∷◌, ◌++◌, ℤ, pos, pos_part, map_insert, map_get, Result,
  ok, err, ◌>>=◌, guard, ok_or, contains, ltb, if◌then◌else◌, Text, text, text_eq,
}
use masonwing.Kernel.Runtime.{require_expected_version}
use masonwing.Kernel.Runtime.Failure.{
  CommandFailure, invalid, not_found, denied, conflict, precondition, unavailable,
}
use masonwing.Approvals.Tables.{Approval, ApprovalRows}
use masonwing.Approvals.Reasons.{is_blank}

-- Who decides, and the input of the command.
pub record Decision : Type 0 where
  pub principal_id : Text
  pub issuer : Text
  pub proposal_id : Text
  pub decision : Text
  pub expected_version : ℤ
  pub content_digest : Text
  pub reason : Text

-- The projection of the decided proposal.
pub record Decided : Type 0 where
  pub proposal_id : Text
  pub row : Approval
  pub decided_by : Text × Text
  pub approved_by : Option (Text × Text)
  pub label : Text
  pub run_id : Text

unfoldable pub decision_state : Text → Result Text CommandFailure
unfolding text_eq
decision_state decision =
    if text_eq decision (text "APPROVE")
    then ok (text "APPROVED")
    else if text_eq decision (text "REJECT")
    then ok (text "REJECTED")
    else if text_eq decision (text "CANCEL")
    then ok (text "CANCELLED")
    else err (invalid (text "DECISION_INVALID"))

abbrev pub decided_states : List Text
decided_states = text "APPROVED" ∷ text "REJECTED" ∷ text "CANCELLED" ∷ []

abbrev pub decision_conflict : CommandFailure
decision_conflict = conflict (text "DECISION_CONFLICT")

-- The `match` on the state of the row.
unfoldable pub next_state : Text → Text → Result Text CommandFailure
unfolding decision_state text_eq contains
next_state state decision =
    if text_eq state (text "REQUESTED")
    then decision_state decision
    else if contains decided_states state
    then err decision_conflict
    else if text_eq state (text "EXPIRED")
    then err (precondition (text "APPROVAL_EXPIRED"))
    else if text_eq state (text "INVALIDATED")
    then err (precondition (text "APPROVAL_STALE"))
    else err (unavailable (text "APPROVAL_STATE_INVALID"))

-- The UPDATE of the row.
abbrev pub decided : Approval → Decision → Text → ℕ → Approval
decided a d next version = record a {
  state = next;
  decided_by = some d.principal_id;
  decided_issuer = some d.issuer;
  decision_reason = some d.reason;
  version = version;
}

abbrev pub answer_of : Approval → Decision → Text → Decided
answer_of row d next = record {
  proposal_id = d.proposal_id;
  row = row;
  decided_by = (d.principal_id, d.issuer);
  approved_by = if text_eq next (text "APPROVED") then some (d.principal_id, d.issuer) else none;
  label = text "approval " ++ d.decision;
  run_id = row.run_id;
}

unfoldable pub decide_approval :
    ApprovalRows → ℕ → Decision → Result (ApprovalRows × Decided) CommandFailure
unfolding is_blank map_get map_insert next_state text_eq require_expected_version
decide_approval rows now d =
    guard (not (is_blank d.reason)) (invalid (text "REASON_REQUIRED")) >>= λ _.
    ok_or (map_get d.proposal_id rows) not_found >>= λ a. next_state a.state d.decision >>= λ next.
    guard (not (text_eq a.created_by d.principal_id)) (denied (text "FOUR_EYES_REQUIRED")) >>= λ _.
    guard (ltb now a.expires_at) (precondition (text "APPROVAL_EXPIRED")) >>= λ _.
    guard (text_eq a.content_digest d.content_digest) (conflict (text "REVIEW_CONFLICT")) >>= λ _.
    require_expected_version (pos a.version) d.expected_version >>= λ version. ok (
      map_insert d.proposal_id (decided a d next (pos_part version)) rows,
      answer_of (decided a d next (pos_part version)) d next,
    )

abbrev pub stored_rows :
    ApprovalRows → Result (ApprovalRows × Decided) CommandFailure → ApprovalRows
stored_rows rows (ok (after, _)) = after
stored_rows rows (err _) = rows

-- Decisions one behind the other, each with its time.
unfoldable pub decide_all : ApprovalRows → List (ℕ × Decision) → ApprovalRows
unfolding decide_approval
decide_all rows [] = rows
decide_all rows ((now, d) ∷ rest) = decide_all (stored_rows rows (decide_approval rows now d)) rest
