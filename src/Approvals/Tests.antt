-- ===== src/Approvals/Tests.antt =====
-- Decisions on one requested proposal.
use masonwing.Prelude.{
  ◌≡◌, refl, ◌↔◌, true, false, none, [], ◌∷◌, pos, map_insert, map_get, some, ok, err, Text, text,
  text_eq,
}
use masonwing.Kernel.Runtime.Failure.{invalid, denied, precondition}
use masonwing.Approvals.Tables.{Approval, ApprovalRows}
use masonwing.Approvals.Reasons.{is_blank}
use masonwing.Approvals.Decide.{
  Decision, Decided, decision_conflict, decided, answer_of, decide_approval, decide_all,
}
use masonwing.Approvals.Answers.{IsAnswer, row_after}
use masonwing.Approvals.Outcomes.{IsAllowed, decide_approval_iff}
use masonwing.Approvals.FourEyes.{decide_approval_once}

abbrev requested : Approval
requested = record {
  run_id = text "run1";
  action = text "mail.send";
  target = record { resource_type = text "Mail"; resource_id = text "m1"; version = pos 1 };
  content_digest = text "00";
  scope_digest = text "01";
  policy_version = text "1";
  max_cost_microunits = 40;
  currency = text "USD";
  expires_at = 100;
  created_by = text "author";
  decided_by = none;
  decided_issuer = none;
  state = text "REQUESTED";
  decision_reason = none;
  version = 1;
}

abbrev rows : ApprovalRows
rows = (text "p1", requested) ∷ []

abbrev decision_by : Text → Text → Decision
decision_by principal verb = record {
  principal_id = principal;
  issuer = text "issuer";
  proposal_id = text "p1";
  decision = verb;
  expected_version = pos 1;
  content_digest = text "00";
  reason = text "read";
}

abbrev approve : Decision
approve = decision_by (text "reviewer") (text "APPROVE")

abbrev reject : Decision
reject = decision_by (text "other") (text "REJECT")

abbrev approved : Approval
approved = decided requested approve (text "APPROVED") 2

abbrev approved_rows : ApprovalRows
approved_rows = (text "p1", approved) ∷ []

abbrev approval_answer : Decided
unfolding text_eq
approval_answer = answer_of approved approve (text "APPROVED")

approve_accepted : decide_approval rows 50 approve ≡ ok (approved_rows, approval_answer)
unfolding decide_approval
approve_accepted = refl

decide_approval_iff_example :
    (decide_approval rows 50 approve ≡ ok (approved_rows, approval_answer)) ↔ (
      (before : Approval) × (next : Text) × (map_get (text "p1") rows ≡ some before)
      × IsAllowed 50 approve before next
      × (approved_rows ≡ map_insert (text "p1") (row_after before approve next) rows)
      × IsAnswer approve before next approval_answer)
decide_approval_iff_example = decide_approval_iff rows approved_rows 50 approve approval_answer

read_reason : is_blank (text "read") ≡ false
unfolding is_blank
read_reason = refl

-- A no-break space and a space are no reason.
blank_reason : is_blank (194 ∷ 160 ∷ 32 ∷ []) ≡ true
unfolding is_blank
blank_reason = refl

decide_approval_once_example :
    (map_get (text "p1") (decide_all approved_rows ((60, reject) ∷ []))
      ≡ map_get (text "p1") approved_rows)
    × (decide_approval (decide_all approved_rows ((60, reject) ∷ [])) 70 reject
        ≡ err decision_conflict)
decide_approval_once_example =
    decide_approval_once rows approved_rows 50 70 approve reject approval_answer ((60, reject) ∷ [])
      approve_accepted refl read_reason

own_proposal :
    decide_approval rows 50 (decision_by (text "author") (text "APPROVE"))
    ≡ err (denied (text "FOUR_EYES_REQUIRED"))
unfolding decide_approval
own_proposal = refl

too_late : decide_approval rows 100 approve ≡ err (precondition (text "APPROVAL_EXPIRED"))
unfolding decide_approval
too_late = refl

unknown_verb :
    decide_approval rows 50 (decision_by (text "reviewer") (text "GRANT"))
    ≡ err (invalid (text "DECISION_INVALID"))
unfolding decide_approval
unknown_verb = refl
