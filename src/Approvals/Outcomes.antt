-- ===== src/Approvals/Outcomes.antt =====
-- When a decision is accepted
-- (platform-plugins/data-postgres/src/approval_commands.rs).
use masonwing.Prelude.{
  ℕ, ◌+◌, ◌<◌, ◌≡◌, refl, sym, ap, subst, ◌∙◌, ◌≢◌, ◌↔◌, inl, inr, false, some, pos, pos_part,
  map_insert, map_get, ok, Bool-cases, Text, text,
}
use masonwing.Approvals.Tables.{Approval, ApprovalRows}
use masonwing.Approvals.Reasons.{is_blank}
use masonwing.Approvals.Blank.{IsBlank, is_blank_lem}
use masonwing.Approvals.Decide.{Decision, Decided, decided, answer_of, decide_approval}
use masonwing.Approvals.Laws.{decide_approval-IsDecided, IsDecided-decide_approval}
use masonwing.Approvals.Answers.{
  LeadsTo, IsAnswer, row_after, decision_state-LeadsTo, require_expected_version_iff,
  answer_of-IsAnswer, IsAnswer-answer_of,
}

-- What is asked of a decision on a row.
pub record IsAllowed (now : ℕ) (d : Decision) (before : Approval) (next : Text) : Type 0 where
  pub reasoned : ¬ IsBlank d.reason
  pub requested : before.state ≡ text "REQUESTED"
  pub leads : LeadsTo d.decision next
  pub four_eyes : before.created_by ≢ d.principal_id
  pub in_time : now < before.expires_at
  pub reviewed : before.content_digest ≡ d.content_digest
  pub expected : d.expected_version ≡ pos before.version
  pub countable : before.version < 2147483647

-- A decision is accepted exactly when the proposal has a row, still requested and not expired; the
-- reason is not made of white space alone; the verb is APPROVE, REJECT or CANCEL; the decider is not
-- the author and names the row's content digest and version; and the version is below the largest
-- i32. The row then holds the state of the verb, the decider, the reason and the next version, the
-- rest of it and the other rows being as before, and the answer names the decider as the approver
-- exactly after APPROVE.
pub decide_approval_iff :
    (rows after : ApprovalRows) (now : ℕ) (d : Decision) (answer : Decided)
    → (decide_approval rows now d ≡ ok (after, answer)) ↔ (
        (before : Approval) × (next : Text) × (map_get d.proposal_id rows ≡ some before)
        × IsAllowed now d before next
        × (after ≡ map_insert d.proposal_id (row_after before d next) rows)
        × IsAnswer d before next answer)
decide_approval_iff rows after now d answer = (
  λ h.
      let x = decide_approval-IsDecided rows after now d answer h in
      let (expected, countable, version) =
        (require_expected_version_iff x.before.version d.expected_version x.version).0 x.current in
      let row_is : decided x.before d x.next (pos_part x.version) ≡ row_after x.before d x.next =
        ap (λ v. decided x.before d x.next (pos_part v)) version in
      (
        x.before,
        x.next,
        x.found,
        record {
          reasoned = λ k. absurd (cc (x.reasoned, (is_blank_lem d.reason).1 k));
          requested = x.requested;
          leads = (decision_state-LeadsTo d.decision x.next).0 x.verb;
          four_eyes = x.four_eyes;
          in_time = x.in_time;
          reviewed = x.reviewed;
          expected = expected;
          countable = countable;
        },
        x.written ∙ ap (λ r. map_insert d.proposal_id r rows) row_is,
        subst (IsAnswer d x.before x.next)
            (sym (x.answered ∙ ap (λ r. answer_of r d x.next) row_is))
            (answer_of-IsAnswer d x.before x.next),
      ),
  λ (before, next, found, allowed, written, answered).
      IsDecided-decide_approval rows after now d answer (record {
        before = before;
        next = next;
        version = pos (before.version + 1);
        reasoned = not_blank allowed.reasoned;
        found = found;
        requested = allowed.requested;
        verb = (decision_state-LeadsTo d.decision next).1 allowed.leads;
        four_eyes = allowed.four_eyes;
        in_time = allowed.in_time;
        reviewed = allowed.reviewed;
        current =
            (require_expected_version_iff before.version d.expected_version
                (pos (before.version + 1))).1
              (allowed.expected, allowed.countable, refl);
        written = written;
        answered = IsAnswer-answer_of d before next answer answered;
      }),
)
  where
    not_blank : ¬ IsBlank d.reason → is_blank d.reason ≡ false
    not_blank k = elim (Bool-cases (is_blank d.reason)) [
      | inl blank ↦ absurd (k ((is_blank_lem d.reason).0 blank))
      | inr other ↦ other
    ]
