-- ===== src/Approvals/Laws.antt =====
-- The tests that an accepted decision has passed
-- (platform-plugins/data-postgres/src/approval_commands.rs).
use masonwing.Prelude.{
  ok_or-some, ℕ, ◌<◌, ◌≡◌, refl, sym, ap, ◌≢◌, inl, inr, Bool, true, false, not, some, arith, ℤ,
  pos, pos_part, map_insert, map_get, ok, guard, ok_or, bind_ok, ok-injective, guard_passed,
  contains, ltb, Bool-cases, Text, text, text_eq, text_eq_iff,
}
use masonwing.Kernel.Runtime.{require_expected_version}
use masonwing.Kernel.Runtime.Failure.{invalid, not_found, denied, conflict, precondition}
use masonwing.Approvals.Tables.{Approval, ApprovalRows}
use masonwing.Approvals.Reasons.{is_blank}
use masonwing.Approvals.Decide.{
  Decision, Decided, decision_state, decided_states, next_state, decided, answer_of,
  decide_approval,
}

-- What has been tested when a decision is accepted, in terms of the code.
pub record IsDecided (rows : ApprovalRows) (now : ℕ) (d : Decision) (after : ApprovalRows)
    (answer : Decided) : Type 0 where
  pub before : Approval
  pub next : Text
  pub version : ℤ
  pub reasoned : is_blank d.reason ≡ false
  pub found : map_get d.proposal_id rows ≡ some before
  pub requested : before.state ≡ text "REQUESTED"
  pub verb : decision_state d.decision ≡ ok next
  pub four_eyes : before.created_by ≢ d.principal_id
  pub in_time : now < before.expires_at
  pub reviewed : before.content_digest ≡ d.content_digest
  pub current : require_expected_version (pos before.version) d.expected_version ≡ ok version
  pub written : after ≡ map_insert d.proposal_id (decided before d next (pos_part version)) rows
  pub answered : answer ≡ answer_of (decided before d next (pos_part version)) d next

next_state-requested :
    (state decision next : Text)
    → next_state state decision ≡ ok next
    → (state ≡ text "REQUESTED") × (decision_state decision ≡ ok next)
unfolding next_state
next_state-requested state decision next h = elim (Bool-cases (text_eq state (text "REQUESTED"))) [
  | inl requested ↦ ((text_eq_iff state (text "REQUESTED")).0 requested, rw requested at h)
  | inr other ↦ elim (Bool-cases (contains decided_states state)) [
    | inl final ↦ absurd (cc (rw (other, final) at h))
    | inr open_state ↦ elim (Bool-cases (text_eq state (text "EXPIRED"))) [
      | inl expired ↦ absurd (cc (rw (other, open_state, expired) at h))
      | inr valid ↦ elim (Bool-cases (text_eq state (text "INVALIDATED"))) [
        | inl stale ↦ absurd (cc (rw (other, open_state, valid, stale) at h))
        | inr unknown ↦ absurd (cc (rw (other, open_state, valid, unknown) at h))
      ]
    ]
  ]
]

requested-next_state :
    (state decision next : Text)
    → state ≡ text "REQUESTED"
    → decision_state decision ≡ ok next
    → next_state state decision ≡ ok next
unfolding next_state
requested-next_state state decision next requested h =
    rw ((text_eq_iff state (text "REQUESTED")).1 requested) h

negated : (b : Bool) → not b ≡ true → b ≡ false
negated b k = ground arith

earlier : (x y : ℕ) → ltb x y ≡ true → x < y
earlier x y k = ground arith

pub decide_approval-IsDecided :
    (rows after : ApprovalRows) (now : ℕ) (d : Decision) (answer : Decided)
    → decide_approval rows now d ≡ ok (after, answer)
    → IsDecided rows now d after answer
unfolding decide_approval
decide_approval-IsDecided rows after now d answer h =
    let (u0, g0, h0) =
      bind_ok (guard (not (is_blank d.reason)) (invalid (text "REASON_REQUIRED"))) _ (after, answer)
        h in
    let (a, locked, h1) =
      bind_ok (ok_or (map_get d.proposal_id rows) not_found) _ (after, answer) h0 in
    let (next, state, h2) = bind_ok (next_state a.state d.decision) _ (after, answer) h1 in
    let (u1, g1, h3) =
      bind_ok
        (guard (not (text_eq a.created_by d.principal_id)) (denied (text "FOUR_EYES_REQUIRED"))) _
        (after, answer) h2 in
    let (u2, g2, h4) =
      bind_ok (guard (ltb now a.expires_at) (precondition (text "APPROVAL_EXPIRED"))) _
        (after, answer) h3 in
    let (u3, g3, h5) =
      bind_ok
        (guard (text_eq a.content_digest d.content_digest) (conflict (text "REVIEW_CONFLICT"))) _
        (after, answer) h4 in
    let (version, current, h6) =
      bind_ok (require_expected_version (pos a.version) d.expected_version) _ (after, answer) h5 in
    let same = ok-injective _ (after, answer) h6 in
    let (requested, verb) = next_state-requested a.state d.decision next state in
    let reasoned =
      guard_passed (not (is_blank d.reason)) (invalid (text "REASON_REQUIRED")) u0 g0 in
    let other =
      guard_passed (not (text_eq a.created_by d.principal_id)) (denied (text "FOUR_EYES_REQUIRED"))
        u1 g1 in
    let in_time =
      guard_passed (ltb now a.expires_at) (precondition (text "APPROVAL_EXPIRED")) u2 g2 in
    let reviewed =
      guard_passed (text_eq a.content_digest d.content_digest) (conflict (text "REVIEW_CONFLICT"))
        u3 g3 in
    record {
      before = a;
      next = next;
      version = version;
      reasoned = negated (is_blank d.reason) reasoned;
      found = ok_or-some (map_get d.proposal_id rows) not_found a locked;
      requested = requested;
      verb = verb;
      four_eyes = λ e. absurd (cc (other, (text_eq_iff a.created_by d.principal_id).1 e));
      in_time = earlier now a.expires_at in_time;
      reviewed = (text_eq_iff a.content_digest d.content_digest).0 reviewed;
      current = current;
      written = sym (ap (λ (x : ApprovalRows × Decided). x.0) same);
      answered = sym (ap (λ (x : ApprovalRows × Decided). x.1) same);
    }

pub IsDecided-decide_approval :
    (rows after : ApprovalRows) (now : ℕ) (d : Decision) (answer : Decided)
    → IsDecided rows now d after answer
    → decide_approval rows now d ≡ ok (after, answer)
unfolding decide_approval
IsDecided-decide_approval rows after now d answer h =
    let next_is = requested-next_state h.before.state d.decision h.next h.requested h.verb in
    let other : text_eq h.before.created_by d.principal_id ≡ false =
      elim (Bool-cases (text_eq h.before.created_by d.principal_id)) [
        | inl same ↦ absurd (h.four_eyes ((text_eq_iff h.before.created_by d.principal_id).0 same))
        | inr apart ↦ apart
      ] in
    let in_time : ltb now h.before.expires_at ≡ true = ground (arith, h.in_time) in
    let reviewed = (text_eq_iff h.before.content_digest d.content_digest).1 h.reviewed in
    rw (h.reasoned, h.found, next_is, other, in_time, reviewed, h.current, h.written, h.answered)
      refl
