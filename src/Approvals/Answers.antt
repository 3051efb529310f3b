-- ===== src/Approvals/Answers.antt =====
-- The row and the answer of a decision
-- (platform-plugins/data-postgres/src/approval_commands.rs).
use masonwing.Prelude.{
  ℕ, ◌+◌, ◌<◌, ◌≡◌, refl, sym, ap, ◌∙◌, ◌≢◌, ◌↔◌, ◌⊎◌, inl, inr, true, false, Option, none, some,
  arith, ℤ, pos, eq_ℤ, eq_ℤ_iff, leb_ℤ, ok, ok-injective, if◌then◌else◌, Bool-cases, ◌++◌, Text,
  text, text_eq, text_eq_iff,
}
use masonwing.Kernel.Runtime.{require_expected_version, i32_max}
use masonwing.Approvals.Tables.{Approval}
use masonwing.Approvals.Decide.{Decision, Decided, decision_state, answer_of}

-- The state that a verb leads to.
abbrev pub LeadsTo : Text → Text → Type 0
LeadsTo verb next =
    ((verb ≡ text "APPROVE") × (next ≡ text "APPROVED"))
    ⊎ ((verb ≡ text "REJECT") × (next ≡ text "REJECTED"))
    ⊎ ((verb ≡ text "CANCEL") × (next ≡ text "CANCELLED"))

-- The row after the decision: its state, the decider, the reason and the version are new.
abbrev pub row_after : Approval → Decision → Text → Approval
row_after before d next = record {
  run_id = before.run_id;
  action = before.action;
  target = before.target;
  content_digest = before.content_digest;
  scope_digest = before.scope_digest;
  policy_version = before.policy_version;
  max_cost_microunits = before.max_cost_microunits;
  currency = before.currency;
  expires_at = before.expires_at;
  created_by = before.created_by;
  decided_by = some d.principal_id;
  decided_issuer = some d.issuer;
  state = next;
  decision_reason = some d.reason;
  version = before.version + 1;
}

-- The decider is named as the approver after an approval only.
abbrev pub NamesApprover : Decision → Text → Option (Text × Text) → Type 0
NamesApprover d next approved_by =
    ((next ≡ text "APPROVED") × (approved_by ≡ some (d.principal_id, d.issuer)))
    ⊎ ((next ≢ text "APPROVED") × (approved_by ≡ none))

-- What is answered.
pub record IsAnswer (d : Decision) (before : Approval) (next : Text) (answer : Decided)
    : Type 0 where
  pub proposal : answer.proposal_id ≡ d.proposal_id
  pub row : answer.row ≡ row_after before d next
  pub decider : answer.decided_by ≡ (d.principal_id, d.issuer)
  pub approver : NamesApprover d next answer.approved_by
  pub label : answer.label ≡ text "approval " ++ d.decision
  pub run : answer.run_id ≡ before.run_id

pub decision_state-LeadsTo :
    (verb next : Text) → (decision_state verb ≡ ok next) ↔ LeadsTo verb next
unfolding decision_state
decision_state-LeadsTo verb next = (
  λ h. elim (Bool-cases (text_eq verb (text "APPROVE"))) [
    | inl a ↦ inl ((text_eq_iff verb (text "APPROVE")).0 a, sym (ok-injective _ next (rw a at h)))
    | inr x ↦ elim (Bool-cases (text_eq verb (text "REJECT"))) [
      | inl b ↦
          inr (
            inl
              ((text_eq_iff verb (text "REJECT")).0 b, sym (ok-injective _ next (rw (x, b) at h))))
      | inr y ↦ elim (Bool-cases (text_eq verb (text "CANCEL"))) [
        | inl c ↦ inr (
            inr (
              (text_eq_iff verb (text "CANCEL")).0 c,
              sym (ok-injective _ next (rw (x, y, c) at h)),
            ))
        | inr z ↦ absurd (cc (rw (x, y, z) at h))
      ]
    ]
  ],
  there,
)
  where
    there : LeadsTo verb next → decision_state verb ≡ ok next
    there (inl (v, n)) = ap decision_state v ∙ ap ok (sym n)
    there (inr (inl (v, n))) = ap decision_state v ∙ ap ok (sym n)
    there (inr (inr (v, n))) = ap decision_state v ∙ ap ok (sym n)

-- The version is the expected one and not the largest, and it is counted up.
pub require_expected_version_iff :
    (n : ℕ) (expected version : ℤ)
    → (require_expected_version (pos n) expected ≡ ok version)
      ↔ ((expected ≡ pos n) × (n < 2147483647) × (version ≡ pos (n + 1)))
unfolding require_expected_version
require_expected_version_iff n expected version = elim (Bool-cases (eq_ℤ (pos n) expected)) [
  | inr stale ↦ (
    λ h. absurd (cc (rw stale at h)),
    λ (same, _, _). absurd (cc (stale, (eq_ℤ_iff (pos n) expected).1 (sym same))),
  )
  | inl known ↦ elim (Bool-cases (leb_ℤ i32_max (pos n))) [
    | inl last ↦
        (λ h. absurd (cc (rw (known, last) at h)), λ (_, small, _). absurd (below n last small))
    | inr further ↦ (
      λ h. (
        sym ((eq_ℤ_iff (pos n) expected).0 known),
        above n further,
        sym (ok-injective _ version (rw (known, further) at h)),
      ),
      λ (_, _, next). rw (known, further) (ap ok (sym next)),
    )
  ]
]
  where
    below : (n : ℕ) → leb_ℤ i32_max (pos n) ≡ true → n < 2147483647 → ⊥
    below n h k = ground arith

    above : (n : ℕ) → leb_ℤ i32_max (pos n) ≡ false → n < 2147483647
    above n h = ground arith

names_approver :
    (d : Decision) (next : Text)
    → NamesApprover d next
        (if text_eq next (text "APPROVED") then some (d.principal_id, d.issuer) else none)
names_approver d next = elim (Bool-cases (text_eq next (text "APPROVED"))) [
  | inl approved ↦ inl ((text_eq_iff next (text "APPROVED")).0 approved, rw approved refl)
  | inr other ↦
      inr (λ k. absurd (cc (other, (text_eq_iff next (text "APPROVED")).1 k)), rw other refl)
]

approver_unique :
    (d : Decision) (next : Text) (a b : Option (Text × Text))
    → NamesApprover d next a
    → NamesApprover d next b
    → a ≡ b
approver_unique d next a b (inl (_, x)) (inl (_, y)) = x ∙ sym y
approver_unique d next a b (inl (k, _)) (inr (n, _)) = absurd (n k)
approver_unique d next a b (inr (n, _)) (inl (k, _)) = absurd (n k)
approver_unique d next a b (inr (_, x)) (inr (_, y)) = x ∙ sym y

pub answer_of-IsAnswer :
    (d : Decision) (before : Approval) (next : Text)
    → IsAnswer d before next (answer_of (row_after before d next) d next)
answer_of-IsAnswer d before next = record {
  proposal = refl;
  row = refl;
  decider = refl;
  approver = names_approver d next;
  label = refl;
  run = refl;
}

pub IsAnswer-answer_of :
    (d : Decision) (before : Approval) (next : Text) (answer : Decided)
    → IsAnswer d before next answer
    → answer ≡ answer_of (row_after before d next) d next
IsAnswer-answer_of d before next answer h =
    let approved_by =
      approver_unique d next answer.approved_by
        (if text_eq next (text "APPROVED") then some (d.principal_id, d.issuer) else none)
        h.approver (names_approver d next) in
    λ i. record {
      proposal_id = h.proposal i;
      row = h.row i;
      decided_by = h.decider i;
      approved_by = approved_by i;
      label = h.label i;
      run_id = h.run i;
    }
