-- ===== src/Approvals/FourEyes.antt =====
-- Sequences of decisions
-- (platform-plugins/data-postgres/src/approval_commands.rs, effect_commands.rs).
use masonwing.Prelude.{
  ℕ, ◌≡◌, refl, sym, ap, subst, ◌∙◌, ◌≢◌, inl, inr, true, false, some, List, [], ◌∷◌, pos_part,
  map_get, map_get-insert, Result, ok, err, ok-injective, contains, Bool-cases, Text, text, text_eq,
  text_eq_iff, text_eq_refl,
}
use masonwing.Kernel.Runtime.Failure.{CommandFailure}
use masonwing.Approvals.Tables.{Approval, ApprovalRows}
use masonwing.Approvals.Reasons.{is_blank}
use masonwing.Approvals.Decide.{
  Decision, Decided, decision_state, decided_states, decision_conflict, next_state, decided,
  decide_approval, stored_rows, decide_all,
}
use masonwing.Approvals.Laws.{decide_approval-IsDecided}

-- A verb leads to one of the decided states.
decision_state-decided :
    (decision next : Text) → decision_state decision ≡ ok next → contains decided_states next ≡ true
unfolding decision_state contains
decision_state-decided decision next h = elim (Bool-cases (text_eq decision (text "APPROVE"))) [
  | inl approve ↦
      subst (λ (x : Text). contains decided_states x ≡ true) (ok-injective _ next (rw approve at h))
        refl
  | inr other ↦ elim (Bool-cases (text_eq decision (text "REJECT"))) [
    | inl reject ↦
        subst (λ (x : Text). contains decided_states x ≡ true)
          (ok-injective _ next (rw (other, reject) at h)) refl
    | inr others ↦ elim (Bool-cases (text_eq decision (text "CANCEL"))) [
      | inl cancel ↦
          subst (λ (x : Text). contains decided_states x ≡ true)
            (ok-injective _ next (rw (other, others, cancel) at h)) refl
      | inr none_of ↦ absurd (cc (rw (other, others, none_of) at h))
    ]
  ]
]

-- The row is decided.
abbrev pub IsFinal : ApprovalRows → Text → Approval → Type 0
IsFinal rows id a = (map_get id rows ≡ some a) × (contains decided_states a.state ≡ true)

decided_not_requested :
    (state : Text) → contains decided_states state ≡ true → state ≢ text "REQUESTED"
unfolding contains
decided_not_requested state h e =
    absurd (cc (subst (λ (x : Text). contains decided_states x ≡ true) e h))

decide_approval-IsFinal :
    (rows after : ApprovalRows) (now : ℕ) (d : Decision) (answer : Decided) (id : Text)
    (a : Approval)
    → IsFinal rows id a
    → decide_approval rows now d ≡ ok (after, answer)
    → IsFinal after id a
decide_approval-IsFinal rows after now d answer id a (found, final) h =
    let x = decide_approval-IsDecided rows after now d answer h in
    elim (Bool-cases (text_eq d.proposal_id id)) [
      | inl same ↦
          let there : map_get d.proposal_id rows ≡ some a =
            subst (λ (k : Text). map_get k rows ≡ some a)
              (sym ((text_eq_iff d.proposal_id id).0 same)) found in
          let row_is : x.before ≡ a = cc (x.found, there) in
          absurd (
            decided_not_requested a.state final
              (sym (ap (λ (r : Approval). r.state) row_is) ∙ x.requested))
      | inr other ↦ (
        ap (λ (m : ApprovalRows). map_get id m) x.written
            ∙ map_get-insert d.proposal_id id (decided x.before d x.next (pos_part x.version)) rows
            ∙ rw other found,
        final,
      )
    ]

stored-IsFinal :
    (rows : ApprovalRows) (now : ℕ) (d : Decision)
    (r : Result (ApprovalRows × Decided) CommandFailure) (id : Text) (a : Approval)
    → decide_approval rows now d ≡ r
    → IsFinal rows id a
    → IsFinal (stored_rows rows r) id a
stored-IsFinal rows now d (ok (after, answer)) id a h final =
    decide_approval-IsFinal rows after now d answer id a final h
stored-IsFinal rows now d (err e) id a h final = final

decide_all-IsFinal :
    (rows : ApprovalRows) (ds : List (ℕ × Decision)) (id : Text) (a : Approval)
    → IsFinal rows id a
    → IsFinal (decide_all rows ds) id a
unfolding decide_all
decide_all-IsFinal rows [] id a final = final
decide_all-IsFinal rows ((now, d) ∷ rest) id a final =
    decide_all-IsFinal (stored_rows rows (decide_approval rows now d)) rest id a
      (stored-IsFinal rows now d (decide_approval rows now d) id a refl final)

IsFinal-conflict :
    (rows : ApprovalRows) (now : ℕ) (d : Decision) (a : Approval)
    → IsFinal rows d.proposal_id a
    → is_blank d.reason ≡ false
    → decide_approval rows now d ≡ err decision_conflict
unfolding decide_approval next_state
IsFinal-conflict rows now d a (found, final) reasoned =
    let closed : text_eq a.state (text "REQUESTED") ≡ false =
      elim (Bool-cases (text_eq a.state (text "REQUESTED"))) [
        | inl requested ↦ absurd (
            decided_not_requested a.state final
              ((text_eq_iff a.state (text "REQUESTED")).0 requested))
        | inr other ↦ other
      ] in
    rw (reasoned, found, closed, final) refl

-- A proposal is decided once: after an accepted decision, and whatever decisions follow, its row stays
-- as that decision left it, and every further decision with a reason is refused as a conflict.
pub decide_approval_once :
    (rows after : ApprovalRows) (now later : ℕ) (d again : Decision) (answer : Decided)
    (ds : List (ℕ × Decision))
    → decide_approval rows now d ≡ ok (after, answer)
    → again.proposal_id ≡ d.proposal_id
    → is_blank again.reason ≡ false
    → (map_get d.proposal_id (decide_all after ds) ≡ map_get d.proposal_id after)
      × (decide_approval (decide_all after ds) later again ≡ err decision_conflict)
decide_approval_once rows after now later d again answer ds h same reasoned =
    let x = decide_approval-IsDecided rows after now d answer h in
    let row = decided x.before d x.next (pos_part x.version) in
    let first : IsFinal after d.proposal_id row = (
      ap (λ (m : ApprovalRows). map_get d.proposal_id m) x.written
          ∙ map_get-insert d.proposal_id d.proposal_id row rows
          ∙ rw (text_eq_refl d.proposal_id),
      decision_state-decided d.decision x.next x.verb,
    ) in
    let last = decide_all-IsFinal after ds d.proposal_id row first in
    (
      last.0 ∙ sym first.0,
      IsFinal-conflict (decide_all after ds) later again row
          (subst (λ (k : Text). IsFinal (decide_all after ds) k row) (sym same) last) reasoned,
    )
