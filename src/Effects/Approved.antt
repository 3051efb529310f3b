-- ===== src/Effects/Approved.antt =====
-- The approval behind a dispatch
-- (platform-plugins/data-postgres/src/effect_commands.rs, approval_commands.rs).
use masonwing.Prelude.{
  ℕ, ◌<◌, ◌≡◌, refl, sym, ap, subst, ◌∙◌, ◌≢◌, inl, inr, true, not, Option, none, some, List, [],
  ◌∷◌, arith, ℤ, pos, pos_part, map_get, map_get-insert, Result, ok, err, guard, bind_ok,
  guard_passed, guard_then, guard_passed, guard_then, contains, ltb, if◌then◌else◌, Bool-cases,
  Text, text, text_eq, text_eq_iff,
}
use masonwing.Kernel.Runtime.{require_expected_version}
use masonwing.Kernel.Runtime.Failure.{CommandFailure, precondition, conflict}
use masonwing.Approvals.Tables.{Approval, ApprovalRows}
use masonwing.Approvals.Decide.{
  Decision, Decided, decided, decide_approval, stored_rows, decide_all,
}
use masonwing.Approvals.Laws.{decide_approval-IsDecided}
use masonwing.Effects.Tables.{Effect, Store, Mutation, locked_effect, illegal_transition}
use masonwing.Effects.Dispatch.{
  blocking_states, dispatchable_states, approval_required, require_dispatch_enabled, check_row,
  check_approval, dispatch_effect,
}
use masonwing.Effects.Rows.{locked-found}

-- An approved row was decided by somebody who did not write it.
abbrev pub HasOtherDecider : Approval → Type 0
HasOtherDecider a = (p : Text) × (a.decided_by ≡ some p) × (a.created_by ≢ p)

abbrev pub HasFourEyes : ApprovalRows → Type 0
HasFourEyes rows =
    (id : Text) (a : Approval)
    → map_get id rows ≡ some a
    → a.state ≡ text "APPROVED"
    → HasOtherDecider a

decide_approval-HasFourEyes :
    (rows after : ApprovalRows) (now : ℕ) (d : Decision) (answer : Decided)
    → HasFourEyes rows
    → decide_approval rows now d ≡ ok (after, answer)
    → HasFourEyes after
decide_approval-HasFourEyes rows after now d answer inv h id a found approved =
    let x = decide_approval-IsDecided rows after now d answer h in
    let row = decided x.before d x.next (pos_part x.version) in
    let there : map_get id after
        ≡ (if text_eq d.proposal_id id then some row else map_get id rows) =
      ap (λ (m : ApprovalRows). map_get id m) x.written
      ∙ map_get-insert d.proposal_id id row rows in
    elim (Bool-cases (text_eq d.proposal_id id)) [
      | inl same ↦
          let stored : map_get id after ≡ some row = there ∙ rw same refl in
          let new : row ≡ a = cc (found, stored) in
          subst HasOtherDecider new (d.principal_id, refl, x.four_eyes)
      | inr other ↦
          let kept : map_get id after ≡ map_get id rows = there ∙ rw other refl in
          inv id a (sym kept ∙ found) approved
    ]

stored_rows-HasFourEyes :
    (rows : ApprovalRows) (now : ℕ) (d : Decision)
    (r : Result (ApprovalRows × Decided) CommandFailure)
    → decide_approval rows now d ≡ r
    → HasFourEyes rows
    → HasFourEyes (stored_rows rows r)
stored_rows-HasFourEyes rows now d (ok (after, answer)) h inv =
    decide_approval-HasFourEyes rows after now d answer inv h
stored_rows-HasFourEyes rows now d (err e) h inv = inv

decide_all-HasFourEyes :
    (rows : ApprovalRows) (ds : List (ℕ × Decision))
    → HasFourEyes rows
    → HasFourEyes (decide_all rows ds)
unfolding decide_all
decide_all-HasFourEyes rows [] inv = inv
decide_all-HasFourEyes rows ((now, d) ∷ rest) inv =
    decide_all-HasFourEyes (stored_rows rows (decide_approval rows now d)) rest
      (stored_rows-HasFourEyes rows now d (decide_approval rows now d) refl inv)

-- What the test of an approval passes.
abbrev IsApproved : ApprovalRows → ℕ → Text → Type 0
IsApproved rows now id =
    (a : Approval) × (map_get id rows ≡ some a) × (a.state ≡ text "APPROVED") × (now < a.expires_at)

check_row-parts :
    (o : Option Approval) (now : ℕ)
    → check_row o now ≡ ok tt
    → (a : Approval) × (o ≡ some a) × (a.state ≡ text "APPROVED") × (now < a.expires_at)
unfolding check_row
check_row-parts none now h = absurd cc
check_row-parts (some a) now h =
    let (approved, later) = guard_then (text_eq a.state (text "APPROVED")) approval_required _ h in
    let in_time =
      guard_passed (ltb now a.expires_at) (precondition (text "APPROVAL_EXPIRED")) tt later in
    (a, refl, (text_eq_iff a.state (text "APPROVED")).0 approved, earlier now a.expires_at in_time)
  where
    earlier : (x y : ℕ) → ltb x y ≡ true → x < y
    earlier x y k = ground arith

dispatch_effect-IsApproved :
    (s after : Store) (now : ℕ) (id : Text) (expected : ℤ) (answer : Mutation) (e : Effect)
    (approval : Text)
    → dispatch_effect s now id expected ≡ ok (after, answer)
    → map_get id s.effects ≡ some e
    → e.approval_id ≡ some approval
    → IsApproved s.approvals now approval
unfolding dispatch_effect check_approval
dispatch_effect-IsApproved s after now id expected answer e approval h found named =
    let (x, locked, h1) = bind_ok (locked_effect s id) _ (after, answer) h in
    let (version, v, h2) =
      bind_ok (require_expected_version (pos x.version) expected) _ (after, answer) h1 in
    let (_, _, h3) =
      bind_ok (require_dispatch_enabled s none (some x.connection_id)) _ (after, answer) h2 in
    let (_, _, h4) =
      bind_ok
        (guard (not (contains blocking_states x.state))
          (conflict (text "OUTCOME_UNKNOWN_BLOCKS_RESEND")))
        _ (after, answer) h3 in
    let (_, _, h5) =
      bind_ok (guard (contains dispatchable_states x.state) illegal_transition) _ (after, answer)
        h4 in
    let (u, checked, h6) = bind_ok (check_approval s x.approval_id now) _ (after, answer) h5 in
    let row_is : e ≡ x = cc (found, locked-found s id x locked) in
    let its : x.approval_id ≡ some approval =
      ap (λ (y : Effect). y.approval_id) (sym row_is) ∙ named in
    let passed : check_approval s (some approval) now ≡ ok tt =
      subst (λ (o : Option Text). check_approval s o now ≡ ok tt) its checked in
    check_row-parts (map_get approval s.approvals) now passed

-- Where every approved row of the beginning was decided by another than its author, the same holds
-- after any decisions, and an effect that names an approval is sent only before this approval expires
-- and on a decision of somebody who did not write the proposal.
pub dispatch_effect-HasOtherDecider :
    (s after : Store) (rows : ApprovalRows) (ds : List (ℕ × Decision)) (now : ℕ) (id : Text)
    (expected : ℤ) (answer : Mutation) (e : Effect) (approval : Text)
    → HasFourEyes rows
    → s.approvals ≡ decide_all rows ds
    → map_get id s.effects ≡ some e
    → e.approval_id ≡ some approval
    → dispatch_effect s now id expected ≡ ok (after, answer)
    → (a : Approval) × (map_get approval s.approvals ≡ some a)
      × (now < a.expires_at)
      × HasOtherDecider a
dispatch_effect-HasOtherDecider s after rows ds now id expected answer e approval inv made found
      named h =
    let (a, there, approved, in_time) =
      dispatch_effect-IsApproved s after now id expected answer e approval h found named in
    let before : map_get approval (decide_all rows ds) ≡ some a =
      subst (λ (m : ApprovalRows). map_get approval m ≡ some a) made there in
    (a, there, in_time, decide_all-HasFourEyes rows ds inv approval a before approved)
