-- ===== src/Kernel/Tests/Records.antt =====
-- Reservations, effects, grants, approvals, loop guards and versions at concrete inputs.
use masonwing.Prelude.{
  ℕ, ◌+◌, ◌%◌, ◌^◌, ◌≤◌, ◌≡◌, refl, ◌≢◌, ◌↔◌, true, false, none, some, [], ◌∷◌, arith, ℤ, pos, ◌≤ℤ◌,
  ◌<ℤ◌, ok, err, is_subset, ◌==◌, if◌then◌else◌, Text, text, text_eq,
}
use masonwing.Kernel.State.Machines.{CostState, EffectState}
use masonwing.Kernel.Budget
use masonwing.Kernel.Budget.{CostReservation, BudgetError, reserve, settle, unknown_usage}
use masonwing.Kernel.Budget.Laws as Costs
use masonwing.Kernel.Effects
use masonwing.Kernel.Effects.{
  EffectRecord, new_authorized, send, time_out, begin, decide, proven_absent_and_reauthorized,
  unresolved,
}
use masonwing.Kernel.Effects.Laws as Sends
use masonwing.Kernel.Grants.{
  RunGrant, ChildGrantRequest, derive_child, derive_chain, authorize, delegation_denied,
}
use masonwing.Kernel.Grants.Laws.{Narrows, child_of, derive_child_lem, delegation_narrows}
use masonwing.Kernel.Approval.{ApprovalBinding, validate_dispatch, approval_stale, approval_expired}
use masonwing.Kernel.Approval.Laws.{bound, validate_dispatch_lem}
use masonwing.Kernel.LoopGuard.{BoundedLoop, run_all}
use masonwing.Kernel.LoopGuard as Guards
use masonwing.Kernel.LoopGuard.Laws.{run_all_bounded}
use masonwing.Kernel.Runtime.{require_expected_version, stale_version, version_exhausted, i32_max}
use masonwing.Kernel.Runtime.Laws.{require_expected_version_lem, no_lost_update}

abbrev reservation : CostReservation
reservation = record {
  upper_bound_microunits = 20;
  held_microunits = 20;
  charged_microunits = none;
  state = CostState.reserved;
  reconciliation_queued = false;
}

reserved : reserve 20 ≡ ok reservation
unfolding reserve
reserved = refl

exposure_bounded_example :
    (Budget.calls reservation (unknown_usage ∷ settle 12 ∷ [])).held_microunits
      + Costs.charged (Budget.calls reservation (unknown_usage ∷ settle 12 ∷ [])).charged_microunits
    ≤ 20
exposure_bounded_example =
    Costs.exposure_bounded 20 reservation (unknown_usage ∷ settle 12 ∷ []) reserved

reservation-IsValid : Costs.IsValid reservation
reservation-IsValid = (Costs.reserve-IsValid 20 reserved).0

cost-CallLaws_example : Costs.CallLaws reservation (Budget.call reservation (settle 12))
cost-CallLaws_example = Costs.cost-CallLaws reservation (settle 12) reservation-IsValid

second_settlement :
    (Budget.calls (Budget.call reservation (settle 12)).0 (settle 12 ∷ unknown_usage ∷ [])
      ≡ (Budget.call reservation (settle 12)).0)
    × ((Budget.call reservation (settle 12)).0.charged_microunits ≡ some 12)
    × ((again : ℕ)
        → (Budget.call (Budget.call reservation (settle 12)).0 (settle again)).1
          ≡ (if 12 == again then ok tt else err BudgetError.settlement_conflict))
unfolding Budget.call
second_settlement = Costs.settlement_final reservation 12 (settle 12 ∷ unknown_usage ∷ []) refl

abbrev unknown_effect : EffectRecord
unknown_effect = record {
  state = EffectState.outcome_unknown;
  transmit_count = 1;
  reconciliation_queued = true;
}

timed_out : Effects.calls new_authorized (send ∷ time_out ∷ []) ≡ unknown_effect
unfolding Effects.calls Effects.call new_authorized
timed_out = refl

effect-CallLaws_example : Sends.CallLaws unknown_effect (Effects.call unknown_effect send)
effect-CallLaws_example = Sends.effect-CallLaws unknown_effect send ((λ _. refl), (λ _. refl))

transmissions_authorized_example :
    let r =
      Effects.calls new_authorized
        (send ∷ time_out ∷ begin ∷ decide proven_absent_and_reauthorized ∷ send ∷ []) in
    (r.transmit_count + Sends.waiting r.state) % 2 ^ 32
    ≡ (1
        + Sends.reauthorizations new_authorized
            (send ∷ time_out ∷ begin ∷ decide proven_absent_and_reauthorized ∷ send ∷ []))
      % 2 ^ 32
transmissions_authorized_example =
    Sends.transmissions_authorized
      (send ∷ time_out ∷ begin ∷ decide proven_absent_and_reauthorized ∷ send ∷ [])

no_blind_resend_example :
    ((Effects.calls unknown_effect
        (send ∷ begin ∷ send ∷ decide unresolved ∷ send ∷ [])).transmit_count
      ≡ 1)
    × ((Effects.calls unknown_effect (send ∷ begin ∷ send ∷ decide unresolved ∷ send ∷ [])).state
        ≢ EffectState.authorized)
unfolding Sends.reauthorizations Effects.call
no_blind_resend_example =
    Sends.no_blind_resend unknown_effect (send ∷ begin ∷ send ∷ decide unresolved ∷ send ∷ [])
      (λ e. cc) refl

abbrev root : RunGrant
root = record {
  id = text "root";
  tenant_id = text "acme";
  principal_id = text "alice";
  parent_id = none;
  actions = text "read" ∷ text "send" ∷ [];
  resources = text "mail" ∷ text "files" ∷ [];
  expires_at = pos 100;
}

abbrev narrower : ChildGrantRequest
narrower = record {
  id = text "child";
  tenant_id = text "acme";
  principal_id = text "worker";
  actions = text "read" ∷ [];
  resources = text "mail" ∷ [];
  expires_at = pos 60;
}

delegation_narrows_example :
    ((child_of root narrower).tenant_id ≡ root.tenant_id)
    × ((action resource : Text) (now : ℤ)
        → authorize (child_of root narrower) action resource now ≡ ok tt
        → authorize root action resource now ≡ ok tt)
unfolding derive_chain derive_child text_eq is_subset
delegation_narrows_example = delegation_narrows root (narrower ∷ []) (child_of root narrower) refl

narrower_granted :
    ((derive_child root narrower ≡ ok (child_of root narrower)) ↔ Narrows root narrower)
    × ((derive_child root narrower ≡ err delegation_denied) ↔ (¬ Narrows root narrower))
narrower_granted = derive_child_lem root narrower

abbrev approval : ApprovalBinding
approval = record {
  action = text "send";
  target = text "mail";
  content_digest = text "abc";
  target_revision = 3;
  tenant_scope = text "acme";
  actor = text "alice";
  expires_at = pos 50;
}

approved : validate_dispatch approval (bound approval) (pos 49) ≡ ok tt
unfolding validate_dispatch text_eq
approved = refl

expired : validate_dispatch approval (bound approval) (pos 50) ≡ err approval_expired
unfolding validate_dispatch text_eq
expired = refl

validate_dispatch_lem_example :
    ((validate_dispatch approval (bound approval) (pos 49) ≡ ok tt)
      ↔ ((pos 49 <ℤ pos 50) × (bound approval ≡ bound approval)))
    × ((validate_dispatch approval (bound approval) (pos 49) ≡ err approval_expired)
        ↔ (pos 50 ≤ℤ pos 49))
    × ((validate_dispatch approval (bound approval) (pos 49) ≡ err approval_stale)
        ↔ ((pos 49 <ℤ pos 50) × (bound approval ≢ bound approval)))
validate_dispatch_lem_example = validate_dispatch_lem approval (bound approval) (pos 49)

abbrev count_up : ℕ → ℕ × ℕ
count_up world = (world + 1, world)

run_all_bounded_example :
    run_all (Guards.new 2) (count_up ∷ count_up ∷ count_up ∷ []) 5
    ≡ (record { max_turns = 2; completed_turns = 2 }, 7)
run_all_bounded_example = run_all_bounded 2 (count_up ∷ count_up ∷ count_up ∷ []) 5 (omega arith)

seventh_version :
    ((require_expected_version (pos 7) (pos 7) ≡ ok (pos 8))
      ↔ ((pos 7 ≡ pos 7) × (pos 7 <ℤ i32_max) × (pos 8 ≡ pos 8)))
    × ((require_expected_version (pos 7) (pos 7) ≡ err stale_version) ↔ (pos 7 ≢ pos 7))
    × ((require_expected_version (pos 7) (pos 7) ≡ err version_exhausted)
        ↔ ((pos 7 ≡ pos 7) × (i32_max ≤ℤ pos 7)))
seventh_version = require_expected_version_lem (pos 7) (pos 7) (pos 8)

second_writer_refused : require_expected_version (pos 8) (pos 7) ≡ err stale_version
unfolding require_expected_version
second_writer_refused = no_lost_update (pos 7) (pos 7) (pos 8) refl
