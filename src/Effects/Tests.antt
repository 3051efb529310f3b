-- ===== src/Effects/Tests.antt =====
-- The commands on an effect that was sent once, with its reservation of 40.
use masonwing.Prelude.{
  ◌<◌, text_eq, ap, ◌≡◌, refl, ◌≢◌, inl, inr, true, false, Option, none, some, List, [], ◌∷◌, pos,
  map_insert, map_get, ok, err, contains, Bool-cases, Text, text, text_eq, text_eq_iff,
}
use masonwing.Contracts.Wire.{ArtifactRef, Classification}
use masonwing.Kernel.Effects.{proven_absent_and_reauthorized}
use masonwing.Kernel.Runtime.Failure.{precondition, conflict}
use masonwing.Kernel.Runtime.{require_expected_version}
use masonwing.Kernel.State.Machines.{can_transition_to, cost_edge}
use masonwing.Kernel.State.Parse.{parse}
use masonwing.Ledger.Rows.{require_cost_transition}
use masonwing.Ledger.Operations.{locked_reservation}
use masonwing.Ledger.Tables.{Reservation}
use masonwing.Approvals.Tables.{Approval, ApprovalRows}
use masonwing.Approvals.Decide.{Decision, decide_all}
use masonwing.Effects.Approved.{HasFourEyes, HasOtherDecider, dispatch_effect-HasOtherDecider}
use masonwing.Effects.Tables.{
  Effect, KillSwitch, Store, Mutation, Answer, written, illegal_transition,
}
use masonwing.Effects.Dispatch.{approval_required, dispatch_effect}
use masonwing.Effects.Recording.{Evidence, record_effect_unknown}
use masonwing.Effects.Operations.{
  Command, do_dispatch, do_reconcile, do_time_out, do_resolve, perform, stored, perform_all,
}
use masonwing.Effects.Lifecycle.{IsLegal, perform-IsLegal}
use masonwing.Effects.Resend.{perform_all_transmissions}
use masonwing.Effects.Timeouts.{record_effect_unknown_once}

abbrev content : ArtifactRef
content = record {
  artifact_id = text "a";
  tenant_id = text "t";
  digest = text "00";
  schema_version = text "1.0.0";
  classification = Classification.internal;
}

abbrev effect_in : Text → Option Text → Effect
effect_in state approval_id = record {
  run_id = text "run1";
  grant_id = text "g1";
  connection_id = text "c1";
  action = text "mail.send";
  target = record { resource_type = text "Mail"; resource_id = text "m1"; version = pos 1 };
  content_ref = content;
  fingerprint = text "f1";
  idempotency_key = text "k1";
  approval_id = approval_id;
  reservation_id = text "r1";
  state = state;
  transmit_count = 1;
  dispatch_fence = 2;
  lease_expires_at = none;
  reconciliation_queued = false;
  original_effect_id = none;
  version = 2;
}

abbrev reservation : Reservation
reservation = record {
  run_id = text "run1";
  logical_call_id = text "effect-k1";
  currency = text "USD";
  upper_bound_microunits = 40;
  settled_microunits = none;
  state = text "RESERVED";
  price_profile = text "1.0.0";
  account_keys = [];
  usage_fingerprint = none;
  version = 1;
}

abbrev approval_in : Text → Approval
approval_in state = record {
  run_id = text "run1";
  action = text "mail.send";
  target = record { resource_type = text "Mail"; resource_id = text "m1"; version = pos 1 };
  content_digest = text "00";
  scope_digest = text "01";
  policy_version = text "1";
  max_cost_microunits = 40;
  currency = text "USD";
  expires_at = 100;
  created_by = text "author";
  decided_by = some (text "reviewer");
  decided_issuer = some (text "issuer");
  state = state;
  decision_reason = some (text "read");
  version = 2;
}

abbrev store_of : Effect → List KillSwitch → Store
store_of e switches = record {
  tenant_id = text "t";
  effects = (text "e1", e) ∷ [];
  receipts = [];
  approvals =
      (text "ap1", approval_in (text "APPROVED"))
      ∷ (text "ap2", approval_in (text "REJECTED"))
      ∷ [];
  kill_switches = switches;
  connections = [];
  runs = [];
  delegations = [];
  ledger = record {
    settings = [];
    accounts = [];
    reservations = (text "r1", reservation) ∷ [];
    events = [];
  };
}

abbrev running : Store
running = store_of (effect_in (text "EXECUTING") none) []

abbrev no_evidence : Evidence
no_evidence = record {
  receipt_id = text "x";
  remote_id = none;
  evidence_ref = none;
  used_microunits = none;
}

abbrev time_out : Command
time_out = do_time_out (text "e1")

-- The way back to a second transmission.
abbrev retry : List Command
retry =
    do_reconcile (text "e1") (pos 3)
    ∷ do_resolve 50 (text "e1") proven_absent_and_reauthorized no_evidence
    ∷ do_dispatch 60 (text "e1") (pos 5)
    ∷ []

abbrev answer_or : Mutation → Answer → Mutation
answer_or default (ok (_, m)) = m
answer_or default (err _) = default

abbrev some_answer : Mutation
unfolding map_insert
some_answer =
    (written running (text "e1") (effect_in (text "EXECUTING") none) (text "none") false).1

abbrev lost : Store
unfolding perform
lost = stored running (perform running time_out)

abbrev lost_answer : Mutation
unfolding perform
lost_answer = answer_or some_answer (perform running time_out)

timed-out : perform running time_out ≡ ok (lost, lost_answer)
unfolding perform locked_reservation require_cost_transition parse can_transition_to cost_edge
timed-out = refl

perform-IsLegal_example : IsLegal running (text "e1") lost lost_answer
perform-IsLegal_example = perform-IsLegal running lost time_out lost_answer timed-out

timed-out_recorded : record_effect_unknown running (text "e1") ≡ ok (lost, lost_answer)
unfolding perform locked_reservation require_cost_transition parse can_transition_to cost_edge
timed-out_recorded = refl

record_effect_unknown_once_example :
    record_effect_unknown (perform_all lost retry) (text "e1") ≢ ok (running, lost_answer)
record_effect_unknown_once_example =
    record_effect_unknown_once running lost running (text "e1") lost_answer lost_answer retry
      timed-out_recorded

-- After the second transmission the timeout of it is refused.
second_timeout : record_effect_unknown (perform_all lost retry) (text "e1") ≡ err illegal_transition
unfolding perform_all require_expected_version locked_reservation require_cost_transition parse
    can_transition_to cost_edge
second_timeout = refl

perform_all_transmissions_example :
    (row : Effect) × (map_get
        (text "e1")
        (perform_all running (time_out ∷ do_dispatch 60 (text "e1") (pos 3) ∷ [])).effects
      ≡ some row)
    × (row.transmit_count ≡ 1)
unfolding contains map_get
perform_all_transmissions_example =
    perform_all_transmissions running (text "e1") (effect_in (text "EXECUTING") none)
      (time_out ∷ do_dispatch 60 (text "e1") (pos 3) ∷ []) refl refl
      ((λ _. refl), ((λ _. refl), tt))

killed :
    dispatch_effect
      (store_of
        (effect_in (text "AUTHORIZED") none)
        (record { scope = text "CONNECTION"; target_id = text "c1"; active = true } ∷ []))
      50
      (text "e1")
      (pos 2)
    ≡ err (precondition (text "KILL_SWITCH_ACTIVE"))
unfolding dispatch_effect require_expected_version
killed = refl

unapproved :
    dispatch_effect
      (store_of (effect_in (text "AUTHORIZED") (some (text "ap2"))) [])
      50
      (text "e1")
      (pos 2)
    ≡ err approval_required
unfolding dispatch_effect require_expected_version
unapproved = refl

expired :
    dispatch_effect
      (store_of (effect_in (text "AUTHORIZED") (some (text "ap1"))) [])
      100
      (text "e1")
      (pos 2)
    ≡ err (precondition (text "APPROVAL_EXPIRED"))
unfolding dispatch_effect require_expected_version
expired = refl

blind_resend :
    dispatch_effect (store_of (effect_in (text "OUTCOME_UNKNOWN") none) []) 50 (text "e1") (pos 2)
    ≡ err (conflict (text "OUTCOME_UNKNOWN_BLOCKS_RESEND"))
unfolding dispatch_effect require_expected_version
blind_resend = refl

abbrev decision : Decision
decision = record {
  principal_id = text "reviewer";
  issuer = text "issuer";
  proposal_id = text "ap1";
  decision = text "APPROVE";
  expected_version = pos 1;
  content_digest = text "00";
  reason = text "read";
}

abbrev requested : Approval
requested = record (approval_in (text "REQUESTED")) { decided_by = none; version = 1 }

abbrev requested_rows : ApprovalRows
requested_rows = (text "ap1", requested) ∷ []

abbrev prepared : Store
unfolding decide_all
prepared = record (store_of (effect_in (text "AUTHORIZED") (some (text "ap1"))) []) {
  approvals = decide_all requested_rows ((10, decision) ∷ []);
}

abbrev sent_store : Store
unfolding perform
sent_store = stored prepared (perform prepared (do_dispatch 50 (text "e1") (pos 2)))

abbrev sent_answer : Mutation
unfolding perform
sent_answer = answer_or some_answer (perform prepared (do_dispatch 50 (text "e1") (pos 2)))

sent-approved : dispatch_effect prepared 50 (text "e1") (pos 2) ≡ ok (sent_store, sent_answer)
unfolding perform require_expected_version decide_all
sent-approved = refl

requested-HasFourEyes : HasFourEyes requested_rows
unfolding map_get
requested-HasFourEyes id a found approved = elim (Bool-cases (text_eq (text "ap1") id)) [
  | inl same ↦
      let row_is : requested ≡ a = cc (rw same at found) in
      absurd (
        cc (
          ap (λ (x : Approval). text_eq x.state (text "APPROVED")) row_is,
          (text_eq_iff a.state (text "APPROVED")).1 approved,
        ))
  | inr other ↦ absurd (cc (rw other at found))
]

dispatch_effect-HasOtherDecider_example :
    (a : Approval) × (map_get (text "ap1") prepared.approvals ≡ some a)
    × (50 < a.expires_at)
    × HasOtherDecider a
unfolding map_get decide_all prepared
dispatch_effect-HasOtherDecider_example =
    dispatch_effect-HasOtherDecider prepared sent_store requested_rows ((10, decision) ∷ []) 50
      (text "e1") (pos 2) sent_answer (effect_in (text "AUTHORIZED") (some (text "ap1")))
      (text "ap1") requested-HasFourEyes refl refl refl sent-approved
