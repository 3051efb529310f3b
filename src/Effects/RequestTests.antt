-- ===== src/Effects/RequestTests.antt =====
-- A proposal, its replay, its dispatch and success, and a compensation.
use masonwing.Prelude.{◌≡◌, refl, none, some, List, [], ◌∷◌, pos, map_get, Option, Text, text}
use masonwing.Contracts.Wire.{ResourceRef, ArtifactRef, Classification}
use masonwing.Approvals.Tables.{Approval}
use masonwing.Delegations.{Delegation}
use masonwing.Ledger.Tables.{Reservation}
use masonwing.Effects.Tables.{Effect, Store}
use masonwing.Effects.Admission.{Proposal, Compensation}
use masonwing.Effects.Recording.{Success}
use masonwing.Effects.Operations.{do_dispatch, do_succeed}
use masonwing.Effects.Covered.{AllCovered}
use masonwing.Effects.Requests.{Request, do_propose, do_compensate, do_command, request_all}
use masonwing.Effects.Requests.Covered.{request_all-AllCovered}

abbrev content : Text → ArtifactRef
content digest = record {
  artifact_id = text "a";
  tenant_id = text "t";
  digest = digest;
  schema_version = text "1.0.0";
  classification = Classification.internal;
}

abbrev mail : ResourceRef
mail = record { resource_type = text "Mail"; resource_id = text "m1"; version = pos 1 }

abbrev grant : Delegation
grant = record {
  principal_id = text "worker";
  principal_type = text "SERVICE";
  issuer = text "issuer";
  creator_id = text "creator";
  actions = text "mail.send" ∷ [];
  resources = mail ∷ [];
  parent_grant_id = none;
  expires_at = 100;
  state = text "ACTIVE";
  version = 1;
  fence = 1;
}

abbrev approval : Approval
approval = record {
  run_id = text "run1";
  action = text "mail.send.compensate";
  target = mail;
  content_digest = text "d9";
  scope_digest = text "01";
  policy_version = text "1";
  max_cost_microunits = 40;
  currency = text "USD";
  expires_at = 100;
  created_by = text "author";
  decided_by = some (text "reviewer");
  decided_issuer = some (text "issuer");
  state = text "APPROVED";
  decision_reason = some (text "read");
  version = 2;
}

abbrev empty : Store
empty = record {
  tenant_id = text "t";
  effects = [];
  receipts = [];
  approvals = (text "ap9", approval) ∷ [];
  kill_switches = [];
  connections = (text "c1", text "ACTIVE") ∷ [];
  runs = record { id = text "run1"; grant_id = text "g1"; state = text "RUNNING" } ∷ [];
  delegations = (text "g1", grant) ∷ [];
  ledger = record {
    settings =
        record { currency = text "USD"; period = text "RUN"; limit_microunits = 100 }
        ∷ record { currency = text "USD"; period = text "DAY"; limit_microunits = 100 }
        ∷ [];
    accounts = [];
    reservations = [];
    events = [];
  };
}

abbrev proposal : Text → Text → Proposal
proposal new_id new_reservation_id = record {
  new_id = new_id;
  new_reservation_id = new_reservation_id;
  actor = record { principal_id = text "worker"; issuer = text "issuer" };
  action = text "mail.send";
  connection_id = text "c1";
  target = mail;
  content_ref = content (text "d1");
  grant_id = text "g1";
  price_profile = text "1.0.0";
  idempotency_key = text "k1";
}

abbrev success : Success
success = record {
  receipt_id = text "x1";
  remote_id = text "m1";
  evidence_ref = content (text "d2");
  used_microunits = pos 7;
}

abbrev compensation : Compensation
compensation = record {
  new_id = text "e9";
  new_reservation_id = text "r9";
  original_effect_id = text "e1";
  compensation_ref = content (text "d9");
  approval_id = text "ap9";
  idempotency_key = text "k9";
}

-- The digest of the content stands for the fingerprint.
abbrev digest_of : Text → ResourceRef → Text → Option Text
digest_of action target digest = some digest

abbrev requests : List Request
requests =
    do_propose 50 (proposal (text "e1") (text "r1"))
    ∷ do_propose 51 (proposal (text "e2") (text "r2"))
    ∷ do_command (do_dispatch 52 (text "e1") (pos 1))
    ∷ do_command (do_succeed 53 (text "e1") success)
    ∷ do_compensate compensation
    ∷ []

empty-AllCovered : AllCovered empty
unfolding map_get
empty-AllCovered = record {
  covered = λ id e h. absurd cc;
  apart = λ id other e f h k same. absurd cc;
}

request_all-AllCovered_example : AllCovered (request_all digest_of empty requests)
request_all-AllCovered_example = request_all-AllCovered digest_of empty requests empty-AllCovered

abbrev state_and_reservation : Option Effect → Option (Text × Text)
state_and_reservation none = none
state_and_reservation (some e) = some (e.state, e.reservation_id)

abbrev cost_state : Option Reservation → Option Text
cost_state none = none
cost_state (some r) = some r.state

abbrev last : Store
unfolding request_all
last = request_all digest_of empty requests

proposed_effect :
    state_and_reservation (map_get (text "e1") last.effects) ≡ some (text "SUCCEEDED", text "r1")
unfolding last request_all map_get
proposed_effect = refl

compensating_effect :
    (state_and_reservation (map_get (text "e9") last.effects) ≡ some (text "AUTHORIZED", text "r9"))
    × (map_get (text "e2") last.effects ≡ none)
unfolding last request_all map_get
compensating_effect = (refl, refl)

costs :
    (cost_state (map_get (text "r1") last.ledger.reservations) ≡ some (text "SETTLED"))
    × (cost_state (map_get (text "r9") last.ledger.reservations) ≡ some (text "RESERVED"))
unfolding last request_all map_get
costs = (refl, refl)
