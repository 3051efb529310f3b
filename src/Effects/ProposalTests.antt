-- ===== src/Effects/ProposalTests.antt =====
-- A proposal, its replay, and a compensation.
use masonwing.Prelude.{
  ◌≡◌, refl, false, Option, none, some, [], ◌∷◌, ◌++◌, pos, ok, err, Text, text,
}
use masonwing.Contracts.Wire.{ResourceRef, ArtifactRef, Classification}
use masonwing.Kernel.Runtime.Failure.{precondition, conflict}
use masonwing.Delegations.{Delegation}
use masonwing.Effects.Tables.{Store, Mutation, Answer}
use masonwing.Effects.Admission.{Proposal, Compensation, propose_effect, compensate_effect}
use masonwing.Effects.Idempotency.{propose_effect_once}

abbrev content : Text → ArtifactRef
content digest = record {
  artifact_id = text "a";
  tenant_id = text "t";
  digest = digest;
  schema_version = text "1.0.0";
  classification = Classification.internal;
}

abbrev mail : ResourceRef
mail = record { resource_type = text "Mail"; resource_id = text "m1"; version = pos 1 }

abbrev grant : Delegation
grant = record {
  principal_id = text "worker";
  principal_type = text "SERVICE";
  issuer = text "issuer";
  creator_id = text "creator";
  actions = text "mail.send" ∷ [];
  resources = mail ∷ [];
  parent_grant_id = none;
  expires_at = 100;
  state = text "ACTIVE";
  version = 1;
  fence = 1;
}

abbrev empty : Store
empty = record {
  tenant_id = text "t";
  effects = [];
  receipts = [];
  approvals = [];
  kill_switches = [];
  connections = (text "c1", text "ACTIVE") ∷ [];
  runs = record { id = text "run1"; grant_id = text "g1"; state = text "RUNNING" } ∷ [];
  delegations = (text "g1", grant) ∷ [];
  ledger = record {
    settings =
        record { currency = text "USD"; period = text "RUN"; limit_microunits = 100 }
        ∷ record { currency = text "USD"; period = text "DAY"; limit_microunits = 100 }
        ∷ [];
    accounts = [];
    reservations = [];
    events = [];
  };
}

abbrev proposal : Text → Text → Proposal
proposal new_id digest = record {
  new_id = new_id;
  new_reservation_id = text "r-" ++ new_id;
  actor = record { principal_id = text "worker"; issuer = text "issuer" };
  action = text "mail.send";
  connection_id = text "c1";
  target = mail;
  content_ref = content digest;
  grant_id = text "g1";
  price_profile = text "1.0.0";
  idempotency_key = text "k1";
}

-- The digest of the content stands for the fingerprint.
abbrev digest_of : Text → ResourceRef → Text → Option Text
digest_of action target digest = some digest

abbrev stored : Store → Answer → Store
stored s (ok (after, _)) = after
stored s (err _) = s

abbrev answer_or : Mutation → Answer → Mutation
answer_or default (ok (_, m)) = m
answer_or default (err _) = default

abbrev no_answer : Mutation
no_answer = record {
  value = record {
    effect_id = [];
    tenant_id = [];
    run_id = [];
    action = [];
    connection_id = [];
    target = mail;
    content_ref = content [];
    fingerprint = [];
    idempotency_key = [];
    approval_id = none;
    reservation_id = [];
    state = [];
    version = 0;
  };
  label = [];
  accepted = false;
}

abbrev first : Answer
first = propose_effect digest_of empty 50 (proposal (text "e1") (text "d1"))

abbrev second : Answer
second = propose_effect digest_of (stored empty first) 60 (proposal (text "e2") (text "d1"))

first_accepted : first ≡ ok (stored empty first, answer_or no_answer first)
unfolding propose_effect
first_accepted = refl

second_accepted : second ≡ ok (stored empty second, answer_or no_answer second)
unfolding propose_effect
second_accepted = refl

propose_effect_once_example :
    (stored empty second ≡ stored empty first)
    × ((answer_or no_answer second).value.effect_id ≡ (answer_or no_answer first).value.effect_id)
propose_effect_once_example =
    propose_effect_once digest_of empty (stored empty first) (stored empty second) 50 60
      (proposal (text "e1") (text "d1")) (proposal (text "e2") (text "d1"))
      (answer_or no_answer first) (answer_or no_answer second) refl refl first_accepted
      second_accepted

other_content :
    propose_effect digest_of (stored empty first) 60 (proposal (text "e2") (text "d2"))
    ≡ err (conflict (text "IDEMPOTENCY_CONFLICT"))
unfolding propose_effect
other_content = refl

no_run :
    propose_effect digest_of (record empty { runs = [] }) 50 (proposal (text "e1") (text "d1"))
    ≡ err (precondition (text "RUN_CONTEXT_REQUIRED"))
unfolding propose_effect
no_run = refl

abbrev compensation : Compensation
compensation = record {
  new_id = text "e9";
  new_reservation_id = text "r9";
  original_effect_id = text "e1";
  compensation_ref = content (text "d9");
  approval_id = text "ap9";
  idempotency_key = text "k9";
}

incomplete :
    compensate_effect digest_of (stored empty first) compensation
    ≡ err (precondition (text "EFFECT_NOT_COMPLETED"))
unfolding propose_effect compensate_effect
incomplete = refl
