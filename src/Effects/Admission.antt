-- ===== src/Effects/Admission.antt =====
-- platform-plugins/data-postgres/src/effect_commands.rs: `propose_effect` and `compensate_effect`. New
-- identifiers are drawn at random by a library and are arguments; the digest of the canonical JSON of
-- action, target and content is made by libraries and is a parameter.
use masonwing.Prelude.{
  ℕ, Bool, true, false, not, ◌&&◌, ◌||◌, Option, none, some, List, [], ◌∷◌, ◌++◌, ℤ, pos,
  map_insert, map_get, Result, ok, err, ◌>>=◌, guard, ok_or, contains, if◌then◌else◌, Text, text,
  text_eq,
}
use masonwing.Contracts.Wire.{ResourceRef, ArtifactRef}
use masonwing.Kernel.Runtime.Failure.{CommandFailure, invalid, not_found, precondition, conflict}
use masonwing.Delegations.{Actor, require_active_grant}
use masonwing.Approvals.Tables.{Approval}
use masonwing.Ledger.Tables.{resource_conflict}
use masonwing.Ledger.Rows.{ReserveCall}
use masonwing.Ledger.Operations.{reserve_budget}
use masonwing.Effects.Tables.{
  Effect, RunRow, Store, Mutation, Answer, effect_projection_value, written,
}
use masonwing.Effects.Dispatch.{require_dispatch_enabled, approval_required}

pub record Proposal : Type 0 where
  pub new_id : Text
  pub new_reservation_id : Text
  pub actor : Actor
  pub action : Text
  pub connection_id : Text
  pub target : ResourceRef
  pub content_ref : ArtifactRef
  pub grant_id : Text
  pub price_profile : Text
  pub idempotency_key : Text

unfoldable pub check_connection : Option Text → Result (Unit {0}) CommandFailure
unfolding text_eq
check_connection none = err not_found
check_connection (some state) =
    guard (text_eq state (text "ACTIVE")) (precondition (text "CONNECTION_NOT_ACTIVE"))

abbrev ended_states : List Text
ended_states = text "SUCCEEDED" ∷ text "FAILED" ∷ text "CANCELLED" ∷ []

unfoldable pub active_runs : List RunRow → Text → List Text
unfolding text_eq contains
active_runs [] grant_id = []
active_runs (r ∷ rest) grant_id =
    let others = active_runs rest grant_id in
    if text_eq r.grant_id grant_id && not (contains ended_states r.state)
    then r.id ∷ others
    else others

unfoldable pub only_run : List Text → Result Text CommandFailure
only_run [] = err (precondition (text "RUN_CONTEXT_REQUIRED"))
only_run (id ∷ []) = ok id
only_run (_ ∷ _ ∷ _) = err (conflict (text "RUN_CONTEXT_AMBIGUOUS"))

-- The row of a connection and a key.
unfoldable pub find_by_key : List (Text × Effect) → Text → Text → Option (Text × Effect)
unfolding text_eq
find_by_key [] connection_id key = none
find_by_key ((id, e) ∷ rest) connection_id key =
    let later = find_by_key rest connection_id key in
    if text_eq e.connection_id connection_id && text_eq e.idempotency_key key
    then some (id, e)
    else later

abbrev pub is_free : Option Effect → Option (Text × Effect) → Bool
is_free none none = true
is_free _ _ = false

-- The INSERT of an effect, under its keys.
unfoldable pub insert_effect : Store → Text → Effect → Text → Bool → Answer
unfolding find_by_key map_get map_insert
insert_effect s id e label accepted =
    guard (is_free (map_get id s.effects) (find_by_key s.effects e.connection_id e.idempotency_key))
      resource_conflict
    >>= λ _. ok (written s id e label accepted)

abbrev usd_accounts : List Text
usd_accounts = text "RUN:USD:default" ∷ text "DAY:USD:default" ∷ []

abbrev pub usd_call : Text → Text → Text → ℤ → Text → ReserveCall
usd_call id run_id call_id bound price_profile = record {
  id = id;
  run_exists = true;
  run_id = run_id;
  logical_call_id = call_id;
  currency = text "USD";
  upper_bound_microunits = bound;
  price_profile = price_profile;
  account_keys = usd_accounts;
}

abbrev pub bound_of : Text → ℤ
unfolding text_eq
bound_of price_profile = if text_eq price_profile (text "0.0.0") then pos 0 else pos 20

abbrev pub prepared_effect : Proposal → Text → Text → Text → Effect
prepared_effect p run_id fingerprint reservation_id = record {
  run_id = run_id;
  grant_id = p.grant_id;
  connection_id = p.connection_id;
  action = p.action;
  target = p.target;
  content_ref = p.content_ref;
  fingerprint = fingerprint;
  idempotency_key = p.idempotency_key;
  approval_id = none;
  reservation_id = reservation_id;
  state = text "PREPARED";
  transmit_count = 0;
  dispatch_fence = 1;
  lease_expires_at = none;
  reconciliation_queued = false;
  original_effect_id = none;
  version = 1;
}

-- The replay of a proposal: the values of the command beside those of the row.
abbrev pub replayed : Store → Proposal → Text → Text → Effect → Mutation
replayed s p run_id id e = record {
  value = effect_projection_value id s.tenant_id (record e {
    run_id = run_id;
    action = p.action;
    connection_id = p.connection_id;
    target = p.target;
    content_ref = p.content_ref;
    idempotency_key = p.idempotency_key;
  });
  label = text "propose effect replay";
  accepted = true;
}

-- What follows the search for a row of the key.
unfoldable pub propose_at : Store → Proposal → Text → Text → Option (Text × Effect) → Answer
unfolding text_eq reserve_budget insert_effect
propose_at s p run_id fingerprint (some (id, e)) =
    guard (text_eq e.fingerprint fingerprint) (conflict (text "IDEMPOTENCY_CONFLICT")) >>= λ _.
    ok (s, replayed s p run_id id e)
propose_at s p run_id fingerprint none =
    reserve_budget s.ledger (
      usd_call p.new_reservation_id run_id (text "effect-" ++ p.idempotency_key)
        (bound_of p.price_profile) p.price_profile)
    >>= λ l.
        insert_effect (record s { ledger = l.0 }) p.new_id
          (prepared_effect p run_id fingerprint (l.1.reservation_id)) (text "propose effect") true

module _ (fingerprint_of : Text → ResourceRef → Text → Option Text) where
  unfoldable pub propose_effect : Store → ℕ → Proposal → Answer
  unfolding text_eq map_get check_connection require_active_grant require_dispatch_enabled
      active_runs only_run find_by_key propose_at
  propose_effect s now p = guard (text_eq p.content_ref.tenant_id s.tenant_id) not_found >>= λ _.
      check_connection (map_get p.connection_id s.connections) >>= λ _.
      require_active_grant s.delegations now p.actor p.grant_id (some p.action) (some p.target)
      >>= λ _. require_dispatch_enabled s none (some p.connection_id) >>= λ _.
          only_run (active_runs s.runs p.grant_id) >>= λ run_id.
          ok_or (fingerprint_of p.action p.target p.content_ref.digest)
            (invalid (text "SCHEMA_INVALID"))
          >>= λ fingerprint.
              propose_at s p run_id fingerprint
                (find_by_key s.effects p.connection_id p.idempotency_key)

-- A compensation: of which effect, on which approval.
pub record Compensation : Type 0 where
  pub new_id : Text
  pub new_reservation_id : Text
  pub original_effect_id : Text
  pub compensation_ref : ArtifactRef
  pub approval_id : Text
  pub idempotency_key : Text

abbrev pub completed_states : List Text
completed_states = text "SUCCEEDED" ∷ text "FAILED_CONFIRMED" ∷ []

abbrev pub is_name : Option Text → Text → Bool
unfolding text_eq
is_name none id = false
is_name (some x) id = text_eq x id

-- Whether the approval has been used for a compensation of the effect.
unfoldable pub is_reused : List (Text × Effect) → Text → Text → Bool
unfolding text_eq
is_reused [] original approval = false
is_reused ((_, e) ∷ rest) original approval =
    (is_name e.original_effect_id original && is_name e.approval_id approval)
    || is_reused rest original approval

unfoldable pub check_separate : Option Approval → Result (Unit {0}) CommandFailure
unfolding text_eq
check_separate none = err not_found
check_separate (some a) = guard (text_eq a.state (text "APPROVED")) approval_required

abbrev pub compensating : Effect → Compensation → Text → Text → Text → Effect
compensating e c action fingerprint reservation_id = record {
  run_id = e.run_id;
  grant_id = e.grant_id;
  connection_id = e.connection_id;
  action = action;
  target = e.target;
  content_ref = c.compensation_ref;
  fingerprint = fingerprint;
  idempotency_key = c.idempotency_key;
  approval_id = some c.approval_id;
  reservation_id = reservation_id;
  state = text "AUTHORIZED";
  transmit_count = 0;
  dispatch_fence = 1;
  lease_expires_at = none;
  reconciliation_queued = false;
  original_effect_id = some c.original_effect_id;
  version = 1;
}

module _ (fingerprint_of : Text → ResourceRef → Text → Option Text) where
  unfoldable pub compensate_effect : Store → Compensation → Answer
  unfolding map_get contains check_separate is_reused reserve_budget insert_effect
  compensate_effect s c = ok_or (map_get c.original_effect_id s.effects) not_found >>= λ e.
      guard (contains completed_states e.state) (precondition (text "EFFECT_NOT_COMPLETED"))
      >>= λ _.
          guard (not (is_name e.approval_id c.approval_id))
            (precondition (text "SEPARATE_APPROVAL_REQUIRED"))
          >>= λ _. check_separate (map_get c.approval_id s.approvals) >>= λ _.
              guard (not (is_reused s.effects c.original_effect_id c.approval_id))
                (precondition (text "APPROVAL_ALREADY_USED"))
              >>= λ _.
                  let action = e.action ++ text ".compensate" in
                  ok_or (fingerprint_of action e.target c.compensation_ref.digest)
                    (invalid (text "SCHEMA_INVALID"))
                  >>= λ fingerprint.
                      reserve_budget s.ledger (
                        usd_call c.new_reservation_id e.run_id (text "compensate-" ++ c.new_id)
                          (pos 20) (text "1.0.0"))
                      >>= λ l.
                          insert_effect (record s { ledger = l.0 }) c.new_id
                            (compensating e c action fingerprint (l.1.reservation_id))
                            (text "compensate effect") false
