-- ===== src/Effects/Tables.antt =====
-- The tables that platform-plugins/data-postgres/src/effect_commands.rs reads and writes, with the rows
-- of one tenant (infra/migrations/0004_effects_and_operations.sql). An instant is the number of its
-- microseconds. A JSON column holds the value that was written to it. The times of creation and update
-- are left out.
use masonwing.Prelude.{ℕ, Bool, Option, List, map_insert, map_get, Result, ok_or, Text, text}
use masonwing.Contracts.Wire.{ResourceRef, ArtifactRef}
use masonwing.Kernel.Runtime.Failure.{CommandFailure, not_found, conflict}
use masonwing.Ledger.Tables.{Ledger}
use masonwing.Delegations.{Delegations}
use masonwing.Approvals.Tables.{ApprovalRows}

pub record Effect : Type 0 where
  pub run_id : Text
  pub grant_id : Text
  pub connection_id : Text
  pub action : Text
  pub target : ResourceRef
  pub content_ref : ArtifactRef
  pub fingerprint : Text
  pub idempotency_key : Text
  pub approval_id : Option Text
  pub reservation_id : Text
  pub state : Text
  pub transmit_count : ℕ
  pub dispatch_fence : ℕ
  pub lease_expires_at : Option ℕ
  pub reconciliation_queued : Bool
  pub original_effect_id : Option Text
  pub version : ℕ

pub record Receipt : Type 0 where
  pub effect_id : Text
  pub outcome : Text
  pub remote_id : Text
  pub remote_version : Text
  pub evidence_ref : ArtifactRef
  pub provider_contract_version : Text
  pub observed_at : ℕ

pub record KillSwitch : Type 0 where
  pub scope : Text
  pub target_id : Text
  pub active : Bool

-- A run: its identifier, its grant and its state.
pub record RunRow : Type 0 where
  pub id : Text
  pub grant_id : Text
  pub state : Text

pub record Store : Type 0 where
  pub tenant_id : Text
  pub effects : List (Text × Effect)
  pub receipts : List (Text × Receipt)
  pub approvals : ApprovalRows
  pub kill_switches : List KillSwitch
  pub connections : List (Text × Text)
  pub runs : List RunRow
  pub delegations : Delegations
  pub ledger : Ledger

-- The projection of an effect (`effect_projection_value`).
pub record EffectProjection : Type 0 where
  pub effect_id : Text
  pub tenant_id : Text
  pub run_id : Text
  pub action : Text
  pub connection_id : Text
  pub target : ResourceRef
  pub content_ref : ArtifactRef
  pub fingerprint : Text
  pub idempotency_key : Text
  pub approval_id : Option Text
  pub reservation_id : Text
  pub state : Text
  pub version : ℕ

abbrev pub effect_projection_value : Text → Text → Effect → EffectProjection
effect_projection_value id tenant_id e = record {
  effect_id = id;
  tenant_id = tenant_id;
  run_id = e.run_id;
  action = e.action;
  connection_id = e.connection_id;
  target = e.target;
  content_ref = e.content_ref;
  fingerprint = e.fingerprint;
  idempotency_key = e.idempotency_key;
  approval_id = e.approval_id;
  reservation_id = e.reservation_id;
  state = e.state;
  version = e.version;
}

-- What a command answers: the projection, its label, and whether the effect was only accepted.
pub record Mutation : Type 0 where
  pub value : EffectProjection
  pub label : Text
  pub accepted : Bool

abbrev pub Answer : Type 0
Answer = Result (Store × Mutation) CommandFailure

-- The tables with a new row of an effect, and the answer.
abbrev pub written : Store → Text → Effect → Text → Bool → Store × Mutation
unfolding map_insert
written s id e label accepted = (
  record s { effects = map_insert id e s.effects },
  record { value = effect_projection_value id s.tenant_id e; label = label; accepted = accepted },
)

abbrev pub illegal_transition : CommandFailure
illegal_transition = conflict (text "ILLEGAL_TRANSITION")

unfoldable pub locked_effect : Store → Text → Result Effect CommandFailure
unfolding map_get
locked_effect s id = ok_or (map_get id s.effects) not_found
