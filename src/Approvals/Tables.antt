-- ===== src/Approvals/Tables.antt =====
-- The rows of infra/migrations/0004_effects_and_operations.sql that
-- platform-plugins/data-postgres/src/approval_commands.rs reads and writes. An instant is the number of
-- its microseconds. The times of creation and update are left out.
use masonwing.Prelude.{ℕ, Option, List, Text}
use masonwing.Contracts.Wire.{ResourceRef}

pub record Approval : Type 0 where
  pub run_id : Text
  pub action : Text
  pub target : ResourceRef
  pub content_digest : Text
  pub scope_digest : Text
  pub policy_version : Text
  pub max_cost_microunits : ℕ
  pub currency : Text
  pub expires_at : ℕ
  pub created_by : Text
  pub decided_by : Option Text
  pub decided_issuer : Option Text
  pub state : Text
  pub decision_reason : Option Text
  pub version : ℕ

abbrev pub ApprovalRows : Type 0
ApprovalRows = List (Text × Approval)
