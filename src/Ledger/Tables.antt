-- ===== src/Ledger/Tables.antt =====
-- The tables that platform-plugins/data-postgres/src/budget_ledger.rs reads and writes, with the rows
-- of one tenant (infra/migrations/0004_effects_and_operations.sql). A bigint that a CHECK keeps from
-- being negative is a natural number. Creation times are left out.
use masonwing.Prelude.{ℕ, Option, List, ℤ, Text, text}
use masonwing.Kernel.Runtime.Failure.{CommandFailure, conflict, invalid, unavailable}

pub record Setting : Type 0 where
  pub currency : Text
  pub period : Text
  pub limit_microunits : ℕ

pub record Account : Type 0 where
  pub currency : Text
  pub limit_microunits : ℕ
  pub held_microunits : ℕ
  pub charged_microunits : ℕ

pub record Reservation : Type 0 where
  pub run_id : Text
  pub logical_call_id : Text
  pub currency : Text
  pub upper_bound_microunits : ℕ
  pub settled_microunits : Option ℕ
  pub state : Text
  pub price_profile : Text
  pub account_keys : List Text
  pub usage_fingerprint : Option Text
  pub version : ℕ

pub record CostEvent : Type 0 where
  pub reservation_id : Text
  pub event_type : Text
  pub held_delta : ℤ
  pub charged_delta : ℤ
  pub usage_fingerprint : Option Text

pub record Ledger : Type 0 where
  pub settings : List Setting
  pub accounts : List (Text × Account)
  pub reservations : List (Text × Reservation)
  pub events : List CostEvent

-- `database_failure` of the errors that the statements of the ledger can meet: a CHECK that does not
-- hold or a number out of range, a key that is taken, and a column that cannot be read.
abbrev pub constraint_invalid : CommandFailure
constraint_invalid = invalid (text "CONSTRAINT_INVALID")

abbrev pub resource_conflict : CommandFailure
resource_conflict = conflict (text "RESOURCE_CONFLICT")

abbrev pub adapter_unavailable : CommandFailure
adapter_unavailable = unavailable (text "DATA_ADAPTER_UNAVAILABLE")
