-- ===== src/Sdk/Errors.antt =====
-- crates/sdk/src/lib.rs: `SdkError`, with the errors that the modelled functions answer.
use masonwing.Prelude.{Text, List}

pub data SdkError : Type 0 where
  unsupported_operation : (operation : Text) → SdkError
  contract_incompatible : (required : Text) → SdkError
  plugin_identity_mismatch : SdkError
  input_schema_mismatch : SdkError
  output_schema_mismatch : SdkError
  invalid_invocation : (what : Text) → SdkError
  invalid_package : (what : Text) → SdkError
  not_implemented : (operation : Text) (trace_ids : List Text) → SdkError
