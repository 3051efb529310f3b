-- ===== src/Registration/Failures.antt =====
-- The failures of platform-plugins/data-postgres/src/registry_validation.rs.
use masonwing.Prelude.{text}
use masonwing.Kernel.Runtime.Failure.{CommandFailure, invalid, precondition, unavailable}

abbrev pub manifest_invalid : CommandFailure
manifest_invalid = invalid (text "MANIFEST_INVALID")

abbrev pub workflow_invalid : CommandFailure
workflow_invalid = precondition (text "WORKFLOW_INVALID")

abbrev pub dependency_cycle_found : CommandFailure
dependency_cycle_found = precondition (text "DEPENDENCY_CYCLE")

abbrev pub dependency_missing : CommandFailure
dependency_missing = precondition (text "DEPENDENCY_UNSATISFIED")

abbrev pub registry_capacity : CommandFailure
registry_capacity = precondition (text "REGISTRY_CAPACITY")

abbrev pub catalog_invalid : CommandFailure
catalog_invalid = unavailable (text "CONTRACT_CATALOG_INVALID")

abbrev pub scope_denied : CommandFailure
scope_denied = precondition (text "EXTENSION_SCOPE_DENIED")

abbrev pub config_unsupported : CommandFailure
config_unsupported = precondition (text "CONFIG_UNSUPPORTED")

abbrev pub contract_unsupported : CommandFailure
contract_unsupported = precondition (text "CONTRACT_UNSUPPORTED")

abbrev pub lock_invalid : CommandFailure
lock_invalid = invalid (text "PLUGIN_LOCK_INVALID")
