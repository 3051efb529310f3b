-- ===== src/Sdk/Tests.antt =====
-- The public surface of plugins at a small package, an invocation and a table of two edges.
use masonwing.Prelude.{
  ℕ, zero, suc, ◌≡◌, refl, ◌↔◌, some, List, [], ◌∷◌, ◌++◌, arith, ok, err, Text, text,
}
use masonwing.Contracts.Wire.{ExecutionClass, ArtifactRef, Classification, HandlerContract}
use masonwing.Contracts.Values.{all_bytes, sha256, sha256_prefix, parse_digest}
use masonwing.Contracts.Values.Laws.{IsDigest, parse_digest_lem}
use masonwing.Sdk.Errors.{contract_incompatible, invalid_package}
use masonwing.Sdk.Versions.{parse_digits, ensure_contract_compatible}
use masonwing.Sdk.Versions.Laws.{IsCompatible, ensure_contract_compatible_lem}
use masonwing.Sdk.Package.{PackagedPluginFixture, hex, sha256_digest, validate}
use masonwing.Sdk.Package.Laws.{sha256_digest_total}
use masonwing.Sdk.Invocation.{
  PluginDescriptor, InvocationContext, InvocationInput, new_context, validate_invocation,
}
use masonwing.Sdk.Invocation.Laws.{IsAccepted, validate_invocation-IsAccepted}
use masonwing.Sdk.Machine.{FiniteStateContract, VersionedContractState}

accepts_one : ensure_contract_compatible (text "1.0.0") ≡ ok tt
unfolding ensure_contract_compatible parse_digits
accepts_one = refl

refuses_two : ensure_contract_compatible (text "2.0.0") ≡ err (contract_incompatible (text "2.0.0"))
unfolding ensure_contract_compatible parse_digits
refuses_two = refl

-- A plus sign is part of a number.
accepts_plus : ensure_contract_compatible (text "+1.02.3") ≡ ok tt
unfolding ensure_contract_compatible parse_digits
accepts_plus = refl

ensure_contract_compatible_lem_example :
    ((ensure_contract_compatible (text "1.4.2") ≡ ok tt) ↔ IsCompatible (text "1.4.2"))
    × ((ensure_contract_compatible (text "1.4.2") ≡ err (contract_incompatible (text "1.4.2")))
        ↔ (¬ IsCompatible (text "1.4.2")))
ensure_contract_compatible_lem_example = ensure_contract_compatible_lem (text "1.4.2")

abbrev zeros : ℕ → List ℕ
zeros zero = []
zeros (suc n) = 0 ∷ zeros n

-- A hash that is the same for all bytes.
abbrev constant_hash : List ℕ → List ℕ
constant_hash _ = zeros 32

abbrev zero_digest : Text
unfolding hex
zero_digest = sha256_prefix ++ hex (zeros 32)

parse_digest_lem_example :
    ((digits : Text) → (sha256 digits ≡ ok zero_digest) ↔ IsDigest digits zero_digest)
    × ((parse_digest zero_digest ≡ ok zero_digest)
        ↔ ((zero_digest ≡ zero_digest) × ((digits : Text) × IsDigest digits zero_digest)))
parse_digest_lem_example = parse_digest_lem zero_digest zero_digest

constant_digest_made : sha256_digest constant_hash (1 ∷ []) ≡ some zero_digest
unfolding hex
constant_digest_made = sha256_digest_total constant_hash (1 ∷ []) refl (omega arith)

abbrev schema : ArtifactRef
schema = record {
  artifact_id = text "schema";
  tenant_id = text "acme";
  digest = zero_digest;
  schema_version = text "1.0.0";
  classification = Classification.internal;
}

abbrev handler : Text → HandlerContract
handler effects = record {
  id = text "fixture.invoke";
  input_schema_ref = schema;
  output_schema_ref = schema;
  effects = effects;
  required_capabilities = [];
  max_execution_seconds = 5;
}

abbrev fixture : List HandlerContract → PackagedPluginFixture
fixture handlers = record {
  plugin_id = text "fixture.sdk";
  version = text "1.0.0";
  contract_version = text "1.0.0";
  publisher_id = text "masonwing.first-party";
  execution_class = ExecutionClass.trusted_native;
  artifact_bytes = 102 ∷ [];
  artifact_digest = zero_digest;
  handlers = handlers;
  workflows = schema ∷ [];
  supporting_artifacts = record { reference = schema; bytes = 7 ∷ [] } ∷ [];
}

package_accepted : validate constant_hash (fixture (handler (text "READ_ONLY") ∷ [])) ≡ ok tt
unfolding validate hex parse_digits all_bytes
package_accepted = refl

package_refused :
    validate constant_hash (fixture (handler (text "NONE") ∷ []))
    ≡ err (invalid_package (text "handler_contract"))
unfolding validate hex parse_digits all_bytes
package_refused = refl

abbrev descriptor : PluginDescriptor
descriptor = record {
  id = text "fixture.sdk";
  contract_version = text "1.0.0";
  feature_namespaces = [];
  trace_ids = [];
  operations = text "fixture.invoke" ∷ [];
}

abbrev context : InvocationContext
context = record {
  invocation_id = text "i1";
  tenant_id = text "acme";
  plugin_id = text "fixture.sdk";
  handler_id = text "fixture.invoke";
  grant_id = text "g1";
  contract_version = text "1.0.0";
  input_schema_ref = schema;
  output_schema_ref = schema;
  granted_capabilities = [];
}

abbrev input : InvocationInput
input = record { schema_ref = schema; bytes = [] }

validate_invocation-IsAccepted_example :
    ((new_context context ≡ ok context) × (validate_invocation descriptor context input ≡ ok tt))
    ↔ IsAccepted descriptor context input
validate_invocation-IsAccepted_example = validate_invocation-IsAccepted descriptor context input

abbrev light : FiniteStateContract
light = record {
  edges =
      record { from = text "RED"; to = text "GREEN" }
      ∷ record { from = text "GREEN"; to = text "RED" }
      ∷ [];
}

abbrev red : VersionedContractState
red = record { state = text "RED"; version = 1 }
