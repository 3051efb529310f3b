-- ===== src/Sdk/Package.antt =====
-- crates/sdk/src/lib.rs: packaged artifacts and fixtures. The SHA-256 function is a library's; it is
-- a parameter that gives the raw bytes of a digest.
pub mod Laws
use masonwing.Prelude.{
  ℕ, zero, suc, ◌+◌, ◌-◌, ◌*◌, ◌/◌, ◌%◌, ◌^◌, ◌≤◌, ◌<◌, String, ◌≡◌, refl, sym, ap, ap₂, subst, ◌∙◌,
  ◌≢◌, ◌↔◌, ◌⊎◌, inl, inr, Bool, true, false, not, ◌&&◌, ◌||◌, Option, none, some, List, [], ◌∷◌,
  ◌++◌, map, append_assoc, append-nil, arith, ℕ_discrete, dec_le, ℤ, pos, negsuc, pos_part,
  neg_part, ltb_ℤ, leb_ℤ, ◌≤ℤ◌, ◌<ℤ◌, eq_ℤ, suc_ℤ, suc_ℤ_parts, eq_ℤ_iff, length, drop,
  length-append, All, Any, map_insert, map_get, map_get-insert, Result, ok, err, ◌>>=◌, ◌>>◌, guard,
  ok_or, contains, is_subset, contains_subset, is_subset_iff, contains-append, contains-singleton,
  is_subset_mono, contains-head, contains-tail, ltb, leb, ◌==◌, if◌then◌else◌, ==_iff, Bool-cases,
  Option-cases, Text, text, text_eq, text_eq_iff, text_eq_refl,
}
use masonwing.Contracts.Wire.{ExecutionClass, ArtifactRef, HandlerContract, artifact_eq}
use masonwing.Contracts.Values.{sha256, sha256_prefix}
use masonwing.Sdk.Errors.{SdkError, invalid_package}
use masonwing.Sdk.Versions.{ensure_contract_compatible}

-- The white space of Unicode among three bytes of UTF-8.
abbrev is_space_3 : ℕ → ℕ → ℕ → Bool
is_space_3 a b c =
    (a == 0xE1 && b == 0x9A && c == 0x80)
    || (a == 0xE2
        && b == 0x80
        && ((leb 0x80 c && leb c 0x8A) || c == 0xA8 || c == 0xA9 || c == 0xAF))
    || (a == 0xE2 && b == 0x81 && c == 0x9F)
    || (a == 0xE3 && b == 0x80 && c == 0x80)

abbrev is_space_2 : ℕ → ℕ → Bool
is_space_2 a b = a == 0xC2 && (b == 0x85 || b == 0xA0)

abbrev is_space_1 : ℕ → Bool
is_space_1 a = (leb 9 a && leb a 13) || a == 32

-- `trim().is_empty()`: nothing but white space.
unfoldable pub is_blank : Text → Bool
is_blank [] = true
is_blank (a ∷ []) = is_space_1 a
is_blank (a ∷ b ∷ []) = (is_space_1 a && is_space_1 b) || is_space_2 a b
is_blank (a ∷ b ∷ c ∷ s) =
    let one = is_blank (b ∷ c ∷ s) in
    let two = is_blank (c ∷ s) in
    let three = is_blank s in
    (is_space_1 a && one) || (is_space_2 a b && two) || (is_space_3 a b c && three)

abbrev pub hex_digit : ℕ → ℕ
hex_digit n = if ltb n 10 then b'0' + n else b'a' + (n - 10)

-- `{byte:02x}` of each byte.
unfoldable pub hex : List ℕ → Text
hex [] = []
hex (b ∷ raw) = hex_digit (b / 16) ∷ hex_digit (b % 16) ∷ hex raw

pub record PackagedArtifact : Type 0 where
  pub reference : ArtifactRef
  pub bytes : List ℕ

pub record PackagedPluginFixture : Type 0 where
  pub plugin_id : Text
  pub version : Text
  pub contract_version : Text
  pub publisher_id : Text
  pub execution_class : ExecutionClass
  pub artifact_bytes : List ℕ
  pub artifact_digest : Text
  pub handlers : List HandlerContract
  pub workflows : List ArtifactRef
  pub supporting_artifacts : List PackagedArtifact

abbrev pub allowed_effects : List Text
allowed_effects = text "READ_ONLY" ∷ text "PROPOSES_EFFECT" ∷ text "DETERMINISTIC" ∷ []

-- What the loop over the handlers tests of one of them, but for its identifier being new.
unfoldable pub handler_ok : HandlerContract → Bool
unfolding is_blank contains
handler_ok handler =
    not (is_blank handler.id)
    && not (handler.max_execution_seconds == 0)
    && text_eq handler.input_schema_ref.tenant_id handler.output_schema_ref.tenant_id
    && contains allowed_effects handler.effects

-- The loop, with the identifiers that it has inserted.
unfoldable pub validate_handlers : List Text → List HandlerContract → Result (Unit {0}) SdkError
unfolding handler_ok contains
validate_handlers handler_ids [] = ok tt
validate_handlers handler_ids (handler ∷ rest) =
    if contains handler_ids handler.id || not (handler_ok handler)
    then err (invalid_package (text "handler_contract"))
    else validate_handlers (handler.id ∷ handler_ids) rest

unfoldable pub has_reference : List PackagedArtifact → ArtifactRef → Bool
unfolding artifact_eq
has_reference [] workflow = false
has_reference (a ∷ rest) workflow = artifact_eq a.reference workflow || has_reference rest workflow

unfoldable pub validate_workflows :
    List PackagedArtifact → List ArtifactRef → Result (Unit {0}) SdkError
unfolding has_reference
validate_workflows artifacts [] = ok tt
validate_workflows artifacts (workflow ∷ rest) =
    if not (has_reference artifacts workflow)
    then err (invalid_package (text "workflow_payload"))
    else validate_workflows artifacts rest

module _ (sha256_raw : List ℕ → List ℕ) where
  -- The digest of bytes, or nothing where the source panics.
  unfoldable pub sha256_digest : List ℕ → Option Text
  unfolding hex sha256
  sha256_digest bytes = elim (sha256 (hex (sha256_raw bytes))) [
    | ok digest ↦ some digest
    | err _ ↦ none
  ]

  -- Whether the digest of bytes is the one that is given.
  unfoldable pub has_digest : List ℕ → Text → Bool
  unfolding text_eq sha256_digest
  has_digest bytes digest = elim (sha256_digest bytes) [ none ↦ false | some d ↦ text_eq d digest ]

  unfoldable pub validate_artifact : PackagedArtifact → Result (Unit {0}) SdkError
  unfolding has_digest
  validate_artifact a =
      if not (has_digest a.bytes a.reference.digest)
      then err (invalid_package (text "supporting_artifact_digest"))
      else ok tt

  unfoldable pub validate_artifacts : List PackagedArtifact → Result (Unit {0}) SdkError
  unfolding validate_artifact
  validate_artifacts [] = ok tt
  validate_artifacts (a ∷ rest) = validate_artifact a >> validate_artifacts rest

  unfoldable pub validate : PackagedPluginFixture → Result (Unit {0}) SdkError
  unfolding ensure_contract_compatible is_blank has_digest validate_handlers validate_artifacts
      validate_workflows
  validate f =
      ensure_contract_compatible f.contract_version
      >> guard (not (is_blank f.publisher_id || is_blank f.version))
          (invalid_package (text "metadata"))
      >> guard (has_digest f.artifact_bytes f.artifact_digest)
          (invalid_package (text "artifact_digest"))
      >> guard (not (length f.handlers == 0)) (invalid_package (text "handlers"))
      >> validate_handlers [] f.handlers
      >> validate_artifacts f.supporting_artifacts
      >> validate_workflows f.supporting_artifacts f.workflows
