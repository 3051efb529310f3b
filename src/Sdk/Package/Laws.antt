-- ===== src/Sdk/Package/Laws.antt =====
-- What a validated package guarantees (crates/sdk/src/lib.rs).
use masonwing.Prelude.{
  ℕ, ◌*◌, ◌/◌, ◌%◌, ◌≤◌, ◌<◌, ◌≡◌, refl, true, false, some, List, [], ◌∷◌, ◌++◌, arith, length, All,
  Any, ok, contains, Text,
}
use masonwing.Contracts.Wire.{ArtifactRef, HandlerContract}
use masonwing.Contracts.Values.{all_bytes, is_hex_digit, sha256, sha256_prefix}
use masonwing.Sdk.Versions.{ensure_contract_compatible}
use masonwing.Sdk.Package.{
  PackagedArtifact, PackagedPluginFixture, is_blank, hex_digit, hex, allowed_effects, sha256_digest,
}

hex_digit-is_hex_digit : (n : ℕ) → n < 16 → is_hex_digit (hex_digit n) ≡ true
hex_digit-is_hex_digit n h = ground arith

all_bytes-hex : (raw : List ℕ) → All (λ b. b < 256) raw → all_bytes is_hex_digit (hex raw) ≡ true
unfolding all_bytes hex
all_bytes-hex [] h = refl
all_bytes-hex (b ∷ raw) (small, h) =
    rw
      (hex_digit-is_hex_digit (b / 16) (omega arith), hex_digit-is_hex_digit (b % 16) (omega arith))
      (all_bytes-hex raw h)

length-hex : (raw : List ℕ) → length (hex raw) ≡ 2 * length raw
unfolding hex
length-hex [] = refl
length-hex (b ∷ raw) = omega (arith, length-hex raw)

sha256_good :
    (digits : Text)
    → length digits ≡ 64
    → all_bytes is_hex_digit digits ≡ true
    → sha256 digits ≡ ok (sha256_prefix ++ digits)
unfolding sha256
sha256_good digits l a = ground arith

module _ (sha256_raw : List ℕ → List ℕ) where
  -- Where the hash of some bytes has 32 bytes, the digest of them is made: the source does not panic.
  pub sha256_digest_total :
      (bytes : List ℕ)
      → length (sha256_raw bytes) ≡ 32
      → All (λ b. b < 256) (sha256_raw bytes)
      → sha256_digest sha256_raw bytes ≡ some (sha256_prefix ++ hex (sha256_raw bytes))
  unfolding sha256_digest
  sha256_digest_total bytes wide small =
      rw
        (
          sha256_digest,
          sha256_good (hex (sha256_raw bytes)) (omega (arith, length-hex (sha256_raw bytes), wide))
              (all_bytes-hex (sha256_raw bytes) small),
        )
        refl

  -- The bytes of an artifact have the digest of its reference.
  abbrev pub IsIntact : PackagedArtifact → Type 0
  IsIntact a = sha256_digest sha256_raw a.bytes ≡ some a.reference.digest

  -- Some artifact is the one that a workflow refers to.
  abbrev pub Supplies : List PackagedArtifact → ArtifactRef → Type 0
  Supplies artifacts workflow = Any (λ a. a.reference ≡ workflow) artifacts

-- What is demanded of one handler.
pub record IsHandler (handler : HandlerContract) : Type 0 where
  pub has_id : is_blank handler.id ≡ false
  pub timed : 1 ≤ handler.max_execution_seconds
  pub one_tenant : handler.input_schema_ref.tenant_id ≡ handler.output_schema_ref.tenant_id
  pub effect : contains allowed_effects handler.effects ≡ true

-- The handlers are good, and no identifier is among those before it.
abbrev pub AreHandlers : List Text → List HandlerContract → Type 0
AreHandlers before [] = Unit
AreHandlers before (handler ∷ rest) =
    (contains before handler.id ≡ false)
    × IsHandler handler
    × AreHandlers (handler.id ∷ before) rest

module _ (sha256_raw : List ℕ → List ℕ) where
  -- What holds of a package that is accepted.
  pub record IsPackage (f : PackagedPluginFixture) : Type 0 where
    pub version_compatible : ensure_contract_compatible f.contract_version ≡ ok tt
    pub metadata : (is_blank f.publisher_id ≡ false) × (is_blank f.version ≡ false)
    pub payload : sha256_digest sha256_raw f.artifact_bytes ≡ some f.artifact_digest
    pub some_handler : 1 ≤ length f.handlers
    pub good_handlers : AreHandlers [] f.handlers
    pub intact : All (IsIntact sha256_raw) f.supporting_artifacts
    pub supplied : All (Supplies sha256_raw f.supporting_artifacts) f.workflows
