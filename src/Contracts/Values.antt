-- ===== src/Contracts/Values.antt =====
-- crates/contracts/src/lib.rs: validated identifiers and digests. A string is its bytes, and a value
-- of one of the identifier types is the text that it wraps.
pub mod Laws
use masonwing.Prelude.{
  ℕ, zero, suc, ◌+◌, ◌-◌, ◌*◌, ◌/◌, ◌%◌, ◌^◌, ◌≤◌, ◌<◌, String, ◌≡◌, refl, sym, ap, ap₂, subst, ◌∙◌,
  ◌≢◌, ◌↔◌, ◌⊎◌, inl, inr, Bool, true, false, not, ◌&&◌, ◌||◌, Option, none, some, List, [], ◌∷◌,
  ◌++◌, map, append_assoc, append-nil, arith, ℕ_discrete, dec_le, ℤ, pos, negsuc, pos_part,
  neg_part, ltb_ℤ, leb_ℤ, ◌≤ℤ◌, ◌<ℤ◌, eq_ℤ, suc_ℤ, suc_ℤ_parts, eq_ℤ_iff, length, drop,
  length-append, All, Any, map_insert, map_get, map_get-insert, Result, ok, err, ◌>>=◌, ◌>>◌, guard,
  ok_or, contains, is_subset, contains_subset, is_subset_iff, contains-append, contains-singleton,
  is_subset_mono, contains-head, contains-tail, ltb, leb, ◌==◌, if◌then◌else◌, ==_iff, Bool-cases,
  Option-cases, Text, text, text_eq, text_eq_iff, text_eq_refl,
}

pub data ValueError : Type 0 where
  empty_identifier : (kind : Text) → ValueError
  invalid_opaque_identifier : (kind : Text) → ValueError
  invalid_sha256_digest : ValueError

abbrev is_ascii_digit : ℕ → Bool
is_ascii_digit b = leb b'0' b && leb b b'9'

abbrev pub is_ascii_alphanumeric : ℕ → Bool
is_ascii_alphanumeric b =
    is_ascii_digit b || (leb b'A' b && leb b b'Z') || (leb b'a' b && leb b b'z')

abbrev pub is_opaque_byte : ℕ → Bool
is_opaque_byte b = is_ascii_alphanumeric b || b == b'.' || b == b'_' || b == b':' || b == b'-'

unfoldable pub all_bytes : (ℕ → Bool) → Text → Bool
all_bytes test [] = true
all_bytes test (b ∷ s) = test b && all_bytes test s

unfoldable pub validate_opaque_identifier : Text → Text → Result (Unit {0}) ValueError
validate_opaque_identifier kind [] = err (empty_identifier kind)
validate_opaque_identifier kind (first ∷ bytes) =
    if ltb 128 (length (first ∷ bytes))
    then err (invalid_opaque_identifier kind)
    else if not (is_ascii_alphanumeric first) || not (all_bytes is_opaque_byte bytes)
    then err (invalid_opaque_identifier kind)
    else ok tt

-- `try_from` of the identifier types, and of `Action`.
unfoldable pub try_from : Text → Text → Result Text ValueError
try_from kind value = validate_opaque_identifier kind value >>= λ _. ok value

abbrev pub is_hex_digit : ℕ → Bool
is_hex_digit b = is_ascii_digit b || (leb b'a' b && leb b b'f')

abbrev pub sha256_prefix : Text
sha256_prefix = text "sha256:"

unfoldable pub sha256 : Text → Result Text ValueError
sha256 hex =
    if not (length hex == 64) || not (all_bytes is_hex_digit hex)
    then err invalid_sha256_digest
    else ok (sha256_prefix ++ hex)

unfoldable pub strip_prefix : Text → Text → Option Text
strip_prefix [] s = some s
strip_prefix (p ∷ prefix) [] = none
strip_prefix (p ∷ prefix) (b ∷ s) = if p == b then strip_prefix prefix s else none

unfoldable pub digest_of : Option Text → Result Text ValueError
digest_of none = err invalid_sha256_digest
digest_of (some hex) = sha256 hex

unfoldable pub parse_digest : Text → Result Text ValueError
parse_digest value = digest_of (strip_prefix sha256_prefix value)

abbrev pub platform_operations : List Text
platform_operations =
    text "product.compose"
    ∷ text "plugin.install"
    ∷ text "plugin.enable"
    ∷ text "plugin.disable"
    ∷ text "plugin.upgrade"
    ∷ text "plugin.revoke"
    ∷ text "plugin.uninstall"
    ∷ text "plugin.invoke"
    ∷ text "identity.configure"
    ∷ text "membership.invite"
    ∷ text "membership.accept"
    ∷ text "membership.change"
    ∷ text "membership.revoke"
    ∷ text "policy.evaluate"
    ∷ text "policy.propose"
    ∷ text "grant.create"
    ∷ text "grant.revoke"
    ∷ text "artifact.begin"
    ∷ text "artifact.finalize"
    ∷ text "deletion.request"
    ∷ text "run.start"
    ∷ text "run.cancel"
    ∷ text "approval.decide"
    ∷ text "effect.propose"
    ∷ text "effect.dispatch"
    ∷ text "effect.reconcile"
    ∷ text "effect.compensate"
    ∷ text "budget.configure"
    ∷ text "provider.configure"
    ∷ text "provider.compact"
    ∷ text "connection.authorize"
    ∷ text "connection.revoke"
    ∷ text "schedule.create"
    ∷ text "deadletter.replay"
    ∷ text "ui.register"
    ∷ text "export.create"
    ∷ text "notification.read"
    ∷ text "support.request"
    ∷ text "kill-switch.set"
    ∷ text "release.qualify"
    ∷ text "catalog.submit"
    ∷ text "catalog.review"
    ∷ text "conformance.run"
    ∷ []

unfoldable pub is_platform_operation : Text → Bool
unfolding contains
is_platform_operation operation = contains platform_operations operation
