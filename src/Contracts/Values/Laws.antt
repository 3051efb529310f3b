-- ===== src/Contracts/Values/Laws.antt =====
-- Laws of identifiers and digests (crates/contracts/src/lib.rs).
use masonwing.Prelude.{
  ℕ, ◌≤◌, ◌≡◌, refl, sym, ap, ap₂, ◌∙◌, ◌⊎◌, ◌↔◌, Bool, true, not, ◌&&◌, ◌||◌, Option, none, some,
  [], ◌∷◌, ◌++◌, arith, length, All, ok, err, ◌==◌, if◌then◌else◌, Text, text,
}
use masonwing.Contracts.Values.{
  sha256_prefix, sha256, strip_prefix, parse_digest, digest_of, all_bytes, is_hex_digit,
  invalid_sha256_digest,
}

strip_prefix-append : (p s : Text) → strip_prefix p (p ++ s) ≡ some s
unfolding strip_prefix
strip_prefix-append [] s = refl
strip_prefix-append (b ∷ p) s = ground (arith, strip_prefix-append p s)

strip_prefix-some : (p value s : Text) → strip_prefix p value ≡ some s → value ≡ p ++ s
unfolding strip_prefix
strip_prefix-some [] value s h = ground arith
strip_prefix-some (b ∷ p) [] s h = ground arith
strip_prefix-some (b ∷ p) (c ∷ value) s h = ground (arith, strip_prefix-some p value s)

-- A digit that a digest is written with.
abbrev pub IsDigit : ℕ → Type 0
IsDigit b = ((48 ≤ b) × (b ≤ 57)) ⊎ ((97 ≤ b) × (b ≤ 102))

-- The text of a digest of the given digits.
abbrev pub IsDigest : Text → Text → Type 0
IsDigest hex digest = (digest ≡ text "sha256:" ++ hex) × (length hex ≡ 64) × All IsDigit hex

all_bytes-IsDigit : (hex : Text) → (all_bytes is_hex_digit hex ≡ true) ↔ All IsDigit hex
unfolding all_bytes
all_bytes-IsDigit [] = (λ _. tt, λ _. refl)
all_bytes-IsDigit (b ∷ hex) =
    let (there, back) = all_bytes-IsDigit hex in
    (
      λ h.
          let (one, rest) = both (is_hex_digit b) (all_bytes is_hex_digit hex) h in
          (digit b one, there rest),
      λ (one, rest). ap₂ (λ x y. x && y) (hex_digit b one) (back rest),
    )
  where
    both : (x y : Bool) → (x && y) ≡ true → (x ≡ true) × (y ≡ true)
    both x y h = ground arith

    digit : (b : ℕ) → is_hex_digit b ≡ true → IsDigit b
    digit b h = ground arith

    hex_digit : (b : ℕ) → IsDigit b → is_hex_digit b ≡ true
    hex_digit b h = ground arith

sha256-IsDigest : (hex digest : Text) → (sha256 hex ≡ ok digest) ↔ IsDigest hex digest
unfolding sha256
sha256-IsDigest hex digest = (
  λ h.
      let (long, digits, shape) = made (all_bytes is_hex_digit hex) h in
      (shape, long, (all_bytes-IsDigit hex).0 digits),
  λ (shape, long, digits). rw (long, (all_bytes-IsDigit hex).1 digits) (ap ok (sym shape)),
)
  where
    made :
        (digits : Bool)
        → (if not (length hex == 64) || not digits
            then err invalid_sha256_digest
            else ok (sha256_prefix ++ hex))
          ≡ ok digest
        → (length hex ≡ 64) × (digits ≡ true) × (digest ≡ sha256_prefix ++ hex)
    made digits h = ground arith

-- A digest is made of exactly 64 digits between 0 and 9 or a and f, behind `sha256:`, and a text is
-- parsed exactly when it is such a digest, to itself.
pub parse_digest_lem :
    (value digest : Text)
    → ((hex : Text) → (sha256 hex ≡ ok digest) ↔ IsDigest hex digest)
      × ((parse_digest value ≡ ok digest)
          ↔ ((value ≡ digest) × ((hex : Text) × IsDigest hex digest)))
unfolding parse_digest digest_of
parse_digest_lem value digest = (
  λ hex. sha256-IsDigest hex digest,
  (
    λ parsed. parsed_shape (strip_prefix sha256_prefix value) refl parsed,
    λ (same, (hex, is)).
        ap parse_digest (same ∙ is.0)
        ∙ (ap digest_of (strip_prefix-append sha256_prefix hex)
            ∙ (sha256-IsDigest hex digest).1 is),
  ),
)
  where
    parsed_shape :
        (stripped : Option Text)
        → strip_prefix sha256_prefix value ≡ stripped
        → digest_of stripped ≡ ok digest
        → (value ≡ digest) × ((hex : Text) × IsDigest hex digest)
    parsed_shape none found parsed = cc
    parsed_shape (some hex) found made =
        let is = (sha256-IsDigest hex digest).0 made in
        (strip_prefix-some sha256_prefix value hex found ∙ sym is.0, (hex, is))
