-- ===== src/Sdk/Versions/Laws.antt =====
-- Which contract versions are accepted (crates/sdk/src/lib.rs).
use masonwing.Prelude.{
  ℕ, ◌≡◌, refl, sym, ap, ap₂, ◌∙◌, ◌≢◌, ◌↔◌, inl, inr, true, Option, none, some, List, [], ◌∷◌,
  ◌++◌, arith, All, All, ok, err, ◌==◌, ==_iff, Bool-cases, Text,
}
use masonwing.Sdk.Errors.{contract_incompatible}
use masonwing.Sdk.Versions.{
  split_dot, parse_u64, is_one, is_some, compatible, ensure_contract_compatible,
}

abbrev HasNoDot : Text → Type 0
HasNoDot s = All (λ b. b ≢ b'.') s

-- Three parts between two dots, each a u64, of which the first is 1.
pub record IsCompatible (required : Text) : Type 0 where
  pub major : Text
  pub minor : Text
  pub patch : Text
  pub parts : required ≡ major ++ b'.' ∷ (minor ++ b'.' ∷ patch)
  pub major_part : HasNoDot major
  pub minor_part : HasNoDot minor
  pub patch_part : HasNoDot patch
  pub major_one : parse_u64 major ≡ some 1
  pub minor_number : parse_u64 minor ≢ none
  pub patch_number : parse_u64 patch ≢ none

split_dot-part : (s : Text) → HasNoDot s → split_dot s ≡ (s, [])
unfolding split_dot
split_dot-part [] h = refl
split_dot-part (b ∷ s) (b_is, h) = rw (split_dot-part s h) (ground arith)

split_dot-append :
    (s t : Text) → HasNoDot s → split_dot (s ++ b'.' ∷ t) ≡ (s, (split_dot t).0 ∷ (split_dot t).1)
unfolding split_dot
split_dot-append [] t h = refl
split_dot-append (b ∷ s) t (b_is, h) = rw (split_dot-append s t h) (ground arith)

-- The parts, with dots between them.
abbrev join : Text × List Text → Text
join (part, []) = part
join (part, next ∷ parts) = part ++ b'.' ∷ join (next, parts)

join-cons :
    (b : ℕ) (part : Text) (parts : List Text) → join (b ∷ part, parts) ≡ b ∷ join (part, parts)
join-cons b part [] = refl
join-cons b part (next ∷ parts) = refl

join-split_dot : (s : Text) → join (split_dot s) ≡ s
unfolding split_dot
join-split_dot [] = refl
join-split_dot (b ∷ s) = elim (Bool-cases (b == b'.')) [
  | inl dot ↦
      rw dot (ap₂ (λ (x : ℕ) (xs : Text). x ∷ xs) (sym ((==_iff b b'.').0 dot)) (join-split_dot s))
  | inr other ↦
      rw other (
        join-cons b (split_dot s).0 (split_dot s).1 ∙ ap (λ (xs : Text). b ∷ xs) (join-split_dot s))
]

split_dot-HasNoDot : (s : Text) → HasNoDot (split_dot s).0 × All HasNoDot (split_dot s).1
unfolding split_dot
split_dot-HasNoDot [] = (tt, tt)
split_dot-HasNoDot (b ∷ s) = elim (Bool-cases (b == b'.')) [
  | inl dot ↦ rw dot (tt, split_dot-HasNoDot s)
  | inr other ↦ rw other ((ground arith, (split_dot-HasNoDot s).0), (split_dot-HasNoDot s).1)
]

is_one-some : (o : Option ℕ) → is_one o ≡ true → o ≡ some 1
is_one-some o h = ground arith

is_some-number : (o : Option ℕ) → (is_some o ≡ true) ↔ (o ≢ none)
is_some-number none = (λ e. cc, λ h. absurd (h refl))
is_some-number (some n) = (λ _ e. cc, λ _. refl)

compatible-IsCompatible :
    (required : Text) (parts : Text × List Text)
    → join parts ≡ required
    → HasNoDot parts.0
    → All HasNoDot parts.1
    → compatible parts ≡ true
    → IsCompatible required
unfolding compatible
compatible-IsCompatible required (major, []) e h hs c = absurd cc
compatible-IsCompatible required (major, minor ∷ []) e h hs c = absurd cc
compatible-IsCompatible required (major, minor ∷ patch ∷ more ∷ rest) e h hs c = absurd cc
compatible-IsCompatible required (major, minor ∷ patch ∷ []) e h (h2, (h3, _)) c = record {
  major = major;
  minor = minor;
  patch = patch;
  parts = sym e;
  major_part = h;
  minor_part = h2;
  patch_part = h3;
  major_one = is_one-some (parse_u64 major) (ground arith);
  minor_number = (is_some-number (parse_u64 minor)).0 (ground arith);
  patch_number = (is_some-number (parse_u64 patch)).0 (ground arith);
}

IsCompatible-compatible :
    (required : Text) → IsCompatible required → compatible (split_dot required) ≡ true
unfolding compatible
IsCompatible-compatible required v =
    rw
      (
        v.parts,
        split_dot-append v.major (v.minor ++ b'.' ∷ v.patch) v.major_part,
        split_dot-append v.minor v.patch v.minor_part,
        split_dot-part v.patch v.patch_part,
        v.major_one,
        (is_some-number (parse_u64 v.minor)).1 v.minor_number,
        (is_some-number (parse_u64 v.patch)).1 v.patch_number,
      )
      refl

-- A version is accepted exactly when it is three u64 numbers between two dots, the first of them 1;
-- every other text is refused as incompatible.
pub ensure_contract_compatible_lem :
    (required : Text)
    → ((ensure_contract_compatible required ≡ ok tt) ↔ IsCompatible required)
      × ((ensure_contract_compatible required ≡ err (contract_incompatible required))
          ↔ (¬ IsCompatible required))
unfolding ensure_contract_compatible
ensure_contract_compatible_lem required = elim (Bool-cases (compatible (split_dot required))) [
  | inl good ↦
      let v : IsCompatible required = judge good in
      rw good ((λ _. v, λ _. refl), (λ e. cc, λ bad. absurd (bad v)))
  | inr bad ↦
      let none_is : ¬ IsCompatible required = λ v. cc (bad, IsCompatible-compatible required v) in
      rw bad ((λ e. cc, λ v. absurd (none_is v)), (λ _. none_is, λ _. refl))
]
  where
    judge : compatible (split_dot required) ≡ true → IsCompatible required
    judge =
        compatible-IsCompatible required (split_dot required) (join-split_dot required)
          (split_dot-HasNoDot required).0 (split_dot-HasNoDot required).1
