-- ===== src/Registration/Manifests/Namespaces.antt =====
-- The parts of the paths that belong to different plugins
-- (platform-plugins/data-postgres/src/registry_validation.rs, crates/contracts/src/lib.rs).
use masonwing.Prelude.{
  ◌≡◌, refl, sym, ap, ◌∙◌, ◌≢◌, inl, inr, Bool, true, not, ◌&&◌, ◌||◌, List, [], ◌∷◌, ◌++◌,
  append_assoc, arith, length, drop, All, ok, ltb, Bool-cases, Text, text,
}
use masonwing.Contracts.Wire.{UiContribution, PluginManifest}
use masonwing.Contracts.Values.{
  all_bytes, is_opaque_byte, is_ascii_alphanumeric, validate_opaque_identifier, try_from,
}
use masonwing.Registration.Manifests.{prefix_of, split_slash, validate_manifest}
use masonwing.Registration.Manifests.Paths.{HasNoSlash, split_slash-part}
use masonwing.Registration.Manifests.Laws.{IsUiAdmitted, validate_manifest-IsAdmitted}

opaque-HasNoSlash : (s : Text) → all_bytes is_opaque_byte s ≡ true → HasNoSlash s
unfolding all_bytes
opaque-HasNoSlash [] h = tt
opaque-HasNoSlash (b ∷ s) h =
    (ground arith, opaque-HasNoSlash s (later (is_opaque_byte b) (all_bytes is_opaque_byte s) h))
  where
    later : (x y : Bool) → (x && y) ≡ true → y ≡ true
    later x y k = ground arith

-- An identifier holds no slash.
identifier-HasNoSlash : (kind id : Text) → try_from kind id ≡ ok id → HasNoSlash id
unfolding try_from validate_opaque_identifier
identifier-HasNoSlash kind [] h = tt
identifier-HasNoSlash kind (b ∷ s) h = elim (Bool-cases (ltb 128 (length (b ∷ s)))) [
  | inl long ↦ absurd (cc (rw long at h))
  | inr short ↦
      elim (Bool-cases (not (is_ascii_alphanumeric b) || not (all_bytes is_opaque_byte s))) [
        | inl bad ↦ absurd (cc (rw (short, bad) at h))
        | inr good ↦ (ground arith, opaque-HasNoSlash s (ground arith))
      ]
]

-- The identifier can be read from a path under its prefix.
prefix_of-injective :
    (a b x y : Text) → HasNoSlash a → HasNoSlash b → prefix_of a ++ x ≡ prefix_of b ++ y → a ≡ b
prefix_of-injective a b x y clean_a clean_b e =
    let tails : (a ++ b'/' ∷ []) ++ x ≡ (b ++ b'/' ∷ []) ++ y = ap (drop 9) e in
    let tails' : a ++ b'/' ∷ x ≡ b ++ b'/' ∷ y =
      sym (append_assoc a (b'/' ∷ []) x) ∙ tails ∙ append_assoc b (b'/' ∷ []) y in
    sym (split_slash-part a (b'/' ∷ x) clean_a refl)
    ∙ ap (λ (s : Text). (split_slash s).0) tails'
    ∙ split_slash-part b (b'/' ∷ y) clean_b refl

module _ (m n : PluginManifest) (tenant tenant' : Text) (known known' : List Text)
    (clean_m : HasNoSlash m.id) (clean_n : HasNoSlash n.id) (other : m.id ≢ n.id) where
  apart_from :
      (u : UiContribution) (vs : List UiContribution)
      → IsUiAdmitted m tenant known u
      → All (IsUiAdmitted n tenant' known') vs
      → All (λ (v : UiContribution). u.path ≢ v.path) vs
  apart_from u [] a h = tt
  apart_from u (v ∷ vs) (a, action, version) ((b, action_b, version_b), h) = (
    λ e.
        other
          (prefix_of-injective m.id n.id a.rest b.rest clean_m clean_n (sym a.under ∙ e ∙ b.under)),
    apart_from u vs (a, action, version) h,
  )

  All-apart :
      (us vs : List UiContribution)
      → All (IsUiAdmitted m tenant known) us
      → All (IsUiAdmitted n tenant' known') vs
      → All (λ (u : UiContribution). All (λ (v : UiContribution). u.path ≢ v.path) vs) us
  All-apart [] vs h k = tt
  All-apart (u ∷ us) vs (a, h) k = (apart_from u vs a k, All-apart us vs h k)

module _ (catalog_valid : Bool) (schema_valid : PluginManifest → Bool) where
  -- Two plugins with different valid identifiers never contribute one path, whoever installs them.
  pub validate_manifest-apart :
      (m n : PluginManifest) (tenant tenant' : Text) (known known' : List Text)
      → try_from (text "PluginId") m.id ≡ ok m.id
      → try_from (text "PluginId") n.id ≡ ok n.id
      → m.id ≢ n.id
      → validate_manifest catalog_valid schema_valid m tenant known ≡ ok tt
      → validate_manifest catalog_valid schema_valid n tenant' known' ≡ ok tt
      → All (λ (u : UiContribution). All (λ (v : UiContribution). u.path ≢ v.path) n.ui) m.ui
  validate_manifest-apart m n tenant tenant' known known' valid_m valid_n other h k =
      All-apart m n tenant tenant' known known'
        (identifier-HasNoSlash (text "PluginId") m.id valid_m)
        (identifier-HasNoSlash (text "PluginId") n.id valid_n) other m.ui n.ui
        (validate_manifest-IsAdmitted catalog_valid schema_valid m tenant known h).ui
        (validate_manifest-IsAdmitted catalog_valid schema_valid n tenant' known' k).ui
