-- ===== src/Registration/Manifests/Paths.antt =====
-- The paths of contributions (platform-plugins/data-postgres/src/registry_validation.rs).
use masonwing.Prelude.{
  ◌≤◌, ◌<◌, ◌≡◌, refl, sym, ap, subst, ◌≢◌, inl, inr, Bool, true, false, not, ◌&&◌, ◌||◌, [], ◌∷◌,
  ◌++◌, arith, length, All, contains, ◌==◌, Bool-cases, Text, text,
}
use masonwing.Registration.Manifests.{
  starts_with, is_excluded, any_excluded, split_slash, any_dots, dots, has_double_slash, path_fits,
  prefix_of, all_parts, doubles,
}

abbrev pub HasNoSlash : Text → Type 0
HasNoSlash s = All (λ b. (b == b'/') ≡ false) s

-- Nothing, or what begins with a slash.
abbrev pub IsEnd : Text → Type 0
IsEnd [] = Unit
IsEnd (b ∷ _) = b ≡ b'/'

-- What a path is to be: it lies under the prefix of the plugin, is short, and its bytes are
-- above 32 and none of `%`, `\`, `?` and `#`; no part of it goes to another directory.
pub record IsConfined (id path : Text) : Type 0 where
  pub rest : Text
  pub under : path ≡ prefix_of id ++ rest
  pub short : length path ≤ 1024
  pub bytes : All (λ b. (32 < b) × (b ≢ b'%') × (b ≢ b'\\') × (b ≢ b'?') × (b ≢ b'#')) path
  pub parts :
      (before part after : Text)
      → path ≡ before ++ b'/' ∷ (part ++ after)
      → HasNoSlash part
      → IsEnd after
      → (part ≢ text ".") × (part ≢ text "..")
  pub single : (before after : Text) → path ≢ before ++ b'/' ∷ b'/' ∷ after

starts_with-append :
    (prefix path : Text) → starts_with prefix path ≡ true → (rest : Text) × (path ≡ prefix ++ rest)
unfolding starts_with
starts_with-append [] path h = (path, refl)
starts_with-append (a ∷ prefix) [] h = absurd cc
starts_with-append (a ∷ prefix) (b ∷ path) h =
    let (rest, e) = starts_with-append prefix path (ground arith) in
    let same : a ≡ b = ground arith in (rest, cc (e, same))

plain_bytes :
    (path : Text)
    → any_excluded path ≡ false
    → All (λ b. (32 < b) × (b ≢ b'%') × (b ≢ b'\\') × (b ≢ b'?') × (b ≢ b'#')) path
unfolding any_excluded is_excluded
plain_bytes [] h = tt
plain_bytes (b ∷ path) h = (
  (ground arith, ground arith, ground arith, ground arith, ground arith),
  plain_bytes path (later (is_excluded b) (any_excluded path) h),
)
  where
    later : (x y : Bool) → (x || y) ≡ false → y ≡ false
    later x y k = ground arith

-- The first part of a path.
pub split_slash-part :
    (part after : Text) → HasNoSlash part → IsEnd after → (split_slash (part ++ after)).0 ≡ part
unfolding split_slash
split_slash-part [] [] clean ends = refl
split_slash-part [] (b ∷ after) clean ends = rw ends
split_slash-part (b ∷ part) after (other, clean) ends =
    rw other (ap (λ (s : Text). b ∷ s) (split_slash-part part after clean ends))

-- The parts behind a slash are among the parts of the whole.
any_dots-split :
    (before rest : Text)
    → any_dots (split_slash (before ++ b'/' ∷ rest)).1 ≡ false
    → any_dots (all_parts (split_slash rest)) ≡ false
unfolding split_slash any_dots
any_dots-split [] rest h = h
any_dots-split (b ∷ before) rest h = elim (Bool-cases (b == b'/')) [
  | inl slash ↦ any_dots-split before rest (right _ _ (rw slash at h))
  | inr other ↦ any_dots-split before rest (rw other at h)
]
  where
    right : (x y : Bool) → (x || y) ≡ false → y ≡ false
    right x y k = ground arith

no_dots :
    (path before part after : Text)
    → any_dots (all_parts (split_slash path)) ≡ false
    → path ≡ before ++ b'/' ∷ (part ++ after)
    → HasNoSlash part
    → IsEnd after
    → contains dots part ≡ false
unfolding any_dots
no_dots path before part after h e clean ends =
    let whole : any_dots (split_slash path).1 ≡ false = right _ _ h in
    let inner =
      any_dots-split before (part ++ after)
        (subst (λ (p : Text). any_dots (split_slash p).1 ≡ false) e whole) in
    subst (λ (p : Text). contains dots p ≡ false) (split_slash-part part after clean ends)
      (left _ _ inner)
  where
    right : (x y : Bool) → (x || y) ≡ false → y ≡ false
    right x y k = ground arith

    left : (x y : Bool) → (x || y) ≡ false → x ≡ false
    left x y k = ground arith

not_dots : (part : Text) → contains dots part ≡ false → (part ≢ text ".") × (part ≢ text "..")
unfolding contains
not_dots part h = (
  λ e. absurd (cc (subst (λ (p : Text). contains dots p ≡ false) e h)),
  λ e. absurd (cc (subst (λ (p : Text). contains dots p ≡ false) e h)),
)

has_double_slash-append :
    (before after : Text) → has_double_slash (before ++ b'/' ∷ b'/' ∷ after) ≡ true
unfolding has_double_slash
has_double_slash-append [] after = refl
has_double_slash-append (b ∷ before) after =
    right (doubles b (before ++ b'/' ∷ b'/' ∷ after)) (has_double_slash-append before after)
  where
    right : (x : Bool) {y : Bool} → y ≡ true → (x || y) ≡ true
    right x k = ground arith

pub path_fits-IsConfined :
    (id path : Text) → path_fits (prefix_of id) path ≡ true → IsConfined id path
unfolding path_fits
path_fits-IsConfined id path h =
    let (starts, short, bytes, dotless, single) = parts _ _ _ _ _ h in
    let (rest, under) = starts_with-append (prefix_of id) path starts in
    record {
      rest = rest;
      under = under;
      short = ground arith;
      bytes = plain_bytes path bytes;
      parts = λ before part after e clean ends.
          not_dots part (no_dots path before part after dotless e clean ends);
      single = λ before after e. absurd (
          let doubled : has_double_slash path ≡ true =
            subst (λ (p : Text). has_double_slash p ≡ true) (sym e)
              (has_double_slash-append before after) in
          cc);
    }
  where
    parts :
        (a b c d e : Bool)
        → (a && b && not c && not d && not e) ≡ true
        → (a ≡ true) × (b ≡ true) × (c ≡ false) × (d ≡ false) × (e ≡ false)
    parts a b c d e k = ground arith
