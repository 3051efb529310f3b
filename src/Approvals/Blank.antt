-- ===== src/Approvals/Blank.antt =====
-- What the test of a reason refuses (platform-plugins/data-postgres/src/approval_commands.rs).
use masonwing.Prelude.{
  ℕ, ◌≤◌, ◌≡◌, refl, sym, ap, subst, ◌∙◌, ◌↔◌, ◌⊎◌, inl, inr, Bool, true, false, ◌||◌, Option, none,
  some, [], ◌∷◌, ◌++◌, append_assoc, arith, ◌==◌, if◌then◌else◌, Option-cases, ==_iff, Text,
}
use masonwing.Approvals.Reasons.{
  Read, none_read, byte_c2, byte_e1, byte_e19a, byte_e2, byte_e280, byte_e281, byte_e3, byte_e380,
  between, next_read, blank_from, is_blank,
}

-- The last bytes of the white space between U+2000 and U+203F.
abbrev IsPunctuationSpace : ℕ → Type 0
IsPunctuationSpace b = ((128 ≤ b) × (b ≤ 138)) ⊎ (b ≡ 168) ⊎ (b ≡ 169) ⊎ (b ≡ 175)

-- A text of the characters that Unicode calls white space, each in UTF-8.
pub data IsBlank : Text → Type 0 where
  nothing : IsBlank []
  ascii : {b : ℕ} {s : Text} → ((9 ≤ b) × (b ≤ 13)) ⊎ (b ≡ 32) → IsBlank s → IsBlank (b ∷ s)
  latin : {b : ℕ} {s : Text} → (b ≡ 133) ⊎ (b ≡ 160) → IsBlank s → IsBlank (194 ∷ b ∷ s)
  ogham : {s : Text} → IsBlank s → IsBlank (225 ∷ 154 ∷ 128 ∷ s)
  punctuation : {b : ℕ} {s : Text} → IsPunctuationSpace b → IsBlank s → IsBlank (226 ∷ 128 ∷ b ∷ s)
  mathematical : {s : Text} → IsBlank s → IsBlank (226 ∷ 129 ∷ 159 ∷ s)
  ideographic : {s : Text} → IsBlank s → IsBlank (227 ∷ 128 ∷ 128 ∷ s)

IsBlank-blank_from : {s : Text} → IsBlank s → blank_from (some none_read) s ≡ true
unfolding blank_from next_read
IsBlank-blank_from nothing = refl
IsBlank-blank_from (ascii {b = b} {s = s} here rest) = step here (IsBlank-blank_from rest)
  where
    step :
        ((9 ≤ b) × (b ≤ 13)) ⊎ (b ≡ 32)
        → blank_from (some none_read) s ≡ true
        → blank_from (next_read none_read b) s ≡ true
    step here h = ground arith
IsBlank-blank_from (latin {b = b} {s = s} here rest) = step here (IsBlank-blank_from rest)
  where
    step :
        (b ≡ 133) ⊎ (b ≡ 160)
        → blank_from (some none_read) s ≡ true
        → blank_from (next_read byte_c2 b) s ≡ true
    step here h = ground arith
IsBlank-blank_from (ogham rest) = IsBlank-blank_from rest
IsBlank-blank_from (punctuation {b = b} {s = s} here rest) = step here (IsBlank-blank_from rest)
  where
    step :
        IsPunctuationSpace b
        → blank_from (some none_read) s ≡ true
        → blank_from (next_read byte_e280 b) s ≡ true
    step here h = ground arith
IsBlank-blank_from (mathematical rest) = IsBlank-blank_from rest
IsBlank-blank_from (ideographic rest) = IsBlank-blank_from rest

-- The bytes of a character that have been read.
abbrev read_bytes : Read → Text
read_bytes none_read = []
read_bytes byte_c2 = 194 ∷ []
read_bytes byte_e1 = 225 ∷ []
read_bytes byte_e19a = 225 ∷ 154 ∷ []
read_bytes byte_e2 = 226 ∷ []
read_bytes byte_e280 = 226 ∷ 128 ∷ []
read_bytes byte_e281 = 226 ∷ 129 ∷ []
read_bytes byte_e3 = 227 ∷ []
read_bytes byte_e380 = 227 ∷ 128 ∷ []

-- The byte ends a character of white space.
abbrev Ends : Read → ℕ → Type 0
Ends none_read b = ((9 ≤ b) × (b ≤ 13)) ⊎ (b ≡ 32)
Ends byte_c2 b = (b ≡ 133) ⊎ (b ≡ 160)
Ends byte_e1 b = ⊥
Ends byte_e19a b = b ≡ 128
Ends byte_e2 b = ⊥
Ends byte_e280 b = IsPunctuationSpace b
Ends byte_e281 b = b ≡ 159
Ends byte_e3 b = ⊥
Ends byte_e380 b = b ≡ 128

Leads : Read → ℕ → Read → Type 0
Leads r b after = ((after ≡ none_read) × Ends r b) ⊎ (read_bytes after ≡ read_bytes r ++ b ∷ [])

-- A test of the byte, and what follows if it is passed.
one_test :
    (r value after : Read) (b : ℕ) (test : Bool) (others : Option Read)
    → (if test then some value else others) ≡ some after
    → (test ≡ true → Leads r b value)
    → (others ≡ some after → Leads r b after)
    → Leads r b after
one_test r value after b true others h passed failed =
    subst (Leads r b) (some-injective value after h) (passed refl)
  where
    some-injective : (x y : Read) → some x ≡ some y → x ≡ y
    some-injective x y e = cc
one_test r value after b false others h passed failed = failed h

none_else : (r after : Read) (b : ℕ) → none ≡ some after → Leads r b after
none_else r after b h = absurd cc

next_read-Leads : (r after : Read) (b : ℕ) → next_read r b ≡ some after → Leads r b after
unfolding next_read Leads
next_read-Leads none_read after b h =
    one_test none_read none_read after b (between 9 13 b || b == 32) _ h (λ k. inl (refl, here k))
      λ h1.
        one_test none_read byte_c2 after b (b == 194) _ h1 (λ k. inr (byte 194 k))
          λ h2.
            one_test none_read byte_e1 after b (b == 225) _ h2 (λ k. inr (byte 225 k))
              λ h3.
                one_test none_read byte_e2 after b (b == 226) _ h3 (λ k. inr (byte 226 k))
                  λ h4.
                    one_test none_read byte_e3 after b (b == 227) _ h4 (λ k. inr (byte 227 k))
                      (none_else none_read after b)
  where
    here : (between 9 13 b || b == 32) ≡ true → ((9 ≤ b) × (b ≤ 13)) ⊎ (b ≡ 32)
    here k = ground arith

    byte : (n : ℕ) → (b == n) ≡ true → n ∷ [] ≡ b ∷ []
    byte n k = ap (λ x. x ∷ []) (sym ((==_iff b n).0 k))
next_read-Leads byte_c2 after b h =
    one_test byte_c2 none_read after b (b == 133 || b == 160) _ h (λ k. inl (refl, here k))
      (none_else byte_c2 after b)
  where
    here : (b == 133 || b == 160) ≡ true → (b ≡ 133) ⊎ (b ≡ 160)
    here k = ground arith
next_read-Leads byte_e1 after b h =
    one_test byte_e1 byte_e19a after b (b == 154) _ h
      (λ k. inr (ap (λ x. 225 ∷ x ∷ []) (sym ((==_iff b 154).0 k)))) (none_else byte_e1 after b)
next_read-Leads byte_e19a after b h =
    one_test byte_e19a none_read after b (b == 128) _ h (λ k. inl (refl, (==_iff b 128).0 k))
      (none_else byte_e19a after b)
next_read-Leads byte_e2 after b h =
    one_test byte_e2 byte_e280 after b (b == 128) _ h
      (λ k. inr (ap (λ x. 226 ∷ x ∷ []) (sym ((==_iff b 128).0 k))))
      λ h1.
        one_test byte_e2 byte_e281 after b (b == 129) _ h1
          (λ k. inr (ap (λ x. 226 ∷ x ∷ []) (sym ((==_iff b 129).0 k)))) (none_else byte_e2 after b)
next_read-Leads byte_e280 after b h =
    one_test byte_e280 none_read after b (between 128 138 b || b == 168 || b == 169 || b == 175) _ h
      (λ k. inl (refl, here k)) (none_else byte_e280 after b)
  where
    here : (between 128 138 b || b == 168 || b == 169 || b == 175) ≡ true → IsPunctuationSpace b
    here k = ground arith
next_read-Leads byte_e281 after b h =
    one_test byte_e281 none_read after b (b == 159) _ h (λ k. inl (refl, (==_iff b 159).0 k))
      (none_else byte_e281 after b)
next_read-Leads byte_e3 after b h =
    one_test byte_e3 byte_e380 after b (b == 128) _ h
      (λ k. inr (ap (λ x. 227 ∷ x ∷ []) (sym ((==_iff b 128).0 k)))) (none_else byte_e3 after b)
next_read-Leads byte_e380 after b h =
    one_test byte_e380 none_read after b (b == 128) _ h (λ k. inl (refl, (==_iff b 128).0 k))
      (none_else byte_e380 after b)

ended-IsBlank :
    (r : Read) (b : ℕ) (s : Text) → Ends r b → IsBlank s → IsBlank (read_bytes r ++ b ∷ s)
ended-IsBlank none_read b s here rest = ascii here rest
ended-IsBlank byte_c2 b s here rest = latin here rest
ended-IsBlank byte_e1 b s here rest = absurd here
ended-IsBlank byte_e19a b s here rest =
    subst (λ x. IsBlank (225 ∷ 154 ∷ x ∷ s)) (sym here) (ogham rest)
ended-IsBlank byte_e2 b s here rest = absurd here
ended-IsBlank byte_e280 b s here rest = punctuation here rest
ended-IsBlank byte_e281 b s here rest =
    subst (λ x. IsBlank (226 ∷ 129 ∷ x ∷ s)) (sym here) (mathematical rest)
ended-IsBlank byte_e3 b s here rest = absurd here
ended-IsBlank byte_e380 b s here rest =
    subst (λ x. IsBlank (227 ∷ 128 ∷ x ∷ s)) (sym here) (ideographic rest)

blank_from_further :
    (r : Read) (b : ℕ) (s : Text) → blank_from (some r) (b ∷ s) ≡ blank_from (next_read r b) s
unfolding blank_from
blank_from_further none_read b s = refl
blank_from_further byte_c2 b s = refl
blank_from_further byte_e1 b s = refl
blank_from_further byte_e19a b s = refl
blank_from_further byte_e2 b s = refl
blank_from_further byte_e280 b s = refl
blank_from_further byte_e281 b s = refl
blank_from_further byte_e3 b s = refl
blank_from_further byte_e380 b s = refl

blank_from-IsBlank :
    (r : Read) (s : Text) → blank_from (some r) s ≡ true → IsBlank (read_bytes r ++ s)
unfolding blank_from Leads
blank_from-IsBlank none_read [] h = nothing
blank_from-IsBlank byte_c2 [] h = absurd cc
blank_from-IsBlank byte_e1 [] h = absurd cc
blank_from-IsBlank byte_e19a [] h = absurd cc
blank_from-IsBlank byte_e2 [] h = absurd cc
blank_from-IsBlank byte_e280 [] h = absurd cc
blank_from-IsBlank byte_e281 [] h = absurd cc
blank_from-IsBlank byte_e3 [] h = absurd cc
blank_from-IsBlank byte_e380 [] h = absurd cc
blank_from-IsBlank r (b ∷ s) h =
    let read : blank_from (next_read r b) s ≡ true = sym (blank_from_further r b s) ∙ h in
    elim (Option-cases (next_read r b)) [
      | inl missing ↦ absurd (cc (rw missing at read))
      | inr (after, found) ↦
          let rest = blank_from-IsBlank after s (rw found at read) in
          elim (next_read-Leads r after b found) [
            | inl (ended, here) ↦
                ended-IsBlank r b s here (subst (λ x. IsBlank (read_bytes x ++ s)) ended rest)
            | inr longer ↦
                subst IsBlank (append_assoc (read_bytes r) (b ∷ []) s)
                  (subst (λ x. IsBlank (x ++ s)) longer rest)
          ]
    ]

-- A reason is blank exactly when it is made of white space alone.
pub is_blank_lem : (s : Text) → (is_blank s ≡ true) ↔ IsBlank s
unfolding is_blank
is_blank_lem s = (blank_from-IsBlank none_read s, IsBlank-blank_from)
