-- ===== src/Worker/StepKeys/Laws.antt =====
-- Step keys, their numbers and their nodes (crates/worker/src/run_interpreter.rs).
use masonwing.Prelude.{
  ℕ, zero, suc, ◌+◌, ◌-◌, ◌*◌, ◌/◌, ◌%◌, ◌^◌, ◌≤◌, ◌<◌, ◌≡◌, refl, ap, ◌∙◌, ◌≢◌, inl, inr, none,
  some, [], ◌∷◌, ◌++◌, arith, length, ltb, ◌==◌, if◌then◌else◌, Bool-cases, Text,
}
use masonwing.Worker.StepKeys.{
  digits_from, decimal, pad_zeros, padded, logical_step_key, after_colon,
  node_id_from_logical_step_id,
}

-- Every byte is a decimal digit.
abbrev IsDigits : Text → Type 0
IsDigits [] = Unit
IsDigits (c ∷ s) = (b'0' ≤ c) × (c < b'0' + 10) × IsDigits s

digits_from-IsDigits :
    (fuel n : ℕ) (rest : Text) → IsDigits rest → IsDigits (digits_from fuel n rest)
unfolding digits_from
digits_from-IsDigits zero n rest h = h
digits_from-IsDigits (suc fuel) n rest h = elim (Bool-cases (ltb n 10)) [
  | inl last ↦ rw last (omega arith, ground arith, h)
  | inr more ↦
      rw more
        (digits_from-IsDigits fuel (n / 10) ((b'0' + n % 10) ∷ rest) (omega arith, omega arith, h))
]

pad_zeros-IsDigits : (n : ℕ) (s : Text) → IsDigits s → IsDigits (pad_zeros n s)
unfolding pad_zeros
pad_zeros-IsDigits zero s h = h
pad_zeros-IsDigits (suc n) s h = (omega arith, omega arith, pad_zeros-IsDigits n s h)

padded-IsDigits : (seq : ℕ) → IsDigits (padded seq)
unfolding padded
padded-IsDigits seq =
    pad_zeros-IsDigits (4 - length (decimal seq)) (decimal seq) (digits_from-IsDigits 10 seq [] tt)

after_colon-digits : (s t : Text) → IsDigits s → after_colon (s ++ b':' ∷ t) ≡ some t
unfolding after_colon
after_colon-digits [] t h = refl
after_colon-digits (c ∷ s) t h = ground (arith, after_colon-digits s t)

-- The node is read back from a key, unless its identifier is empty.
pub node_id-logical_step_key :
    (seq : ℕ) (node_id : Text)
    → node_id ≢ []
    → node_id_from_logical_step_id (logical_step_key seq node_id) ≡ some node_id
unfolding node_id_from_logical_step_id logical_step_key
node_id-logical_step_key seq [] h = absurd (h refl)
node_id-logical_step_key seq (c ∷ s) h =
    rw (after_colon-digits (padded seq) (c ∷ s) (padded-IsDigits seq))

-- The number that digits stand for, after those that make `acc`.
value_from : ℕ → Text → ℕ
value_from acc [] = acc
value_from acc (c ∷ s) = value_from (acc * 10 + (c - b'0')) s

pow10 : ℕ → ℕ
pow10 zero = 1
pow10 (suc n) = 10 * pow10 n

digit_value : (n : ℕ) → 0 + (b'0' + n - b'0') ≡ n
digit_value n = omega arith

digits_value : (n : ℕ) → n / 10 * 10 + (b'0' + n % 10 - b'0') ≡ n
digits_value n = omega arith

value-digits_from :
    (fuel n : ℕ) (rest : Text)
    → n < pow10 fuel
    → value_from 0 (digits_from fuel n rest) ≡ value_from n rest
unfolding digits_from value_from pow10
value-digits_from zero n rest h =
    let zero_is : 0 ≡ n = omega arith in ap (λ (a : ℕ). value_from a rest) zero_is
value-digits_from (suc fuel) n rest h = elim (Bool-cases (ltb n 10)) [
  | inl last ↦ rw last (ap (λ (a : ℕ). value_from a rest) (digit_value n))
  | inr more ↦ rw more (
      value-digits_from fuel (n / 10) ((b'0' + n % 10) ∷ rest) (omega arith)
      ∙ ap (λ (a : ℕ). value_from a rest) (digits_value n))
]

value-pad_zeros : (n : ℕ) (s : Text) → value_from 0 (pad_zeros n s) ≡ value_from 0 s
unfolding value_from pad_zeros
value-pad_zeros zero s = refl
value-pad_zeros (suc n) s = value-pad_zeros n s

value-padded : (seq : ℕ) → seq < 2 ^ 32 → value_from 0 (padded seq) ≡ seq
unfolding padded value_from pow10
value-padded seq h =
    value-pad_zeros (4 - length (decimal seq)) (decimal seq)
    ∙ value-digits_from 10 seq [] (omega arith)

before_colon : Text → Text
before_colon [] = []
before_colon (c ∷ s) = if c == b':' then [] else c ∷ before_colon s

before_colon-digits : (s t : Text) → IsDigits s → before_colon (s ++ b':' ∷ t) ≡ s
unfolding before_colon
before_colon-digits [] t h = refl
before_colon-digits (c ∷ s) t h = ground (arith, before_colon-digits s t)

-- Two keys of steps that a u32 numbers are equal only if their numbers and their nodes are.
pub logical_step_key-injective :
    (seq seq' : ℕ) (node_id node_id' : Text)
    → seq < 2 ^ 32
    → seq' < 2 ^ 32
    → logical_step_key seq node_id ≡ logical_step_key seq' node_id'
    → (seq ≡ seq') × (node_id ≡ node_id')
unfolding logical_step_key
logical_step_key-injective seq seq' node_id node_id' h h' e = (
  cc (
    value-padded seq h,
    value-padded seq' h',
    before_colon-digits (padded seq) node_id (padded-IsDigits seq),
    before_colon-digits (padded seq') node_id' (padded-IsDigits seq'),
  ),
  cc (
    after_colon-digits (padded seq) node_id (padded-IsDigits seq),
    after_colon-digits (padded seq') node_id' (padded-IsDigits seq'),
  ),
)

-- A key of a node with an empty identifier names no node.
pub node_id-logical_step_key_empty :
    (seq : ℕ) → node_id_from_logical_step_id (logical_step_key seq []) ≡ none
unfolding node_id_from_logical_step_id logical_step_key
node_id-logical_step_key_empty seq = rw (after_colon-digits (padded seq) [] (padded-IsDigits seq))
