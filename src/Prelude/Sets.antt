-- ===== src/Prelude/Sets.antt =====
-- Sets of identifiers (`BTreeSet`), as lists that are read through membership alone.
use mathlib.Core.Path.{◌≡◌, refl}
use mathlib.Core.Logic.{◌↔◌}
use mathlib.Core.Bool.{Bool, true, false, ◌&&◌, ◌||◌}
use mathlib.Core.List.{List, [], ◌∷◌, ◌++◌}
use native.Mathlib.Omega.{arith}
use masonwing.Prelude.Texts.{Text, text_eq, text_eq_iff, text_eq_refl}

or_right : (a : Bool) {b : Bool} → b ≡ true → (a || b) ≡ true
or_right a {b} h = ground arith

unfoldable pub contains : List Text → Text → Bool
unfolding text_eq
contains [] a = false
contains (x ∷ xs) a = text_eq x a || contains xs a

unfoldable pub is_subset : List Text → List Text → Bool
unfolding contains
is_subset [] ys = true
is_subset (x ∷ xs) ys = contains ys x && is_subset xs ys

pub contains_subset :
    (xs ys : List Text) (a : Text)
    → is_subset xs ys ≡ true
    → contains xs a ≡ true
    → contains ys a ≡ true
unfolding contains is_subset
contains_subset [] ys a h m = cc
contains_subset (x ∷ xs) ys a h m = ground (arith, text_eq_iff x a, contains_subset xs ys a)

subset_contains :
    (xs ys : List Text)
    → ((a : Text) → contains xs a ≡ true → contains ys a ≡ true)
    → is_subset xs ys ≡ true
unfolding contains is_subset
subset_contains [] ys h = refl
subset_contains (x ∷ xs) ys h =
    ground
      (arith, h x, text_eq_refl x, subset_contains xs ys (λ a m. h a (or_right (text_eq x a) m)))

-- A set is a subset when it has no member that the other lacks.
pub is_subset_iff :
    (xs ys : List Text)
    → (is_subset xs ys ≡ true) ↔ ((a : Text) → contains xs a ≡ true → contains ys a ≡ true)
is_subset_iff xs ys = (λ h a. contains_subset xs ys a h, subset_contains xs ys)

pub contains-append :
    (xs ys : List Text) (a : Text) → contains (xs ++ ys) a ≡ (contains xs a || contains ys a)
unfolding contains
contains-append [] ys a = refl
contains-append (x ∷ xs) ys a = ground (arith, contains-append xs ys a)

pub contains-singleton : (x a : Text) → contains (x ∷ []) a ≡ text_eq x a
unfolding contains
contains-singleton x a = ground arith

-- A larger set has every subset of a smaller one.
pub is_subset_mono :
    (xs ys zs : List Text)
    → is_subset xs ys ≡ true
    → ((a : Text) → contains ys a ≡ true → contains zs a ≡ true)
    → is_subset xs zs ≡ true
is_subset_mono xs ys zs h more = subset_contains xs zs (λ a m. more a (contains_subset xs ys a h m))

pub contains-head : (x : Text) (xs : List Text) → contains (x ∷ xs) x ≡ true
unfolding contains
contains-head x xs = rw text_eq_refl

pub contains-tail :
    (x : Text) (xs : List Text) (a : Text) → contains xs a ≡ true → contains (x ∷ xs) a ≡ true
unfolding contains
contains-tail x xs a m = or_right (text_eq x a) m
