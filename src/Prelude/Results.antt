-- ===== src/Prelude/Results.antt =====
-- Rust's `Result`, with the `?` operator as bind.
use mathlib.Core.Bool.{Bool, true, false}
use mathlib.Core.Path.{◌≡◌, refl, ap}
use mathlib.Core.Option.{Option, none, some}

pub data Result {ℓ κ} (A : Type ℓ) (E : Type κ) : Type (ℓ ⊔ κ) where
  ok : A → Result A E
  err : E → Result A E

infixl 5 ◌>>=◌ ◌>>◌
abbrev pub ◌>>=◌ {ℓ κ μ} :
    {A : Type ℓ} {B : Type κ} {E : Type μ} → Result A E → (A → Result B E) → Result B E
ok a >>= f = f a
err e >>= f = err e

abbrev pub ◌>>◌ {ℓ μ} : {B : Type ℓ} {E : Type μ} → Result (Unit {0}) E → Result B E → Result B E
m >> k = m >>= λ _. k

-- `if !test { return Err(e) }`
abbrev pub guard {μ} : {E : Type μ} → Bool → E → Result (Unit {0}) E
guard true e = ok tt
guard false e = err e

-- `ok_or`
abbrev pub ok_or {ℓ μ} : {A : Type ℓ} {E : Type μ} → Option A → E → Result A E
ok_or (some a) e = ok a
ok_or none e = err e

-- A chain that succeeds has succeeded in its first part.
pub bind_ok :
    {A B E : Type 0} (m : Result A E) (f : A → Result B E) (b : B)
    → (m >>= f) ≡ ok b
    → (a : A) × (m ≡ ok a) × (f a ≡ ok b)
bind_ok (ok a) f b h = (a, refl, h)
bind_ok (err e) f b h = absurd cc

pub ok-injective : {A E : Type 0} (x y : A) → ◌≡◌ {A = Result A E} (ok x) (ok y) → x ≡ y
ok-injective x y e = cc

-- A guard that is passed.
pub guard_passed : {E : Type 0} (b : Bool) (e : E) (u : Unit {0}) → guard b e ≡ ok u → b ≡ true
guard_passed true e u h = refl
guard_passed false e u h = absurd cc

-- A chain behind a guard that succeeds.
pub guard_then :
    {E : Type 0} (b : Bool) (e : E) (r : Result (Unit {0}) E)
    → (guard b e >>= λ _. r) ≡ ok tt
    → (b ≡ true) × (r ≡ ok tt)
guard_then true e r h = (refl, h)
guard_then false e r h = absurd cc

pub guard_passes :
    {A E : Type 0} (b : Bool) (e : E) (r : Result A E) (a : A)
    → (guard b e >>= λ _. r) ≡ ok a
    → (b ≡ true) × (r ≡ ok a)
guard_passes true e r a h = (refl, h)
guard_passes false e r a h = absurd cc

pub ok_or-some : {A E : Type 0} (o : Option A) (e : E) (a : A) → ok_or o e ≡ ok a → o ≡ some a
ok_or-some none e a h = absurd cc
ok_or-some (some x) e a h = ap some (ok-injective x a h)
