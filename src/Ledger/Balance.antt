-- ===== src/Ledger/Balance.antt =====
-- What the accounts hold and have charged, beside the reservations
-- (platform-plugins/data-postgres/src/budget_ledger.rs).
use masonwing.Prelude.{
  ℕ, suc, ◌+◌, ◌*◌, ◌≡◌, refl, sym, ap, subst, ◌∙◌, inl, inr, Option, none, some, List, [], ◌∷◌,
  arith, map_insert, map_get, map_get-insert, ok, bind_ok, ok-injective, if◌then◌else◌, Bool-cases,
  Text, text_eq, text_eq_iff,
}
use masonwing.Ledger.Tables.{Setting, Account}
use masonwing.Ledger.Accounts.{
  Accounts, limit_of, period_of, hold, seed, hold_or_seed, hold_all, end_hold, end_row, end_holds,
}

-- How often an account is charged for a reservation.
unfoldable pub times : Text → List Text → ℕ
unfolding text_eq
times key [] = 0
times key (k ∷ keys) = let rest = times key keys in if text_eq k key then suc rest else rest

abbrev pub held_of : Option Account → ℕ
held_of none = 0
held_of (some a) = a.held_microunits

abbrev pub charged_of : Option Account → ℕ
charged_of none = 0
charged_of (some a) = a.charged_microunits

-- A hold adds the bound to what the account of the key holds.
hold_or_seed-adds :
    (settings : List Setting) (o : Option Account) (currency key : Text) (bound : ℕ) (a : Account)
    → hold_or_seed settings o currency key bound ≡ ok a
    → (a.held_microunits ≡ held_of o + bound) × (a.charged_microunits ≡ charged_of o)
unfolding hold_or_seed hold seed
hold_or_seed-adds settings none currency key bound a h =
    seeded (limit_of settings currency (period_of key)) h
  where
    seeded :
        (limit : Option ℕ)
        → seed limit currency bound ≡ ok a
        → (a.held_microunits ≡ 0 + bound) × (a.charged_microunits ≡ 0)
    seeded none k = absurd cc
    seeded (some n) k = ground arith
hold_or_seed-adds settings (some b) currency key bound a h = ground arith

-- What a loop of holds leaves of one account.
pub hold_all-adds :
    (settings : List Setting) (currency : Text) (bound : ℕ) (keys : List Text)
    (accounts after : Accounts) (key : Text)
    → hold_all settings currency bound keys accounts ≡ ok after
    → (held_of (map_get key after) ≡ held_of (map_get key accounts) + bound * times key keys)
      × (charged_of (map_get key after) ≡ charged_of (map_get key accounts))
unfolding hold_all times
hold_all-adds settings currency bound [] accounts after key h =
    let same = ok-injective accounts after h in
    (
      ap (λ x. held_of (map_get key x)) (sym same) ∙ omega arith,
      ap (λ x. charged_of (map_get key x)) (sym same),
    )
hold_all-adds settings currency bound (k ∷ keys) accounts after key h =
    let (a, held, later) =
      bind_ok (hold_or_seed settings (map_get k accounts) currency k bound) _ after h in
    let (more, kept) = hold_or_seed-adds settings (map_get k accounts) currency k bound a held in
    let (rest, charged) =
      hold_all-adds settings currency bound keys (map_insert k a accounts) after key later in
    elim (Bool-cases (text_eq k key)) [
      | inl same ↦
          let there : map_get key (map_insert k a accounts) ≡ some a =
            rw same at (map_get-insert k key a accounts) in
          let this = ap (λ x. map_get x accounts) ((text_eq_iff k key).0 same) in
          (
            rest
                ∙ (ap (λ o. held_of o + bound * times key keys) there
                    ∙ (ap (λ n. n + bound * times key keys)
                          (more ∙ ap (λ o. held_of o + bound) this)
                        ∙ rw same (omega arith))),
            charged ∙ (ap charged_of there ∙ (kept ∙ ap charged_of this)),
          )
      | inr other ↦
          let there : map_get key (map_insert k a accounts) ≡ map_get key accounts =
            rw other at (map_get-insert k key a accounts) in
          (
            rest ∙ (ap (λ o. held_of o + bound * times key keys) there ∙ rw other refl),
            charged ∙ ap charged_of there,
          )
    ]

-- One account before and after a loop that ends holds: a missing one stays missing, another one holds
-- less by the bound and has been charged more by what was used, as often as its key is listed.
pub data Ended (bound used n : ℕ) (o o' : Option Account) : Type 0 where
  missing : o ≡ none → o' ≡ none → Ended bound used n o o'
  ended :
      (a : Account)
      → o ≡ some a
      → held_of o ≡ held_of o' + bound * n
      → charged_of o' ≡ charged_of o + used * n
      → Ended bound used n o o'

end_hold-moves :
    (a b : Account) (bound used : ℕ)
    → end_hold a bound used ≡ ok b
    → (a.held_microunits ≡ b.held_microunits + bound)
      × (b.charged_microunits ≡ a.charged_microunits + used)
unfolding end_hold
end_hold-moves a b bound used h = ground arith

-- One more round before the others.
Ended-more :
    (bound used n : ℕ) (a b : Account) (o' : Option Account)
    → a.held_microunits ≡ b.held_microunits + bound
    → b.charged_microunits ≡ a.charged_microunits + used
    → Ended bound used n (some b) o'
    → Ended bound used (suc n) (some a) o'
Ended-more bound used n a b o' less more (missing x y) = absurd (cc x)
Ended-more bound used n a b o' less more (ended c e held charged) =
    ended a refl (less ∙ (ap (λ m. m + bound) held ∙ omega arith))
      (charged ∙ (ap (λ m. m + used * n) more ∙ omega arith))

Ended-missing :
    (bound used n m : ℕ) (o' : Option Account)
    → Ended bound used n none o'
    → Ended bound used m none o'
Ended-missing bound used n m o' (missing x y) = missing x y
Ended-missing bound used n m o' (ended c e held charged) = absurd (cc e)

pub end_holds-Ended :
    (bound used : ℕ) (keys : List Text) (accounts after : Accounts) (key : Text)
    → end_holds bound used keys accounts ≡ ok after
    → Ended bound used (times key keys) (map_get key accounts) (map_get key after)
unfolding end_holds times end_row
end_holds-Ended bound used [] accounts after key h =
    subst (λ x. Ended bound used 0 (map_get key accounts) (map_get key x))
      (ok-injective accounts after h) (unchanged (map_get key accounts))
  where
    unchanged : (o : Option Account) → Ended bound used 0 o o
    unchanged none = missing refl refl
    unchanged (some a) = ended a refl (omega arith) (omega arith)
end_holds-Ended bound used (k ∷ keys) accounts after key h =
    let (next, row, later) =
      bind_ok (end_row accounts k (map_get k accounts) bound used) _ after h in
    round (map_get k accounts) refl next row (end_holds-Ended bound used keys next after key later)
  where
    round :
        (o : Option Account)
        → map_get k accounts ≡ o
        → (next : Accounts) → end_row accounts k o bound used ≡ ok next
        → Ended bound used (times key keys) (map_get key next) (map_get key after)
        → Ended bound used
            (if text_eq k key then suc (times key keys) else times key keys)
            (map_get key accounts)
            (map_get key after)
    round none found next row rest =
        let same : accounts ≡ next = ok-injective accounts next row in
        let old : Ended bound used (times key keys) (map_get key accounts) (map_get key after) =
          subst (λ x. Ended bound used (times key keys) (map_get key x) (map_get key after))
            (sym same) rest in
        elim (Bool-cases (text_eq k key)) [
          | inr other ↦ rw other old
          | inl here ↦
              let gone : map_get key accounts ≡ none =
                subst (λ x. map_get x accounts ≡ none) ((text_eq_iff k key).0 here) found in
              rw here (
                subst (λ o. Ended bound used (suc (times key keys)) o (map_get key after))
                  (sym gone)
                  (Ended-missing bound used (times key keys) (suc (times key keys))
                    (map_get key after)
                    (subst (λ o. Ended bound used (times key keys) o (map_get key after)) gone
                      old)))
        ]
    round (some a) found next row rest =
        let (b, moved, made) = bind_ok (end_hold a bound used) _ next row in
        let same : map_insert k b accounts ≡ next = ok-injective _ next made in
        let (less, more) = end_hold-moves a b bound used moved in
        let new : map_get key next ≡ (if text_eq k key then some b else map_get key accounts) =
          ap (map_get key) (sym same) ∙ map_get-insert k key b accounts in
        elim (Bool-cases (text_eq k key)) [
          | inr other ↦ rw other (
              subst (λ o. Ended bound used (times key keys) o (map_get key after))
                (new ∙ rw other refl) rest)
          | inl here ↦
              let was : map_get key accounts ≡ some a =
                subst (λ x. map_get x accounts ≡ some a) ((text_eq_iff k key).0 here) found in
              rw here (
                subst (λ o. Ended bound used (suc (times key keys)) o (map_get key after)) (sym was)
                  (Ended-more bound used (times key keys) a b (map_get key after) less more (
                    subst (λ o. Ended bound used (times key keys) o (map_get key after))
                      (new ∙ rw here refl) rest)))
        ]
