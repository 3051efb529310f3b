-- ===== src/Delegations/Ancestry.antt =====
-- The rows that the recursive query lists
-- (platform-plugins/data-postgres/src/delegation.rs).
use masonwing.Prelude.{
  ℕ, zero, suc, ◌+◌, ◌≤◌, ◌≡◌, refl, sym, ap, subst, ◌∙◌, ◌≢◌, inl, inr, false, Option, none, some,
  [], ◌∷◌, arith, length, map_get, if◌then◌else◌, Bool-cases, Option-cases, Text, text_eq,
  text_eq_iff, text_eq_refl,
}
use masonwing.Delegations.{Delegation, Delegations, without, ancestry}

map_get-without :
    (id x : Text) (rows : Delegations)
    → map_get x (without id rows) ≡ (if text_eq id x then none else map_get x rows)
unfolding map_get without
map_get-without id x [] = elim (Bool-cases (text_eq id x)) [
  | inl same ↦ rw same refl
  | inr other ↦ rw other refl
]
map_get-without id x ((k, d) ∷ rest) =
    ground (arith, map_get-without id x rest, text_eq_iff k id, text_eq_iff k x, text_eq_iff id x)

length-without : (id : Text) (rows : Delegations) → length (without id rows) ≤ length rows
unfolding without
length-without id [] = omega arith
length-without id ((k, d) ∷ rest) = ground (arith, length-without id rest)

length-without_found :
    (id : Text) (rows : Delegations) (d : Delegation)
    → map_get id rows ≡ some d
    → length (without id rows) + 1 ≤ length rows
unfolding map_get without
length-without_found id [] d h = absurd cc
length-without_found id ((k, x) ∷ rest) d h =
    ground (arith, length-without id rest, length-without_found id rest d)

-- The rest of the query behind a row.
abbrev above : ℕ → Delegations → Option Text → Delegations
above rounds rows none = []
above rounds rows (some parent) = ancestry rounds rows parent

ancestry_found :
    (rounds : ℕ) (rows : Delegations) (id : Text) (d : Delegation)
    → map_get id rows ≡ some d
    → ancestry (suc rounds) rows id ≡ (id, d) ∷ above rounds (without id rows) d.parent_grant_id
unfolding ancestry
ancestry_found rounds rows id d h = elim (Option-cases d.parent_grant_id) [
  | inl top ↦ rw (h, top, ancestry) refl
  | inr (parent, child) ↦ rw (h, child, ancestry) refl
]

map_get-ancestry :
    (rounds : ℕ) (rows : Delegations) (id x : Text) (d : Delegation)
    → map_get id rows ≡ some d
    → map_get x (ancestry (suc rounds) rows id) ≡ (
        if text_eq id x
        then some d
        else map_get x (above rounds (without id rows) d.parent_grant_id))
unfolding map_get
map_get-ancestry rounds rows id x d h =
    ap (λ (m : Delegations). map_get x m) (ancestry_found rounds rows id d h)

no_rounds :
    (rows : Delegations) (id : Text) (d : Delegation) → length rows ≤ 0 → map_get id rows ≢ some d
no_rounds rows id d low h = absurd (omega (arith, length-without_found id rows d h))

pub ancestry_head :
    (rounds : ℕ) (rows : Delegations) (id : Text) (d : Delegation)
    → length rows ≤ rounds
    → map_get id rows ≡ some d
    → map_get id (ancestry rounds rows id) ≡ some d
ancestry_head zero rows id d low h = absurd (no_rounds rows id d low h)
ancestry_head (suc rounds) rows id d low h =
    map_get-ancestry rounds rows id id d h ∙ rw (text_eq_refl id)

nothing_found :
    (rounds : ℕ) (rows : Delegations) (id : Text)
    → map_get id rows ≡ none
    → ancestry rounds rows id ≡ []
unfolding ancestry
nothing_found zero rows id h = refl
nothing_found (suc rounds) rows id h = rw (h, ancestry) refl

-- What the query lists are rows of the table.
pub ancestry_listed :
    (rounds : ℕ) (rows : Delegations) (id x : Text) (d : Delegation)
    → map_get x (ancestry rounds rows id) ≡ some d
    → map_get x rows ≡ some d
unfolding map_get ancestry
ancestry_listed zero rows id x d h = absurd cc
ancestry_listed (suc rounds) rows id x d h = elim (Option-cases (map_get id rows)) [
  | inl missing ↦
      absurd
        (cc (ap (λ (m : Delegations). map_get x m) (nothing_found (suc rounds) rows id missing), h))
  | inr (e, found) ↦
      let listed : (if text_eq id x
            then some e
            else map_get x (above rounds (without id rows) e.parent_grant_id))
          ≡ some d =
        sym (map_get-ancestry rounds rows id x e found) ∙ h in
      elim (Bool-cases (text_eq id x)) [
        | inl same ↦
            subst (λ (k : Text). map_get k rows ≡ some d) ((text_eq_iff id x).0 same)
              (found ∙ (rw same at listed))
        | inr other ↦
            behind rounds rows id x d other e.parent_grant_id
              (λ parent. ancestry_listed rounds (without id rows) parent x d) (rw other at listed)
      ]
]
  where
    behind :
        (rounds : ℕ) (rows : Delegations) (id x : Text) (d : Delegation)
        → text_eq id x ≡ false
        → (o : Option Text)
        → ((parent : Text)
            → map_get x (ancestry rounds (without id rows) parent) ≡ some d
            → map_get x (without id rows) ≡ some d)
        → map_get x (above rounds (without id rows) o) ≡ some d
        → map_get x rows ≡ some d
    behind rounds rows id x d other none deeper h = absurd cc
    behind rounds rows id x d other (some parent) deeper h =
        let kept : map_get x (without id rows) ≡ map_get x rows =
          map_get-without id x rows ∙ rw other refl in
        sym kept ∙ deeper parent h

-- With a row its parent is listed, if the table has it.
pub ancestry_closed :
    (rounds : ℕ) (rows : Delegations) (id x y : Text) (d r : Delegation)
    → length rows ≤ rounds
    → map_get x (ancestry rounds rows id) ≡ some d
    → d.parent_grant_id ≡ some y
    → map_get y rows ≡ some r
    → map_get y (ancestry rounds rows id) ≡ some r
unfolding map_get
ancestry_closed zero rows id x y d r low h up there = absurd (no_rounds rows y r low there)
ancestry_closed (suc rounds) rows id x y d r low h up there =
    elim (Option-cases (map_get id rows)) [
      | inl missing ↦ absurd (
          nothing_in x d (
            ap (λ (m : Delegations). map_get x m) (sym (nothing_found (suc rounds) rows id missing))
            ∙ h))
      | inr (e, found) ↦
          let fewer : length (without id rows) ≤ rounds =
            omega (arith, low, length-without_found id rows e found) in
          let listed : (if text_eq id x
                then some e
                else map_get x (above rounds (without id rows) e.parent_grant_id))
              ≡ some d =
            sym (map_get-ancestry rounds rows id x e found) ∙ h in
          map_get-ancestry rounds rows id y e found ∙ elim (Bool-cases (text_eq id y)) [
            | inl this ↦
                let same_row : map_get id rows ≡ some r =
                  subst (λ (k : Text). map_get k rows ≡ some r) (sym ((text_eq_iff id y).0 this))
                    there in
                rw this (sym found ∙ same_row)
            | inr other ↦
                let left : map_get y (without id rows) ≡ some r =
                  map_get-without id y rows ∙ rw other there in
                rw other (elim (Bool-cases (text_eq id x)) [
                  | inl first ↦
                      let row_is : e ≡ d = cc (rw first at listed) in
                      let its : e.parent_grant_id ≡ some y =
                        ap (λ (k : Delegation). k.parent_grant_id) row_is ∙ up in
                      rw its (ancestry_head rounds (without id rows) y r fewer left)
                  | inr later ↦
                      parents rounds rows id x y d r e.parent_grant_id
                        (λ parent inner.
                          ancestry_closed rounds (without id rows) parent x y d r fewer inner up
                            left)
                        (rw later at listed)
                ])
          ]
    ]
  where
    nothing_in : (x : Text) (d : Delegation) → map_get x [] ≢ some d
    nothing_in x d k = absurd cc

    parents :
        (rounds : ℕ) (rows : Delegations) (id x y : Text) (d r : Delegation) (o : Option Text)
        → ((parent : Text)
            → map_get x (ancestry rounds (without id rows) parent) ≡ some d
            → map_get y (ancestry rounds (without id rows) parent) ≡ some r)
        → map_get x (above rounds (without id rows) o) ≡ some d
        → map_get y (above rounds (without id rows) o) ≡ some r
    parents rounds rows id x y d r none deeper k = absurd cc
    parents rounds rows id x y d r (some parent) deeper k = deeper parent k
