-- ===== src/Registration/Manifests/Sets.antt =====
-- The sets of `validate_manifest`, and what is asked of the tenants
-- (platform-plugins/data-postgres/src/registry_validation.rs).
use masonwing.Prelude.{
  ◌+◌, ◌≤◌, ◌≡◌, refl, sym, ap, subst, ◌∙◌, ◌≢◌, ◌↔◌, inl, inr, Bool, true, false, ◌&&◌, ◌||◌, List,
  [], ◌∷◌, ◌++◌, map, arith, length, All, contains, Bool-cases, Text, text_eq, text_eq_iff,
}
use masonwing.Contracts.Wire.{ArtifactRef, UiContribution}
use masonwing.Registration.Manifests.{collect, is_of_tenant, all_of_tenant, has_location}

-- Each member differs from those behind it.
abbrev pub AreDistinct : {A : Type 0} → List A → Type 0
AreDistinct [] = Unit
AreDistinct (x ∷ xs) = All (λ y. y ≢ x) xs × AreDistinct xs

abbrev pub id_and_slot : UiContribution → Text × Text
id_and_slot ui = (ui.path, ui.slot)

-- What is new behind `x` differs from it.
pub new_iff :
    (x : Text) (seen ys : List Text)
    → All (λ y. contains (x ∷ seen) y ≡ false) ys
      ↔ (All (λ y. y ≢ x) ys × All (λ y. contains seen y ≡ false) ys)
unfolding contains
new_iff x seen [] = (λ h. (tt, tt), λ h. tt)
new_iff x seen (y ∷ ys) = (
  λ (h : (contains (x ∷ seen) y ≡ false) × All (λ z. contains (x ∷ seen) z ≡ false) ys).
      let (others, later) = (new_iff x seen ys).0 h.1 in
      let new : (text_eq x y || contains seen y) ≡ false = h.0 in
      let apart : text_eq x y ≡ false = ground arith in
      ((λ e. absurd (cc (apart, (text_eq_iff x y).1 (sym e))), others), (ground arith, later)),
  λ (h : ((y ≢ x) × All (λ z. z ≢ x) ys)
        × ((contains seen y ≡ false) × All (λ z. contains seen z ≡ false) ys)).
      let ((differs, others), (new, later)) = h in
      (
        elim (Bool-cases (text_eq x y)) [
          | inl same ↦ absurd (differs (sym ((text_eq_iff x y).0 same)))
          | inr apart ↦ rw (apart, new) refl
        ],
        (new_iff x seen ys).1 (others, later),
      ),
)

pub split_new :
    (x : Text) (seen ys : List Text)
    → All (λ y. contains (x ∷ seen) y ≡ false) ys
    → All (λ y. y ≢ x) ys × All (λ y. contains seen y ≡ false) ys
split_new x seen ys = (new_iff x seen ys).0

collect-length : (set xs : List Text) → length (collect set xs) ≤ length set + length xs
unfolding collect
collect-length set [] = omega arith
collect-length set (x ∷ xs) = elim (Bool-cases (contains set x)) [
  | inl known ↦ rw known (omega (arith, collect-length set xs))
  | inr new ↦ rw new (omega (arith, collect-length (x ∷ set) xs))
]

pub collect-AreDistinct :
    (set xs : List Text)
    → length (collect set xs) ≡ length set + length xs
    → All (λ y. contains set y ≡ false) xs × AreDistinct xs
unfolding collect
collect-AreDistinct set [] h = (tt, tt)
collect-AreDistinct set (x ∷ xs) h = elim (Bool-cases (contains set x)) [
  | inl known ↦ absurd (omega (arith, collect-length set xs, rw known at h))
  | inr new ↦
      let (fresh, distinct) = collect-AreDistinct (x ∷ set) xs (omega (arith, rw new at h)) in
      let (others, later) = split_new x set xs fresh in ((new, later), (others, distinct))
]

pub contains-collect :
    (set xs : List Text) (a : Text)
    → contains (collect set xs) a ≡ (contains set a || contains xs a)
unfolding collect contains
contains-collect set [] a = ground arith
contains-collect set (x ∷ xs) a = elim (Bool-cases (contains set x)) [
  | inl known ↦ rw known (
      contains-collect set xs a ∙ elim (Bool-cases (text_eq x a)) [
        | inl same ↦
            let old : contains set a ≡ true =
              subst (λ (y : Text). contains set y ≡ true) ((text_eq_iff x a).0 same) known in
            rw (same, old) refl
        | inr other ↦ rw other refl
      ])
  | inr new ↦
      rw new (contains-collect (x ∷ set) xs a ∙ swap (text_eq x a) (contains set a) (contains xs a))
]
  where
    swap : (x y z : Bool) → ((x || y) || z) ≡ (y || (x || z))
    swap x y z = ground arith

pub both : {a b : Bool} → (a && b) ≡ true → (a ≡ true) × (b ≡ true)
both h = (ground arith, ground arith)

pub of_tenant :
    (tenant : Text) (a : ArtifactRef) → is_of_tenant tenant a ≡ true → a.tenant_id ≡ tenant
unfolding is_of_tenant
of_tenant tenant a h = (text_eq_iff a.tenant_id tenant).0 h

pub all_of_tenant-append :
    (tenant : Text) (xs ys : List ArtifactRef)
    → all_of_tenant tenant (xs ++ ys) ≡ true
    → All (λ (a : ArtifactRef). a.tenant_id ≡ tenant) xs
      × All (λ (a : ArtifactRef). a.tenant_id ≡ tenant) ys
unfolding all_of_tenant
all_of_tenant-append tenant [] [] h = (tt, tt)
all_of_tenant-append tenant [] (y ∷ ys) h =
    let (this, others) = both h in
    (tt, (of_tenant tenant y this, (all_of_tenant-append tenant [] ys others).1))
all_of_tenant-append tenant (x ∷ xs) ys h =
    let (this, others) = both h in
    let (left, right) = all_of_tenant-append tenant xs ys others in
    ((of_tenant tenant x this, left), right)

pub new_location :
    (path slot : Text) (seen : List (Text × Text)) (ys : List UiContribution)
    → All (λ (u : UiContribution). has_location ((path, slot) ∷ seen) u.path u.slot ≡ false) ys
    → All (λ l. l ≢ (path, slot)) (map id_and_slot ys)
      × All (λ (u : UiContribution). has_location seen u.path u.slot ≡ false) ys
unfolding has_location
new_location path slot seen [] h = (tt, tt)
new_location path slot seen (y ∷ ys) (new, h) =
    let (others, later) = new_location path slot seen ys h in
    let apart : (text_eq path y.path && text_eq slot y.slot) ≡ false = ground arith in
    (
      (
        λ e. absurd (
            let same_path : text_eq path y.path ≡ true =
              (text_eq_iff path y.path).1 (ap (λ l. l.0) (sym e)) in
            let same_slot : text_eq slot y.slot ≡ true =
              (text_eq_iff slot y.slot).1 (ap (λ l. l.1) (sym e)) in
            ground arith),
        others,
      ),
      (ground arith, later),
    )
