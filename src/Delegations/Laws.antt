-- ===== src/Delegations/Laws.antt =====
-- What an active grant rests on (platform-plugins/data-postgres/src/delegation.rs).
use masonwing.Prelude.{
  ℕ, ◌<◌, ◌≡◌, refl, sym, ap, ap₂, ◌∙◌, List, Any, ℤ, eq_ℤ, eq_ℤ_iff, subst, ◌⊎◌, inl, inr, Bool,
  true, false, not, ◌&&◌, ◌||◌, Option, some, [], ◌∷◌, arith, length, map_get, ok, ok_or, bind_ok,
  guard_passes, ok_or-some, ok-injective, guard_passes, guard_passes, ok_or-some, contains, ltb,
  Bool-cases, Text, text, text_eq, text_eq_iff,
}
use masonwing.Kernel.Runtime.Failure.{not_found, denied}
use masonwing.Contracts.Wire.{ResourceRef}
use masonwing.Delegations.{
  Delegation, Delegations, ancestry, all_active, is_empty, resource_eq, has_resource, Actor,
  ActiveGrant, grant_of, require_active_grant, lacks_action, lacks_resource, lacks_resource,
}
use masonwing.Delegations.Ancestry.{ancestry_head, ancestry_listed, ancestry_closed}

-- `upper` is the grant itself or one that it was derived from, directly or through others.
pub data Derives (rows : Delegations) (id : Text) : Text → Type 0 where
  itself : Derives rows id id
  further :
      {x y : Text} (d : Delegation)
      → Derives rows id x
      → map_get x rows ≡ some d
      → d.parent_grant_id ≡ some y
      → Derives rows id y

abbrev pub IsActive : ℕ → Delegation → Type 0
IsActive now d = (d.state ≡ text "ACTIVE") × (now < d.expires_at)

all_active-IsActive :
    (rows : Delegations) (now : ℕ) (x : Text) (d : Delegation)
    → all_active rows now ≡ true
    → map_get x rows ≡ some d
    → IsActive now d
unfolding all_active map_get
all_active-IsActive [] now x d h found = absurd cc
all_active-IsActive ((k, e) ∷ rest) now x d h found =
    let (state, time, others) = parts _ _ _ h in
    elim (Bool-cases (text_eq k x)) [
      | inl same ↦
          let row_is : e ≡ d = cc (rw same at found) in
          subst (IsActive now) row_is
            ((text_eq_iff e.state (text "ACTIVE")).0 state, earlier now e.expires_at time)
      | inr other ↦ all_active-IsActive rest now x d others (rw other at found)
    ]
  where
    parts : (a b c : Bool) → (a && b && c) ≡ true → (a ≡ true) × (b ≡ true) × (c ≡ true)
    parts a b c k = ground arith

    earlier : (x y : ℕ) → ltb x y ≡ true → x < y
    earlier x y k = ground arith

module _ (rows : Delegations) (now : ℕ) (id : Text) where
  -- The query lists every grant that the given one derives from.
  Derives-listed :
      (first : Delegation)
      → map_get id rows ≡ some first
      → {upper : Text} → Derives rows id upper
      → (d : Delegation) → map_get upper rows ≡ some d
      → map_get upper (ancestry (length rows) rows id) ≡ some d
  Derives-listed first found itself d there =
      ancestry_head (length rows) rows id d (omega arith) there
  Derives-listed first found (further {x = x} {y = y} e chain at up) d there =
      ancestry_closed (length rows) rows id x y e d (omega arith)
        (Derives-listed first found chain e at) up there

-- The actor wrote the grant or is its delegate.
abbrev pub MayUse : Actor → Delegation → Type 0
MayUse actor d =
    (d.creator_id ≡ actor.principal_id)
    ⊎ ((d.principal_id ≡ actor.principal_id) × (d.issuer ≡ actor.issuer))

-- The grant lists the action, and the resource if one is asked for.
abbrev pub Lists : Text → Option ResourceRef → Delegation → Type 0
Lists action resource d =
    Any (λ x. x ≡ action) d.actions
    × ((r : ResourceRef) → resource ≡ some r → Any (λ x. x ≡ r) d.resources)

-- What is answered for the row.
abbrev pub active_grant : Text → Delegation → ActiveGrant
active_grant id d = record {
  id = id;
  actions = d.actions;
  resources = d.resources;
  expires_at = d.expires_at;
  fence = d.fence;
}

contains-Any : (xs : List Text) (a : Text) → contains xs a ≡ true → Any (λ x. x ≡ a) xs
unfolding contains
contains-Any [] a h = absurd cc
contains-Any (x ∷ xs) a h = elim (Bool-cases (text_eq x a)) [
  | inl same ↦ inl ((text_eq_iff x a).0 same)
  | inr other ↦ inr (contains-Any xs a (rw other at h))
]

resource_eq-same : (a b : ResourceRef) → resource_eq a b ≡ true → a ≡ b
unfolding resource_eq
resource_eq-same a b h =
    let (t, i, v) =
      parts (text_eq a.resource_type b.resource_type) (text_eq a.resource_id b.resource_id)
        (eq_ℤ a.version b.version) h in
    ap₂
      (λ (x : Text × Text) (n : ℤ). record { resource_type = x.0; resource_id = x.1; version = n })
      (ap₂ (λ x y. (x, y)) ((text_eq_iff a.resource_type b.resource_type).0 t)
        ((text_eq_iff a.resource_id b.resource_id).0 i))
      ((eq_ℤ_iff a.version b.version).0 v)
  where
    parts : (x y z : Bool) → (x && y && z) ≡ true → (x ≡ true) × (y ≡ true) × (z ≡ true)
    parts x y z k = ground arith

has_resource-Any :
    (xs : List ResourceRef) (r : ResourceRef) → has_resource xs r ≡ true → Any (λ x. x ≡ r) xs
unfolding has_resource
has_resource-Any [] r h = absurd cc
has_resource-Any (x ∷ xs) r h = elim (Bool-cases (resource_eq x r)) [
  | inl same ↦ inl (resource_eq-same x r same)
  | inr other ↦ inr (has_resource-Any xs r (rw other at h))
]

lacks-Lists :
    (d : Delegation) (action : Text) (resource : Option ResourceRef)
    → not (lacks_action d (some action) || lacks_resource d resource) ≡ true
    → Lists action resource d
unfolding lacks_action lacks_resource
lacks-Lists d action resource h =
    let (acts, asked) = held (contains d.actions action) (lacks_resource d resource) h in
    (
      contains-Any d.actions action acts,
      λ r e.
          has_resource-Any d.resources r
            (negated (has_resource d.resources r) (ap (lacks_resource d) (sym e) ∙ asked)),
    )
  where
    held : (a b : Bool) → not (not a || b) ≡ true → (a ≡ true) × (b ≡ false)
    held a b k = ground arith

    negated : (b : Bool) → not b ≡ false → b ≡ true
    negated b k = ground arith

grant_of-granted :
    (d : Delegation) (actor : Actor) (id action : Text) (resource : Option ResourceRef)
    (g : ActiveGrant)
    → grant_of d actor id (some action) resource ≡ ok g
    → MayUse actor d × Lists action resource d × (g ≡ active_grant id d)
unfolding grant_of
grant_of-granted d actor id action resource g h =
    let (whose, h1) =
      guard_passes
        (text_eq d.creator_id actor.principal_id
          || (text_eq d.principal_id actor.principal_id && text_eq d.issuer actor.issuer))
        (denied (text "GRANT_PRINCIPAL_MISMATCH")) _ g h in
    let (holds, h2) =
      guard_passes (not (lacks_action d (some action) || lacks_resource d resource))
        (denied (text "CAPABILITY_DENIED")) _ g h1 in
    (
      whose_of (text_eq d.creator_id actor.principal_id) (text_eq d.principal_id actor.principal_id)
          (text_eq d.issuer actor.issuer) whose ((text_eq_iff d.creator_id actor.principal_id).0)
          ((text_eq_iff d.principal_id actor.principal_id).0)
          ((text_eq_iff d.issuer actor.issuer).0),
      lacks-Lists d action resource holds,
      sym (ok-injective (active_grant id d) g h2),
    )
  where
    whose_of :
        {P Q R : Type 0} (a b c : Bool)
        → (a || (b && c)) ≡ true
        → (a ≡ true → P)
        → (b ≡ true → Q)
        → (c ≡ true → R)
        → P ⊎ (Q × R)
    whose_of true b c k p q r = inl (p refl)
    whose_of false true true k p q r = inr (q refl, r refl)
    whose_of false true false k p q r = absurd cc
    whose_of false false c k p q r = absurd cc

-- A grant is active for an actor only if it and every grant above it are in force now, the actor wrote
-- it or is its delegate, and it lists the action that is asked for, and the resource if one is asked
-- for; what is answered are the identifier that was asked for and the actions, the resources, the
-- expiry and the fence of its row.
pub require_active_grant-IsActive :
    (rows : Delegations) (now : ℕ) (actor : Actor) (id action : Text)
    (resource : Option ResourceRef) (g : ActiveGrant)
    → require_active_grant rows now actor id (some action) resource ≡ ok g
    → ((upper : Text) (d : Delegation)
        → Derives rows id upper
        → map_get upper rows ≡ some d
        → IsActive now d)
      × ((d : Delegation) × (map_get id rows ≡ some d)
          × MayUse actor d
          × Lists action resource d
          × (g ≡ active_grant id d))
unfolding require_active_grant
require_active_grant-IsActive rows now actor id action resource g h =
    let listed = ancestry (length rows) rows id in
    let (_, h1) = guard_passes (not (is_empty listed)) not_found _ g h in
    let (active, h2) =
      guard_passes (all_active listed now) (denied (text "GRANT_REVOKED_OR_EXPIRED")) _ g h1 in
    let (d, found, h3) = bind_ok (ok_or (map_get id listed) not_found) _ g h2 in
    let listed_row : map_get id listed ≡ some d =
      ok_or-some (map_get id listed) not_found d found in
    let row : map_get id rows ≡ some d = ancestry_listed (length rows) rows id id d listed_row in
    let (who, holds, answered) = grant_of-granted d actor id action resource g h3 in
    (
      λ upper e chain there.
          all_active-IsActive listed now upper e active
            (Derives-listed rows now id d row chain e there),
      (d, row, who, holds, answered),
    )
