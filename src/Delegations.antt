-- ===== src/Delegations.antt =====
-- platform-plugins/data-postgres/src/delegation.rs: the grants of one tenant in the database, and
-- `require_active_grant` with the rows that its recursive query reads. An instant is the number of its
-- microseconds, and `now` is the clock of the database. The times of creation are left out.
pub mod Ancestry
pub mod Laws
mod Tests
use masonwing.Prelude.{
  ℕ, zero, suc, ◌+◌, ◌-◌, ◌*◌, ◌/◌, ◌%◌, ◌^◌, ◌≤◌, ◌<◌, String, ◌≡◌, refl, sym, ap, ap₂, subst, ◌∙◌,
  ◌≢◌, ◌↔◌, ◌⊎◌, inl, inr, Bool, true, false, not, ◌&&◌, ◌||◌, Option, none, some, List, [], ◌∷◌,
  ◌++◌, map, append_assoc, append-nil, arith, ℕ_discrete, dec_le, ℤ, pos, negsuc, pos_part,
  neg_part, ltb_ℤ, leb_ℤ, ◌≤ℤ◌, ◌<ℤ◌, eq_ℤ, suc_ℤ, suc_ℤ_parts, eq_ℤ_iff, length, drop,
  length-append, All, Any, map_insert, map_get, map_get-insert, Result, ok, err, ◌>>=◌, ◌>>◌, guard,
  ok_or, bind_ok, ok-injective, guard_passed, guard_then, contains, is_subset, contains_subset,
  is_subset_iff, contains-append, contains-singleton, is_subset_mono, contains-head, contains-tail,
  ltb, leb, ◌==◌, if◌then◌else◌, ==_iff, Bool-cases, Option-cases, Text, text, text_eq, text_eq_iff,
  text_eq_refl,
}
use masonwing.Contracts.Wire.{ResourceRef}
use masonwing.Kernel.Runtime.Failure.{CommandFailure, not_found, denied}

pub record Delegation : Type 0 where
  pub principal_id : Text
  pub principal_type : Text
  pub issuer : Text
  pub creator_id : Text
  pub actions : List Text
  pub resources : List ResourceRef
  pub parent_grant_id : Option Text
  pub expires_at : ℕ
  pub state : Text
  pub version : ℕ
  pub fence : ℕ

abbrev pub Delegations : Type 0
Delegations = List (Text × Delegation)

-- The rows that are not on the path yet.
unfoldable pub without : Text → Delegations → Delegations
unfolding text_eq
without id [] = []
without id ((k, d) ∷ rest) =
    let others = without id rest in if text_eq k id then others else ((k, d) ∷ others)

-- The recursive query: a row, and the rows above it that are not on the path yet. Each round takes a
-- row away.
unfoldable pub ancestry : ℕ → Delegations → Text → Delegations
unfolding map_get without
ancestry zero rows id = []
ancestry (suc rounds) rows id = elim (map_get id rows) [
  | none ↦ []
  | some d ↦ (id, d) ∷ elim d.parent_grant_id [
    | none ↦ []
    | some parent ↦ ancestry rounds (without id rows) parent
  ]
]

-- The loop over the rows of the query.
unfoldable pub all_active : Delegations → ℕ → Bool
unfolding text_eq
all_active [] now = true
all_active ((_, d) ∷ rest) now =
    text_eq d.state (text "ACTIVE") && ltb now d.expires_at && all_active rest now

abbrev pub resource_eq : ResourceRef → ResourceRef → Bool
unfolding text_eq
resource_eq a b =
    text_eq a.resource_type b.resource_type
    && text_eq a.resource_id b.resource_id
    && eq_ℤ a.version b.version

unfoldable pub has_resource : List ResourceRef → ResourceRef → Bool
unfolding text_eq
has_resource [] r = false
has_resource (x ∷ rest) r = resource_eq x r || has_resource rest r

abbrev pub lacks_action : Delegation → Option Text → Bool
unfolding contains
lacks_action d none = false
lacks_action d (some action) = not (contains d.actions action)

abbrev pub lacks_resource : Delegation → Option ResourceRef → Bool
unfolding has_resource
lacks_resource d none = false
lacks_resource d (some resource) = not (has_resource d.resources resource)

-- Who asks.
pub record Actor : Type 0 where
  pub principal_id : Text
  pub issuer : Text

pub record ActiveGrant : Type 0 where
  pub id : Text
  pub actions : List Text
  pub resources : List ResourceRef
  pub expires_at : ℕ
  pub fence : ℕ

abbrev pub is_empty : Delegations → Bool
is_empty [] = true
is_empty (_ ∷ _) = false

-- The tests of the row that was asked for.
unfoldable pub grant_of :
    Delegation → Actor → Text → Option Text → Option ResourceRef → Result ActiveGrant CommandFailure
unfolding text_eq contains has_resource
grant_of d actor id action resource =
    guard
      (text_eq d.creator_id actor.principal_id
        || (text_eq d.principal_id actor.principal_id && text_eq d.issuer actor.issuer))
      (denied (text "GRANT_PRINCIPAL_MISMATCH"))
    >>= λ _.
        guard (not (lacks_action d action || lacks_resource d resource))
          (denied (text "CAPABILITY_DENIED"))
        >>= λ _. ok (record {
          id = id;
          actions = d.actions;
          resources = d.resources;
          expires_at = d.expires_at;
          fence = d.fence;
        })

unfoldable pub require_active_grant :
    Delegations
    → ℕ
    → Actor
    → Text
    → Option Text
    → Option ResourceRef
    → Result ActiveGrant CommandFailure
unfolding ancestry all_active map_get grant_of
require_active_grant delegations now actor id action resource =
    let rows = ancestry (length delegations) delegations id in
    guard (not (is_empty rows)) not_found >>= λ _.
    guard (all_active rows now) (denied (text "GRANT_REVOKED_OR_EXPIRED")) >>= λ _.
    ok_or (map_get id rows) not_found >>= λ d. grant_of d actor id action resource
