-- ===== src/Kernel/Grants.antt =====
-- crates/kernel/src/grants.rs: delegated authority of a run. Identifiers are their text, an instant
-- is a signed number of milliseconds, and a `BTreeSet` is a list read through membership alone.
pub mod Laws
use masonwing.Prelude.{
  Text, text_eq, ℤ, ltb_ℤ, leb_ℤ, Bool, not, ◌||◌, Option, none, some, List, [], ◌∷◌, contains,
  is_subset, Result, ok, err, ◌>>=◌, if◌then◌else◌,
}

pub record RunGrant : Type 0 where
  pub id : Text
  pub tenant_id : Text
  pub principal_id : Text
  pub parent_id : Option Text
  pub actions : List Text
  pub resources : List Text
  pub expires_at : ℤ

pub record ChildGrantRequest : Type 0 where
  pub id : Text
  pub tenant_id : Text
  pub principal_id : Text
  pub actions : List Text
  pub resources : List Text
  pub expires_at : ℤ

pub data GrantError : Type 0 where
  delegation_denied delegation_expired : GrantError

unfoldable pub new_root : Text → Text → Text → List Text → List Text → ℤ → RunGrant
new_root id tenant_id principal_id actions resources expires_at = record {
  id = id;
  tenant_id = tenant_id;
  principal_id = principal_id;
  parent_id = none;
  actions = actions;
  resources = resources;
  expires_at = expires_at;
}

unfoldable pub derive_child : RunGrant → ChildGrantRequest → Result RunGrant GrantError
derive_child g request =
    if not (text_eq request.tenant_id g.tenant_id)
      || ltb_ℤ g.expires_at request.expires_at
      || not (is_subset request.actions g.actions)
      || not (is_subset request.resources g.resources)
    then err delegation_denied
    else ok (record {
      id = request.id;
      tenant_id = request.tenant_id;
      principal_id = request.principal_id;
      parent_id = some g.id;
      actions = request.actions;
      resources = request.resources;
      expires_at = request.expires_at;
    })

unfoldable pub authorize : RunGrant → Text → Text → ℤ → Result (Unit {0}) GrantError
authorize g action resource now =
    if leb_ℤ g.expires_at now
    then err delegation_expired
    else if not (contains g.actions action) || not (contains g.resources resource)
    then err delegation_denied
    else ok tt

-- A chain of delegations: each request is made of the grant that the one before it gave.
unfoldable pub derive_chain : RunGrant → List ChildGrantRequest → Result RunGrant GrantError
derive_chain g [] = ok g
derive_chain g (request ∷ rest) = derive_child g request >>= λ child. derive_chain child rest
