-- ===== src/Kernel/Grants/Laws.antt =====
-- What delegation does to authority (crates/kernel/src/grants.rs).
use masonwing.Prelude.{
  ◌≡◌, ◌∙◌, ◌↔◌, ◌⊎◌, inl, inr, true, some, List, [], ◌∷◌, arith, ℤ, ◌≤ℤ◌, ◌<ℤ◌, ok, err, contains,
  is_subset, contains_subset, Text, text_eq_iff,
}
use masonwing.Kernel.Grants.{
  RunGrant, ChildGrantRequest, delegation_denied, derive_child, authorize, derive_chain,
}

-- When a request may be granted: same tenant, no later expiry, no further action or resource.
pub record Narrows (g : RunGrant) (request : ChildGrantRequest) : Type 0 where
  pub tenant : request.tenant_id ≡ g.tenant_id
  pub expiry : request.expires_at ≤ℤ g.expires_at
  pub actions : is_subset request.actions g.actions ≡ true
  pub resources : is_subset request.resources g.resources ≡ true

derive-Narrows :
    (g : RunGrant) (request : ChildGrantRequest) (child : RunGrant)
    → derive_child g request ≡ ok child
    → Narrows g request
unfolding derive_child
derive-Narrows g request child h = ground (arith, text_eq_iff request.tenant_id g.tenant_id)

-- The child that a request describes.
abbrev pub child_of : RunGrant → ChildGrantRequest → RunGrant
child_of g request = record {
  id = request.id;
  tenant_id = request.tenant_id;
  principal_id = request.principal_id;
  parent_id = some g.id;
  actions = request.actions;
  resources = request.resources;
  expires_at = request.expires_at;
}

Narrows-derive :
    (g : RunGrant) (request : ChildGrantRequest)
    → Narrows g request
    → derive_child g request ≡ ok (child_of g request)
unfolding derive_child
Narrows-derive g request n = ground (arith, text_eq_iff request.tenant_id g.tenant_id)

derive_result :
    (g : RunGrant) (request : ChildGrantRequest)
    → (derive_child g request ≡ ok (child_of g request))
      ⊎ (derive_child g request ≡ err delegation_denied)
unfolding derive_child
derive_result g request = ground arith

-- A request is granted exactly when it narrows the grant, as the child that it describes, and is
-- otherwise denied.
pub derive_child_lem :
    (g : RunGrant) (request : ChildGrantRequest)
    → ((derive_child g request ≡ ok (child_of g request)) ↔ Narrows g request)
      × ((derive_child g request ≡ err delegation_denied) ↔ (¬ Narrows g request))
derive_child_lem g request = elim (derive_result g request) [
  | inl granted ↦ (
    (derive-Narrows g request _, Narrows-derive g request),
    (λ denied. cc, λ wide. absurd (wide (derive-Narrows g request _ granted))),
  )
  | inr denied ↦ (
    (derive-Narrows g request _, Narrows-derive g request),
    (λ _ n. cc (Narrows-derive g request n), λ _. denied),
  )
]

-- What a grant allows, written without the order of the tests.
pub record Allows (g : RunGrant) (action resource : Text) (now : ℤ) : Type 0 where
  pub live : now <ℤ g.expires_at
  pub action_held : contains g.actions action ≡ true
  pub resource_held : contains g.resources resource ≡ true

pub authorize_iff :
    (g : RunGrant) (action resource : Text) (now : ℤ)
    → (authorize g action resource now ≡ ok tt) ↔ Allows g action resource now
unfolding authorize
authorize_iff g action resource now = ground arith

module _ (action resource : Text) (now : ℤ) where
  derive_attenuates :
      (g : RunGrant) (request : ChildGrantRequest) (child : RunGrant)
      → derive_child g request ≡ ok child
      → Allows child action resource now
      → Allows g action resource now
  unfolding derive_child
  derive_attenuates g request child h a = ground (
    arith,
    derive-Narrows g request child h,
    contains_subset request.actions g.actions action,
    contains_subset request.resources g.resources resource,
  )

  chain_attenuates :
      (g : RunGrant) (requests : List ChildGrantRequest) (last : RunGrant)
      → derive_chain g requests ≡ ok last
      → Allows last action resource now
      → Allows g action resource now
  unfolding derive_chain
  chain_attenuates g [] last h a = ground arith
  chain_attenuates g (request ∷ rest) last h a = elim (derive_result g request) [
    | inl granted ↦
        derive_attenuates g request (child_of g request) granted
          (chain_attenuates (child_of g request) rest last (rw granted at h) a)
    | inr denied ↦ cc (rw denied at h)
  ]

chain_tenant :
    (g : RunGrant) (requests : List ChildGrantRequest) (last : RunGrant)
    → derive_chain g requests ≡ ok last
    → last.tenant_id ≡ g.tenant_id
unfolding derive_chain
chain_tenant g [] last h = ground arith
chain_tenant g (request ∷ rest) last h = elim (derive_result g request) [
  | inl granted ↦
      chain_tenant (child_of g request) rest last (rw granted at h)
      ∙ (derive-Narrows g request _ granted).tenant
  | inr denied ↦ cc (rw denied at h)
]

-- Down any chain of delegations the tenant stays, and whatever the last grant authorises at an
-- instant, the first authorises at that instant too.
pub delegation_narrows :
    (g : RunGrant) (requests : List ChildGrantRequest) (last : RunGrant)
    → derive_chain g requests ≡ ok last
    → (last.tenant_id ≡ g.tenant_id)
      × ((action resource : Text) (now : ℤ)
          → authorize last action resource now ≡ ok tt
          → authorize g action resource now ≡ ok tt)
delegation_narrows g requests last h = (
  chain_tenant g requests last h,
  λ action resource now allowed. (authorize_iff g action resource now).1 (
      chain_attenuates action resource now g requests last h
        ((authorize_iff last action resource now).0 allowed)),
)
