-- ===== src/Kernel/Scope.antt =====
-- crates/kernel/src/scope.rs: the tenant check of a resource.
use masonwing.Prelude.{not, Result, ok, err, if◌then◌else◌, Text, text_eq}

pub record ScopedResource : Type 0 where
  pub tenant_id : Text
  pub resource_id : Text

pub data TenantScopeError : Type 0 where
  tenant_context_mismatch : TenantScopeError

unfoldable pub require_tenant_scope : Text → ScopedResource → Result (Unit {0}) TenantScopeError
require_tenant_scope authenticated_tenant resource =
    if not (text_eq authenticated_tenant resource.tenant_id)
    then err tenant_context_mismatch
    else ok tt
