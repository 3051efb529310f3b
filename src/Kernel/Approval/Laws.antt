-- ===== src/Kernel/Approval/Laws.antt =====
-- Which dispatches an approval covers (crates/kernel/src/approval.rs).
use masonwing.Prelude.{◌≡◌, ◌≢◌, ◌↔◌, arith, ℤ, ◌≤ℤ◌, ◌<ℤ◌, ok, err, text_eq_iff}
use masonwing.Kernel.Approval.{
  ApprovalBinding, DispatchBinding, approval_stale, approval_expired, validate_dispatch,
}

-- The dispatch that an approval binds.
abbrev pub bound : ApprovalBinding → DispatchBinding
bound a = record {
  action = a.action;
  target = a.target;
  content_digest = a.content_digest;
  target_revision = a.target_revision;
  tenant_scope = a.tenant_scope;
}

-- Exactly one dispatch passes, and only before the expiry; from the expiry on every dispatch is
-- refused as expired, and before it every other dispatch as stale.
pub validate_dispatch_lem :
    (a : ApprovalBinding) (dispatch : DispatchBinding) (now : ℤ)
    → ((validate_dispatch a dispatch now ≡ ok tt) ↔ ((now <ℤ a.expires_at) × (dispatch ≡ bound a)))
      × ((validate_dispatch a dispatch now ≡ err approval_expired) ↔ (a.expires_at ≤ℤ now))
      × ((validate_dispatch a dispatch now ≡ err approval_stale)
          ↔ ((now <ℤ a.expires_at) × (dispatch ≢ bound a)))
unfolding validate_dispatch
validate_dispatch_lem a dispatch now = ground (
  arith,
  text_eq_iff a.action dispatch.action,
  text_eq_iff a.target dispatch.target,
  text_eq_iff a.content_digest dispatch.content_digest,
  text_eq_iff a.tenant_scope dispatch.tenant_scope,
)
