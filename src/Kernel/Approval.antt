-- ===== src/Kernel/Approval.antt =====
-- crates/kernel/src/approval.rs: an approval bound to the exact content of one dispatch.
pub mod Laws
use masonwing.Prelude.{
  ℕ, zero, suc, ◌+◌, ◌-◌, ◌*◌, ◌/◌, ◌%◌, ◌^◌, ◌≤◌, ◌<◌, String, ◌≡◌, refl, sym, ap, ap₂, subst, ◌∙◌,
  ◌≢◌, ◌↔◌, ◌⊎◌, inl, inr, Bool, true, false, not, ◌&&◌, ◌||◌, Option, none, some, List, [], ◌∷◌,
  ◌++◌, map, append_assoc, append-nil, arith, ℕ_discrete, ℤ, pos, negsuc, pos_part, neg_part, ltb_ℤ,
  leb_ℤ, ◌≤ℤ◌, ◌<ℤ◌, length, drop, length-append, Result, ok, err, ◌>>=◌, ◌>>◌, guard, ok_or,
  contains, is_subset, contains_subset, is_subset_iff, ltb, leb, ◌==◌, if◌then◌else◌, ==_iff,
  Bool-cases, Option-cases, Text, text, text_eq, text_eq_iff, text_eq_refl,
}

-- `target_revision` is a u64 that is only compared.
pub record ApprovalBinding : Type 0 where
  pub action : Text
  pub target : Text
  pub content_digest : Text
  pub target_revision : ℕ
  pub tenant_scope : Text
  pub actor : Text
  pub expires_at : ℤ

pub record DispatchBinding : Type 0 where
  pub action : Text
  pub target : Text
  pub content_digest : Text
  pub target_revision : ℕ
  pub tenant_scope : Text

pub data ApprovalError : Type 0 where
  approval_stale approval_expired : ApprovalError

unfoldable pub validate_dispatch :
    ApprovalBinding → DispatchBinding → ℤ → Result (Unit {0}) ApprovalError
validate_dispatch a dispatch now =
    if leb_ℤ a.expires_at now
    then err approval_expired
    else if not (text_eq a.action dispatch.action)
        || not (text_eq a.target dispatch.target)
        || not (text_eq a.content_digest dispatch.content_digest)
        || not (a.target_revision == dispatch.target_revision)
        || not (text_eq a.tenant_scope dispatch.tenant_scope)
    then err approval_stale
    else ok tt
