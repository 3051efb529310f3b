-- ===== src/Delegations/Tests.antt =====
-- A grant, one derived from it, and one derived from that.
use masonwing.Prelude.{
  pos, ◌≡◌, refl, Option, none, some, [], ◌∷◌, length, map_get, ok, err, Text, text,
}
use masonwing.Kernel.Runtime.Failure.{denied}
use masonwing.Contracts.Wire.{ResourceRef}
use masonwing.Delegations.{
  Delegation, Delegations, ancestry, Actor, ActiveGrant, require_active_grant,
}
use masonwing.Delegations.Laws.{
  Derives, IsActive, MayUse, Lists, active_grant, require_active_grant-IsActive,
}

abbrev mail : ResourceRef
mail = record { resource_type = text "Mail"; resource_id = text "m1"; version = pos 1 }

abbrev grant : Text → Option Text → Text → Delegation
grant principal parent state = record {
  principal_id = principal;
  principal_type = text "SERVICE";
  issuer = text "issuer";
  creator_id = text "creator";
  actions = text "mail.send" ∷ [];
  resources = mail ∷ [];
  parent_grant_id = parent;
  expires_at = 100;
  state = state;
  version = 1;
  fence = 1;
}

abbrev chain : Text → Delegations
chain root_state =
    (text "g3", grant (text "worker") (some (text "g2")) (text "ACTIVE"))
    ∷ (text "g2", grant (text "agent") (some (text "g1")) (text "ACTIVE"))
    ∷ (text "g1", grant (text "owner") none root_state)
    ∷ []

abbrev worker : Actor
worker = record { principal_id = text "worker"; issuer = text "issuer" }

abbrev active : ActiveGrant
active = record {
  id = text "g3";
  actions = text "mail.send" ∷ [];
  resources = mail ∷ [];
  expires_at = 100;
  fence = 1;
}

worker_granted :
    require_active_grant
      (chain (text "ACTIVE"))
      50
      worker
      (text "g3")
      (some (text "mail.send"))
      (some mail)
    ≡ ok active
unfolding require_active_grant
worker_granted = refl

require_active_grant-IsActive_example :
    ((upper : Text) (d : Delegation)
      → Derives (chain (text "ACTIVE")) (text "g3") upper
      → map_get upper (chain (text "ACTIVE")) ≡ some d
      → IsActive 50 d)
    × ((d : Delegation) × (map_get (text "g3") (chain (text "ACTIVE")) ≡ some d)
        × MayUse worker d
        × Lists (text "mail.send") (some mail) d
        × (active ≡ active_grant (text "g3") d))
require_active_grant-IsActive_example =
    require_active_grant-IsActive (chain (text "ACTIVE")) 50 worker (text "g3") (text "mail.send")
      (some mail) active worker_granted

-- Revoking the root is enough.
revoked_root :
    require_active_grant
      (chain (text "REVOKED"))
      50
      worker
      (text "g3")
      (some (text "mail.send"))
      none
    ≡ err (denied (text "GRANT_REVOKED_OR_EXPIRED"))
unfolding require_active_grant
revoked_root = refl

-- A grant that is above itself ends the query.
cycle_listed :
    length (
      ancestry 1
        ((text "g", grant (text "owner") (some (text "g")) (text "ACTIVE")) ∷ [])
        (text "g"))
    ≡ 1
unfolding ancestry
cycle_listed = refl

other_principal :
    require_active_grant
      (chain (text "ACTIVE"))
      50
      (record { principal_id = text "agent"; issuer = text "issuer" })
      (text "g3")
      (some (text "mail.send"))
      none
    ≡ err (denied (text "GRANT_PRINCIPAL_MISMATCH"))
unfolding require_active_grant
other_principal = refl
