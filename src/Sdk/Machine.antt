-- ===== src/Sdk/Machine.antt =====
-- crates/sdk/src/lib.rs: `FiniteStateContract`, transitions over a table of edges.
pub mod Laws
use masonwing.Prelude.{
  ℕ, zero, suc, ◌+◌, ◌-◌, ◌*◌, ◌/◌, ◌%◌, ◌^◌, ◌≤◌, ◌<◌, String, ◌≡◌, refl, sym, ap, ap₂, subst, ◌∙◌,
  ◌≢◌, ◌↔◌, ◌⊎◌, inl, inr, Bool, true, false, not, ◌&&◌, ◌||◌, Option, none, some, List, [], ◌∷◌,
  ◌++◌, map, append_assoc, append-nil, arith, ℕ_discrete, dec_le, ℤ, pos, negsuc, pos_part,
  neg_part, ltb_ℤ, leb_ℤ, ◌≤ℤ◌, ◌<ℤ◌, eq_ℤ, suc_ℤ, suc_ℤ_parts, eq_ℤ_iff, length, drop,
  length-append, map_insert, map_get, map_get-insert, Result, ok, err, ◌>>=◌, ◌>>◌, guard, ok_or,
  contains, is_subset, contains_subset, is_subset_iff, contains-append, contains-singleton,
  is_subset_mono, contains-head, contains-tail, ltb, leb, ◌==◌, if◌then◌else◌, ==_iff, Bool-cases,
  Option-cases, Text, text, text_eq, text_eq_iff, text_eq_refl,
}

pub record TransitionEdge : Type 0 where
  pub from : Text
  pub to : Text

pub record FiniteStateContract : Type 0 where
  pub edges : List TransitionEdge

-- The version is a u64, whose `+= 1` wraps in a release build.
pub record VersionedContractState : Type 0 where
  pub state : Text
  pub version : ℕ

pub data ContractStateError : Type 0 where
  illegal_transition : ContractStateError

unfoldable pub new_state : Text → VersionedContractState
new_state state = record { state = state; version = 1 }

unfoldable pub has_edge : List TransitionEdge → Text → Text → Bool
unfolding text_eq
has_edge [] from to = false
has_edge (e ∷ rest) from to = (text_eq e.from from && text_eq e.to to) || has_edge rest from to

unfoldable pub transition :
    FiniteStateContract
    → VersionedContractState
    → Text
    → VersionedContractState × Result (Unit {0}) ContractStateError
unfolding has_edge
transition contract v target =
    if not (has_edge contract.edges v.state target)
    then (v, err illegal_transition)
    else (record { state = target; version = (v.version + 1) % 2 ^ 64 }, ok tt)

-- A caller that asks for one target after another.
unfoldable pub transition_all :
    FiniteStateContract → VersionedContractState → List Text → VersionedContractState
transition_all contract v [] = v
transition_all contract v (target ∷ rest) =
    transition_all contract (transition contract v target).0 rest
