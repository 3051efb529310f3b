-- ===== src/Sdk/Machine/Laws.antt =====
-- Sequences of transitions over a table of edges (crates/sdk/src/lib.rs).
use masonwing.Prelude.{◌+◌, ◌%◌, ◌^◌, ◌≡◌, true, List, [], ◌∷◌, length, Text}
use masonwing.Sdk.Machine.{TransitionEdge, FiniteStateContract, VersionedContractState, has_edge}

-- A path over declared edges from a state, through the states of the list, to the last one.
abbrev pub IsPath : List TransitionEdge → Text → List Text → Text → Type 0
IsPath edges s [] t = s ≡ t
IsPath edges s (next ∷ rest) t = (has_edge edges s next ≡ true) × IsPath edges next rest t

module _ (contract : FiniteStateContract) where
  -- What a list of attempts did to a state.
  abbrev pub Followed : VersionedContractState → VersionedContractState → Type 0
  Followed v last =
      (path : List Text) × IsPath contract.edges v.state path last.state
      × (last.version ≡ (v.version + length path) % 2 ^ 64)
