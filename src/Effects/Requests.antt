-- ===== src/Effects/Requests.antt =====
-- platform-plugins/data-postgres/src/effect_commands.rs: sequences of all seven operations on effects,
-- those that make an effect among them. The digest of the canonical JSON of action, target and content
-- is made by libraries and is a parameter.
pub mod Reserving
pub mod Added
pub mod Covered
use masonwing.Prelude.{ℕ, Option, List, [], ◌∷◌, Text}
use masonwing.Contracts.Wire.{ResourceRef}
use masonwing.Effects.Tables.{Store, Answer}
use masonwing.Effects.Admission.{Proposal, Compensation, propose_effect, compensate_effect}
use masonwing.Effects.Operations.{Command, perform, stored}

pub data Request : Type 0 where
  do_propose : (now : ℕ) (p : Proposal) → Request
  do_compensate : (c : Compensation) → Request
  do_command : (c : Command) → Request

module _ (fingerprint_of : Text → ResourceRef → Text → Option Text) where
  unfoldable pub request : Store → Request → Answer
  unfolding propose_effect compensate_effect perform
  request s (do_propose now p) = propose_effect fingerprint_of s now p
  request s (do_compensate c) = compensate_effect fingerprint_of s c
  request s (do_command c) = perform s c

  unfoldable pub request_all : Store → List Request → Store
  unfolding request
  request_all s [] = s
  request_all s (r ∷ rest) = request_all (stored s (request s r)) rest
