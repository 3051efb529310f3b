-- ===== src/Effects/Requests/Covered.antt =====
-- Reservations over sequences of all operations on effects
-- (platform-plugins/data-postgres/src/effect_commands.rs, budget_ledger.rs).
use masonwing.Prelude.{
  ◌≡◌, refl, sym, subst, ◌∙◌, Bool, true, false, not, Option, none, some, List, [], ◌∷◌, ◌++◌, pos,
  map_get, ok, err, ok_or, bind_ok, guard_passes, contains, Text, text,
}
use masonwing.Contracts.Wire.{ResourceRef}
use masonwing.Kernel.Runtime.Failure.{invalid, not_found, precondition}
use masonwing.Ledger.Tables.{Ledger}
use masonwing.Ledger.Rows.{CostProjection, ReserveCall}
use masonwing.Ledger.Operations.{reserve_budget}
use masonwing.Effects.Tables.{Effect, Store, Mutation, Answer}
use masonwing.Effects.Operations.{stored}
use masonwing.Effects.Admission.{
  Proposal, Compensation, check_separate, completed_states, is_name, is_reused, usd_call, bound_of,
  prepared_effect, compensating, find_by_key, insert_effect, propose_at, compensate_effect,
}
use masonwing.Effects.Idempotency.{propose_effect-parts, propose_at-replay}
use masonwing.Effects.Reservations.{HasWritten}
use masonwing.Effects.Covered.{IsCovered, AllCovered, authorized-IsCovered}
use masonwing.Effects.Invariant.{answered-AllCovered}
use masonwing.Effects.Requests.{
  Request, do_propose, do_compensate, do_command, request, request_all,
}
use masonwing.Effects.Requests.Reserving.{reserve_budget-HasReserved, insert_effect-parts}
use masonwing.Effects.Requests.Added.{added-AllCovered}

prepared-IsCovered : IsCovered (text "PREPARED") (text "RESERVED")
unfolding contains
prepared-IsCovered = record {
  before_outcome = λ _. refl;
  unknown_outcome = λ k. absurd cc;
  success = λ k. absurd cc;
  failure = λ k. absurd cc;
}

module _ (s after : Store) (answer : Mutation) (inv : AllCovered s) where
  -- What follows the guards of a proposal and of a compensation.
  insert-AllCovered :
      (call : ReserveCall) (m : Ledger) (p : CostProjection) (id : Text) (e : Effect) (label : Text)
      (accepted : Bool)
      → e.reservation_id ≡ p.reservation_id
      → IsCovered e.state (text "RESERVED")
      → reserve_budget s.ledger call ≡ ok (m, p)
      → insert_effect (record s { ledger = m }) id e label accepted ≡ ok (after, answer)
      → AllCovered after
  insert-AllCovered call m p id e label accepted named fits reserved h =
      let w = reserve_budget-HasReserved s.ledger m call p reserved in
      let own : call.id ≡ e.reservation_id = sym w.answered ∙ sym named in
      let (unused, rows, ledger) =
        insert_effect-parts (record s { ledger = m }) after id e label accepted answer h in
      added-AllCovered s m id e unused
        (subst (λ (x : Text). map_get x s.ledger.reservations ≡ none) own w.was_absent)
        (subst (λ (x : Text). HasWritten s.ledger m x (text "RESERVED")) own w.made) fits inv after
        rows ledger

  propose_at-AllCovered :
      (p : Proposal) (run_id fingerprint : Text) (o : Option (Text × Effect))
      → propose_at s p run_id fingerprint o ≡ ok (after, answer)
      → AllCovered after
  unfolding propose_at
  propose_at-AllCovered p run_id fingerprint (some (id, e)) h =
      subst AllCovered (sym (propose_at-replay s after p run_id fingerprint id e answer h).0) inv
  propose_at-AllCovered p run_id fingerprint none h =
      let call =
        usd_call p.new_reservation_id run_id (text "effect-" ++ p.idempotency_key)
          (bound_of p.price_profile) p.price_profile in
      let (l, reserved, h1) = bind_ok (reserve_budget s.ledger call) _ (after, answer) h in
      insert-AllCovered call (l.0) (l.1) p.new_id
        (prepared_effect p run_id fingerprint (l.1.reservation_id)) (text "propose effect") true
        refl prepared-IsCovered reserved h1

module _ (fingerprint_of : Text → ResourceRef → Text → Option Text) where
  compensate_effect-AllCovered :
      (s after : Store) (c : Compensation) (answer : Mutation)
      → compensate_effect fingerprint_of s c ≡ ok (after, answer)
      → AllCovered s
      → AllCovered after
  unfolding compensate_effect contains
  compensate_effect-AllCovered s after c answer h inv =
      let (e, _, h1) =
        bind_ok (ok_or (map_get c.original_effect_id s.effects) not_found) _ (after, answer) h in
      let (_, h2) =
        guard_passes (contains completed_states e.state)
          (precondition (text "EFFECT_NOT_COMPLETED")) _ (after, answer) h1 in
      let (_, h3) =
        guard_passes (not (is_name e.approval_id c.approval_id))
          (precondition (text "SEPARATE_APPROVAL_REQUIRED")) _ (after, answer) h2 in
      let (_, _, h4) =
        bind_ok (check_separate (map_get c.approval_id s.approvals)) _ (after, answer) h3 in
      let (_, h5) =
        guard_passes (not (is_reused s.effects c.original_effect_id c.approval_id))
          (precondition (text "APPROVAL_ALREADY_USED")) _ (after, answer) h4 in
      let action = e.action ++ text ".compensate" in
      let (fingerprint, _, h6) =
        bind_ok
          (ok_or (fingerprint_of action e.target c.compensation_ref.digest)
            (invalid (text "SCHEMA_INVALID")))
          _ (after, answer) h5 in
      let call =
        usd_call c.new_reservation_id e.run_id (text "compensate-" ++ c.new_id) (pos 20)
          (text "1.0.0") in
      let (l, reserved, h7) = bind_ok (reserve_budget s.ledger call) _ (after, answer) h6 in
      insert-AllCovered s after answer inv call (l.0) (l.1) c.new_id
        (compensating e c action fingerprint (l.1.reservation_id)) (text "compensate effect") false
        refl (authorized-IsCovered (text "RESERVED") refl) reserved h7

  requested-AllCovered :
      (s : Store) (r : Request) (a : Answer)
      → request fingerprint_of s r ≡ a
      → AllCovered s
      → AllCovered (stored s a)
  unfolding request
  requested-AllCovered s r (err failure) h inv = inv
  requested-AllCovered s (do_propose now p) (ok (after, answer)) h inv =
      let (run_id, fingerprint, made) =
        propose_effect-parts fingerprint_of s after now p answer h in
      propose_at-AllCovered s after answer inv p run_id fingerprint
        (find_by_key s.effects p.connection_id p.idempotency_key) made
  requested-AllCovered s (do_compensate c) (ok (after, answer)) h inv =
      compensate_effect-AllCovered s after c answer h inv
  requested-AllCovered s (do_command c) (ok (after, answer)) h inv =
      answered-AllCovered s c (ok (after, answer)) h inv

  -- When every effect has a reservation of its own whose state fits, then so it is after any sequence
  -- of proposals, compensations and commands on effects, accepted or refused. A state fits that is
  -- held or of unknown cost before the outcome of the effect is known, of unknown cost while the
  -- outcome is unknown, settled after a success, and released after a confirmed failure.
  pub request_all-AllCovered :
      (s : Store) (rs : List Request) → AllCovered s → AllCovered (request_all fingerprint_of s rs)
  unfolding request_all
  request_all-AllCovered s [] inv = inv
  request_all-AllCovered s (r ∷ rest) inv =
      request_all-AllCovered (stored s (request fingerprint_of s r)) rest
        (requested-AllCovered s r (request fingerprint_of s r) refl inv)
