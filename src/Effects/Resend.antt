-- ===== src/Effects/Resend.antt =====
-- Transmissions over sequences of commands
-- (platform-plugins/data-postgres/src/effect_commands.rs).
use masonwing.Prelude.{
  ℕ, ◌≡◌, refl, sym, ap, subst, ◌∙◌, ◌≢◌, inl, inr, Bool, false, some, List, [], ◌∷◌, All, map_get,
  ok, err, contains, Bool-cases, Text, text, text_eq, text_eq_iff,
}
use masonwing.Ledger.Tables.{Ledger}
use masonwing.Effects.Tables.{Effect, Store, Mutation, Answer}
use masonwing.Effects.Dispatch.{dispatchable_states}
use masonwing.Effects.Operations.{Command, perform, stored, perform_all, effect_of}
use masonwing.Effects.Rows.{
  Moves, sent, looked_up, timed_out, succeeded, failed, reauthorized, halted,
}
use masonwing.Effects.Lifecycle.{reauthorizes, perform-IsChange, row_stored, others_kept}

-- The row of the effect, which is not to be sent, and how often it was.
abbrev HasSent : Store → Text → ℕ → Type 0
HasSent s id n =
    (e : Effect) × (map_get id s.effects ≡ some e)
    × (contains dispatchable_states e.state ≡ false)
    × (e.transmit_count ≡ n)

named :
    (state name : Text)
    → state ≡ name
    → contains dispatchable_states name ≡ false
    → contains dispatchable_states state ≡ false
named state name e h = subst (λ (x : Text). contains dispatchable_states x ≡ false) (sym e) h

Moves-unsent :
    (before row : Effect) (l m : Ledger)
    → Moves false before row l m
    → contains dispatchable_states before.state ≡ false
    → (contains dispatchable_states row.state ≡ false)
      × (row.transmit_count ≡ before.transmit_count)
unfolding contains
Moves-unsent before row l m (sent from to count kept) h = absurd (cc (from, h))
Moves-unsent before row l m (looked_up from to count kept) h =
    (named row.state (text "RECONCILING") to refl, count)
Moves-unsent before row l m (timed_out p from to count marked) h =
    (named row.state (text "OUTCOME_UNKNOWN") to refl, count)
Moves-unsent before row l m (succeeded p used from to count settled) h =
    (named row.state (text "SUCCEEDED") to refl, count)
Moves-unsent before row l m (failed p from to count released) h =
    (named row.state (text "FAILED_CONFIRMED") to refl, count)
Moves-unsent before row l m (reauthorized proven from to count kept) h = absurd cc
Moves-unsent before row l m (halted from to count kept) h =
    (named row.state (text "MANUAL_REVIEW") to refl, count)

module _ (id : Text) (n : ℕ) where
  -- The command does not authorise this effect again.
  abbrev pub IsWithoutProof : Command → Type 0
  IsWithoutProof c = effect_of c ≡ id → reauthorizes c ≡ false

  perform-HasSent :
      (s after : Store) (c : Command) (answer : Mutation)
      → perform s c ≡ ok (after, answer)
      → IsWithoutProof c
      → HasSent s id n
      → HasSent after id n
  perform-HasSent s after c answer h without (e, found, unsent, count) =
      let change = perform-IsChange s after c answer h in
      elim (Bool-cases (text_eq (effect_of c) id)) [
        | inr other ↦
            let differs : id ≢ effect_of c =
              λ k. absurd (cc (other, (text_eq_iff (effect_of c) id).1 (sym k))) in
            (e, others_kept s after c answer change id differs ∙ found, unsent, count)
        | inl same ↦
            let this : effect_of c ≡ id = (text_eq_iff (effect_of c) id).0 same in
            let found' : map_get id s.effects ≡ some change.before =
              subst (λ (x : Text). map_get x s.effects ≡ some change.before) this change.found in
            let row_is : change.before ≡ e = cc (found, found') in
            let (still, kept) =
              Moves-unsent change.before change.row s.ledger after.ledger
                (subst (λ (b : Bool). Moves b change.before change.row s.ledger after.ledger)
                  (without this) change.moves)
                (subst (λ (x : Effect). contains dispatchable_states x.state ≡ false) (sym row_is)
                  unsent) in
            (
              change.row,
              subst (λ (x : Text). map_get x after.effects ≡ some change.row) this
                  (row_stored s after c answer change),
              still,
              kept ∙ ap (λ (x : Effect). x.transmit_count) row_is ∙ count,
            )
      ]

  answered-HasSent :
      (s : Store) (c : Command) (r : Answer)
      → perform s c ≡ r
      → IsWithoutProof c
      → HasSent s id n
      → HasSent (stored s r) id n
  answered-HasSent s c (ok (after, answer)) h without sent_before =
      perform-HasSent s after c answer h without sent_before
  answered-HasSent s c (err failure) h without sent_before = sent_before

  perform_all-HasSent :
      (s : Store) (cs : List Command)
      → All IsWithoutProof cs
      → HasSent s id n
      → HasSent (perform_all s cs) id n
  unfolding perform_all
  perform_all-HasSent s [] h sent_before = sent_before
  perform_all-HasSent s (c ∷ rest) (without, h) sent_before =
      perform_all-HasSent (stored s (perform s c)) rest h
        (answered-HasSent s c (perform s c) refl without sent_before)

-- Whatever commands are performed on the effects of a tenant, one that is not prepared or authorised
-- is not sent as long as no reconciliation of it proves that nothing was done.
pub perform_all_transmissions :
    (s : Store) (id : Text) (e : Effect) (cs : List Command)
    → map_get id s.effects ≡ some e
    → contains dispatchable_states e.state ≡ false
    → All (IsWithoutProof id e.transmit_count) cs
    → (row : Effect) × (map_get id (perform_all s cs).effects ≡ some row)
      × (row.transmit_count ≡ e.transmit_count)
perform_all_transmissions s id e cs found unsent without =
    let (row, there, _, count) =
      perform_all-HasSent id e.transmit_count s cs without (e, found, unsent, refl) in
    (row, there, count)
