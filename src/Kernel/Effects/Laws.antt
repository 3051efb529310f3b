-- ===== src/Kernel/Effects/Laws.antt =====
-- What calls do to an effect and to the count of its transmissions (crates/kernel/src/effects.rs).
use masonwing.Prelude.{
  ℕ, ◌+◌, ◌%◌, ◌^◌, true, List, [], ◌∷◌, ok, err, ◌≡◌, refl, ◌≢◌, ◌↔◌, ◌∙◌, arith,
}
use masonwing.Kernel.State.Machines.{
  EffectState, authorized, outcome_unknown, reconciling, effect_edge,
}
use masonwing.Kernel.Effects.{
  EffectRecord, EffectError, Outcome, new_authorized, proven_absent_and_reauthorized, Call, decide,
  call, calls,
}

-- An accepted call follows an edge of the effect machine.
call_edge :
    (r : EffectRecord) (c : Call)
    → (call r c).1 ≡ ok tt
    → effect_edge r.state (call r c).0.state ≡ true
unfolding call effect_edge
call_edge r c h = ground arith

call_error :
    (r : EffectRecord) (c : Call) (e : EffectError) → (call r c).1 ≡ err e → (call r c).0 ≡ r
unfolding call
call_error r c e h = ground arith

-- Reconciliation is queued exactly while the outcome is unknown.
abbrev pub IsQueued : EffectRecord → Type 0
IsQueued r = (r.reconciliation_queued ≡ true) ↔ (r.state ≡ outcome_unknown)

call-IsQueued : (r : EffectRecord) (c : Call) → IsQueued r → IsQueued (call r c).0
unfolding call
call-IsQueued r c v = ground arith

-- An authorisation that waits to be used.
abbrev pub waiting : EffectState → ℕ
waiting authorized = 1
waiting _ = 0

-- A call that turns a reconciled effect back into an authorised one.
abbrev pub reauthorizes : EffectState → Call → ℕ
reauthorizes reconciling (decide proven_absent_and_reauthorized) = 1
reauthorizes _ _ = 0

-- How many of the calls do so, each from the record that those before it leave.
unfoldable pub reauthorizations : EffectRecord → List Call → ℕ
reauthorizations r [] = 0
reauthorizations r (c ∷ rest) = reauthorizes r.state c + reauthorizations (call r c).0 rest

call_count :
    (r : EffectRecord) (c : Call)
    → ((call r c).0.transmit_count + waiting (call r c).0.state) % 2 ^ 32
      ≡ (r.transmit_count + waiting r.state + reauthorizes r.state c) % 2 ^ 32
unfolding call
call_count r c = ground arith

-- What a call does to a record.
pub record CallLaws (r : EffectRecord) (o : Outcome) : Type 0 where
  pub accepted_edge : o.1 ≡ ok tt → effect_edge r.state o.0.state ≡ true
  pub error_unchanged : (e : EffectError) → o.1 ≡ err e → o.0 ≡ r
  pub queued : IsQueued o.0

-- On a record whose reconciliation is queued exactly while the outcome is unknown, an accepted call
-- follows an edge of the effect machine, a refused one changes nothing, and the queue stays so.
pub effect-CallLaws : (r : EffectRecord) (c : Call) → IsQueued r → CallLaws r (call r c)
effect-CallLaws r c v = record {
  accepted_edge = call_edge r c;
  error_unchanged = call_error r c;
  queued = call-IsQueued r c v;
}

count_from :
    (r : EffectRecord) (cs : List Call)
    → ((calls r cs).transmit_count + waiting (calls r cs).state) % 2 ^ 32
      ≡ (r.transmit_count + waiting r.state + reauthorizations r cs) % 2 ^ 32
unfolding calls reauthorizations
count_from r [] = omega arith
count_from r (c ∷ rest) = omega (arith, call_count r c, count_from (call r c).0 rest)

-- The transmissions of an effect, with the one that may still be waiting, are its first
-- authorisation and those that a proof of absence gave it, modulo the width of a u32.
pub transmissions_authorized :
    (cs : List Call)
    → let r = calls new_authorized cs in
      (r.transmit_count + waiting r.state) % 2 ^ 32
      ≡ (1 + reauthorizations new_authorized cs) % 2 ^ 32
transmissions_authorized cs = unfold new_authorized in count_from new_authorized cs

call_unauthorized :
    (r : EffectRecord) (c : Call)
    → waiting r.state ≡ 0
    → reauthorizes r.state c ≡ 0
    → (waiting (call r c).0.state ≡ 0) × ((call r c).0.transmit_count ≡ r.transmit_count)
unfolding call
call_unauthorized r c h n = ground arith

not_waiting : (s : EffectState) → (s ≢ authorized) ↔ (waiting s ≡ 0)
not_waiting s = ground arith

unsent :
    (r : EffectRecord) (cs : List Call)
    → waiting r.state ≡ 0
    → reauthorizations r cs ≡ 0
    → (waiting (calls r cs).state ≡ 0) × ((calls r cs).transmit_count ≡ r.transmit_count)
unfolding calls reauthorizations
unsent r [] h n = (h, refl)
unsent r (c ∷ rest) h n =
    let (still, same) = call_unauthorized r c h (omega arith) in
    let (later, kept) = unsent (call r c).0 rest still (omega arith) in (later, kept ∙ same)

-- An effect that is not authorised is never sent by calls that prove no absence: its count of
-- transmissions stays, and so does that it is not authorised.
pub no_blind_resend :
    (r : EffectRecord) (cs : List Call)
    → r.state ≢ authorized
    → reauthorizations r cs ≡ 0
    → ((calls r cs).transmit_count ≡ r.transmit_count) × ((calls r cs).state ≢ authorized)
no_blind_resend r cs h n =
    let (later, kept) = unsent r cs ((not_waiting r.state).0 h) n in
    (kept, (not_waiting (calls r cs).state).1 later)
