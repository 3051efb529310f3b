-- ===== src/Ledger/Settlement.antt =====
-- What a settlement leaves for a later one (platform-plugins/data-postgres/src/budget_ledger.rs).
use masonwing.Prelude.{
  ℕ, ◌≡◌, refl, sym, ap, subst, inl, inr, Bool, true, false, ◌&&◌, Option, none, some, arith, ℤ,
  pos, negsuc, pos_part, leb_ℤ, eq_ℤ, eq_ℤ_iff, map_get, map_get-insert, ok, err, guard, ok_or,
  bind_ok, ok-injective, if◌then◌else◌, Bool-cases, Text, text, text_eq, text_eq_refl,
}
use masonwing.Kernel.Runtime.Failure.{CommandFailure, not_found, conflict, precondition}
use masonwing.Ledger.Tables.{Reservation, CostEvent, Ledger}
use masonwing.Ledger.Accounts.{Accounts, end_holds}
use masonwing.Ledger.Rows.{
  CostProjection, reservation_value, require_cost_transition, next_version, insert_cost_event,
}
use masonwing.Ledger.Operations.{locked_reservation, write, replay, settle_open, settle_budget}

-- The row of a reservation is settled with an amount, and the projection is that of the row.
record HasSettled (l : Ledger) (id : Text) (used : ℤ) (p : CostProjection) : Type 0 where
  r : Reservation
  amount : ℕ
  found : map_get id l.reservations ≡ some r
  settled_state : text_eq r.state (text "SETTLED") ≡ true
  settled_amount : r.settled_microunits ≡ some amount
  same_amount : used ≡ pos amount
  projected : p ≡ reservation_value id r

-- A second settlement of it is a replay.
HasSettled-replays :
    (l : Ledger) (id : Text) (used : ℤ) (p : CostProjection) (again : ℤ) (fingerprint : Option Text)
    → HasSettled l id used p
    → settle_budget l id again fingerprint
      ≡ (if eq_ℤ used again then ok (l, p) else err (conflict (text "SETTLEMENT_CONFLICT")))
unfolding settle_budget locked_reservation replay
HasSettled-replays l id used p again fingerprint h =
    rw (h.found, h.settled_state, h.same_amount, h.projected)
      (ap (λ (o : Option ℕ). replay l id h.r o again) h.settled_amount)

replay-HasSettled :
    (l : Ledger) (id : Text) (r : Reservation) (settled : Option ℕ) (used : ℤ) (after : Ledger)
    (p : CostProjection)
    → map_get id l.reservations ≡ some r
    → text_eq r.state (text "SETTLED") ≡ true
    → r.settled_microunits ≡ settled
    → replay l id r settled used ≡ ok (after, p)
    → HasSettled after id used p
unfolding replay
replay-HasSettled l id r none used after p found state amount h = absurd cc
replay-HasSettled l id r (some n) used after p found state amount h =
    elim (Bool-cases (eq_ℤ (pos n) used)) [
      | inr differs ↦ absurd (cc (rw differs at h))
      | inl same ↦
          let e : (l, reservation_value id r) ≡ (after, p) =
            ok-injective (l, reservation_value id r) (after, p) (rw same at h) in
          record {
            r = r;
            amount = n;
            found =
                subst (λ (x : Ledger). map_get id x.reservations ≡ some r)
                  (ap (λ (x : Ledger × CostProjection). x.0) e) found;
            settled_state = state;
            settled_amount = amount;
            same_amount = sym ((eq_ℤ_iff (pos n) used).0 same);
            projected = sym (ap (λ (x : Ledger × CostProjection). x.1) e);
          }
    ]

write-row :
    (l : Ledger) (accounts : Accounts) (id : Text) (r : Reservation) (e : CostEvent)
    (after : Ledger) (p : CostProjection)
    → write l accounts id r e ≡ ok (after, p)
    → (map_get id after.reservations ≡ some r) × (p ≡ reservation_value id r)
unfolding write
write-row l accounts id r e after p h =
    let (events, inserted, written) = bind_ok (insert_cost_event l.events e) _ (after, p) h in
    let same = ok-injective _ (after, p) written in
    (
      subst (λ (x : Ledger). map_get id x.reservations ≡ some r)
          (ap (λ (x : Ledger × CostProjection). x.0) same)
          (rw (text_eq_refl id) at (map_get-insert id id r l.reservations)),
      sym (ap (λ (x : Ledger × CostProjection). x.1) same),
    )

not_negative :
    (used : ℤ) (bound : ℕ)
    → (leb_ℤ (pos 0) used && leb_ℤ used (pos bound)) ≡ true
    → used ≡ pos (pos_part used)
not_negative (pos n) bound h = refl
not_negative (negsuc n) bound h = ground arith

guard_passed : (b : Bool) (e : CommandFailure) (u : Unit {0}) → guard b e ≡ ok u → b ≡ true
guard_passed true e u h = refl
guard_passed false e u h = absurd cc

settle_open-HasSettled :
    (l : Ledger) (id : Text) (r : Reservation) (used : ℤ) (fingerprint : Option Text)
    (after : Ledger) (p : CostProjection)
    → settle_open l id r used fingerprint ≡ ok (after, p)
    → HasSettled after id used p
unfolding settle_open
settle_open-HasSettled l id r used fingerprint after p h =
    let (_, allowed, h1) =
      bind_ok (require_cost_transition r.state (text "SETTLED")) _ (after, p) h in
    let (u, bounded, h2) =
      bind_ok
        (guard (leb_ℤ (pos 0) used && leb_ℤ used (pos r.upper_bound_microunits))
          (precondition (text "USAGE_EXCEEDS_RESERVATION")))
        _ (after, p) h1 in
    let (accounts, ended, h3) =
      bind_ok (end_holds r.upper_bound_microunits (pos_part used) r.account_keys l.accounts) _
        (after, p) h2 in
    let (version, numbered, h4) = bind_ok (next_version r.version) _ (after, p) h3 in
    let (row, projection) = write-row l accounts id _ _ after p h4 in
    record {
      r = record r {
        state = text "SETTLED";
        settled_microunits = some (pos_part used);
        usage_fingerprint = fingerprint;
        version = version;
      };
      amount = pos_part used;
      found = row;
      settled_state = text_eq_refl (text "SETTLED");
      settled_amount = refl;
      same_amount = not_negative used r.upper_bound_microunits (guard_passed _ _ u bounded);
      projected = projection;
    }

judged-HasSettled :
    (l : Ledger) (id : Text) (r : Reservation) (used : ℤ) (fingerprint : Option Text)
    (after : Ledger) (p : CostProjection) (settled : Bool)
    → map_get id l.reservations ≡ some r
    → text_eq r.state (text "SETTLED") ≡ settled
    → (if settled
        then replay l id r r.settled_microunits used
        else settle_open l id r used fingerprint)
      ≡ ok (after, p)
    → HasSettled after id used p
judged-HasSettled l id r used fingerprint after p true found state h =
    replay-HasSettled l id r r.settled_microunits used after p found state refl h
judged-HasSettled l id r used fingerprint after p false found state h =
    settle_open-HasSettled l id r used fingerprint after p h

found_row : (o : Option Reservation) (r : Reservation) → ok_or o not_found ≡ ok r → o ≡ some r
found_row none r e = absurd cc
found_row (some x) r e = ap some (ok-injective x r e)

settle-HasSettled :
    (l : Ledger) (id : Text) (used : ℤ) (fingerprint : Option Text) (after : Ledger)
    (p : CostProjection)
    → settle_budget l id used fingerprint ≡ ok (after, p)
    → HasSettled after id used p
unfolding settle_budget locked_reservation
settle-HasSettled l id used fingerprint after p h =
    let (r, locked, judged) = bind_ok (locked_reservation l id) _ (after, p) h in
    judged-HasSettled l id r used fingerprint after p (text_eq r.state (text "SETTLED"))
      (found_row (map_get id l.reservations) r locked) refl judged

-- Once a settlement is accepted, the same settlement is answered in the same way and changes nothing,
-- and a settlement with another usage is refused as a conflict.
pub settle_budget_once :
    (l : Ledger) (id : Text) (used : ℤ) (fingerprint : Option Text) (after : Ledger)
    (p : CostProjection)
    → settle_budget l id used fingerprint ≡ ok (after, p)
    → (again : ℤ) (other : Option Text)
    → settle_budget after id again other
      ≡ (if eq_ℤ used again then ok (after, p) else err (conflict (text "SETTLEMENT_CONFLICT")))
settle_budget_once l id used fingerprint after p h again other =
    HasSettled-replays after id used p again other
      (settle-HasSettled l id used fingerprint after p h)
