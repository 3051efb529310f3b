-- ===== src/Effects/Reservations.antt =====
-- What an operation of the ledger leaves of its reservation
-- (platform-plugins/data-postgres/src/budget_ledger.rs).
use masonwing.Prelude.{
  ℕ, ◌≡◌, refl, sym, ap, subst, ◌∙◌, inl, inr, ◌&&◌, Option, none, some, ℤ, pos, pos_part, leb_ℤ,
  eq_ℤ, map_get, map_get-insert, ok, guard, bind_ok, ok-injective, if◌then◌else◌, Bool-cases,
  Option-cases, Text, text, text_eq, text_eq_iff,
}
use masonwing.Kernel.Runtime.Failure.{precondition}
use masonwing.Ledger.Tables.{Reservation, CostEvent, Ledger}
use masonwing.Ledger.Accounts.{Accounts, end_holds}
use masonwing.Ledger.Rows.{CostProjection, require_cost_transition, next_version, insert_cost_event}
use masonwing.Ledger.Operations.{
  locked_reservation, write, replay, settle_open, settle_budget, mark_cost_unknown, release_budget,
}

-- The reservation stands in the given state, and every other one is as it was.
pub record HasWritten (l m : Ledger) (id state : Text) : Type 0 where
  pub row : Reservation
  pub in_state : row.state ≡ state
  pub at :
      (x : Text)
      → map_get x m.reservations ≡ (if text_eq id x then some row else map_get x l.reservations)

write-HasWritten :
    (l m : Ledger) (accounts : Accounts) (id : Text) (r : Reservation) (e : CostEvent)
    (p : CostProjection)
    → write l accounts id r e ≡ ok (m, p)
    → HasWritten l m id r.state
unfolding write
write-HasWritten l m accounts id r e p h =
    let (events, _, h1) = bind_ok (insert_cost_event l.events e) _ (m, p) h in
    let same = ok-injective _ (m, p) h1 in
    record {
      row = r;
      in_state = refl;
      at = λ x.
          sym (ap (λ (y : Ledger × CostProjection). map_get x y.0.reservations) same)
          ∙ map_get-insert id x r l.reservations;
    }

locked_reservation-found :
    (l : Ledger) (id : Text) (r : Reservation)
    → locked_reservation l id ≡ ok r
    → map_get id l.reservations ≡ some r
unfolding locked_reservation
locked_reservation-found l id r h = elim (Option-cases (map_get id l.reservations)) [
  | inl missing ↦ absurd (cc (rw missing at h))
  | inr (x, found) ↦ found ∙ ap some (ok-injective x r (rw found at h))
]

module _ (l m : Ledger) (id : Text) (p : CostProjection) where
  pub mark_cost_unknown-HasWritten :
      mark_cost_unknown l id ≡ ok (m, p) → HasWritten l m id (text "UNKNOWN")
  unfolding mark_cost_unknown
  mark_cost_unknown-HasWritten h =
      let (r, _, h1) = bind_ok (locked_reservation l id) _ (m, p) h in
      let (_, _, h2) = bind_ok (require_cost_transition r.state (text "UNKNOWN")) _ (m, p) h1 in
      let (version, _, h3) = bind_ok (next_version r.version) _ (m, p) h2 in
      write-HasWritten l m l.accounts id _ _ p h3

  pub release_budget-HasWritten :
      release_budget l id ≡ ok (m, p) → HasWritten l m id (text "RELEASED")
  unfolding release_budget
  release_budget-HasWritten h =
      let (r, _, h1) = bind_ok (locked_reservation l id) _ (m, p) h in
      let (_, _, h2) = bind_ok (require_cost_transition r.state (text "RELEASED")) _ (m, p) h1 in
      let (accounts, _, h3) =
        bind_ok (end_holds r.upper_bound_microunits 0 r.account_keys l.accounts) _ (m, p) h2 in
      let (version, _, h4) = bind_ok (next_version r.version) _ (m, p) h3 in
      write-HasWritten l m accounts id _ _ p h4

  settle_open-HasWritten :
      (r : Reservation) (used : ℤ) (fingerprint : Option Text)
      → settle_open l id r used fingerprint ≡ ok (m, p)
      → HasWritten l m id (text "SETTLED")
  unfolding settle_open
  settle_open-HasWritten r used fingerprint h =
      let (_, _, h1) = bind_ok (require_cost_transition r.state (text "SETTLED")) _ (m, p) h in
      let (_, _, h2) =
        bind_ok
          (guard (leb_ℤ (pos 0) used && leb_ℤ used (pos r.upper_bound_microunits))
            (precondition (text "USAGE_EXCEEDS_RESERVATION")))
          _ (m, p) h1 in
      let (accounts, _, h3) =
        bind_ok (end_holds r.upper_bound_microunits (pos_part used) r.account_keys l.accounts) _
          (m, p) h2 in
      let (version, _, h4) = bind_ok (next_version r.version) _ (m, p) h3 in
      write-HasWritten l m accounts id _ _ p h4

  replay-same :
      (r : Reservation) (settled : Option ℕ) (used : ℤ)
      → replay l id r settled used ≡ ok (m, p)
      → m ≡ l
  unfolding replay
  replay-same r none used h = absurd cc
  replay-same r (some n) used h = elim (Bool-cases (eq_ℤ (pos n) used)) [
    | inl same ↦
        sym (ap (λ (y : Ledger × CostProjection). y.0) (ok-injective _ (m, p) (rw same at h)))
    | inr differs ↦ absurd (cc (rw differs at h))
  ]

  settled_row :
      (r : Reservation) (used : ℤ) (fingerprint : Option Text)
      → map_get id l.reservations ≡ some r
      → (if text_eq r.state (text "SETTLED")
          then replay l id r r.settled_microunits used
          else settle_open l id r used fingerprint)
        ≡ ok (m, p)
      → HasWritten l m id (text "SETTLED")
  settled_row r used fingerprint found h = elim (Bool-cases (text_eq r.state (text "SETTLED"))) [
    | inr open_hold ↦ settle_open-HasWritten r used fingerprint (rw open_hold at h)
    | inl settled ↦
        let same : m ≡ l = replay-same r r.settled_microunits used (rw settled at h) in
        record {
          row = r;
          in_state = (text_eq_iff r.state (text "SETTLED")).0 settled;
          at = λ x. ap (λ (y : Ledger). map_get x y.reservations) same ∙ unchanged x;
        }
  ]
    where
      unchanged :
          (x : Text)
          → map_get x l.reservations ≡ (if text_eq id x then some r else map_get x l.reservations)
      unchanged x = elim (Bool-cases (text_eq id x)) [
        | inl this ↦ rw this (
            subst (λ (y : Text). map_get y l.reservations ≡ some r) ((text_eq_iff id x).0 this)
              found)
        | inr other ↦ rw other refl
      ]

  pub settle_budget-HasWritten :
      (used : ℤ) (fingerprint : Option Text)
      → settle_budget l id used fingerprint ≡ ok (m, p)
      → HasWritten l m id (text "SETTLED")
  unfolding settle_budget
  settle_budget-HasWritten used fingerprint h =
      let (r, locked, h1) = bind_ok (locked_reservation l id) _ (m, p) h in
      settled_row r used fingerprint (locked_reservation-found l id r locked) h1
