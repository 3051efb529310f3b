-- ===== src/Ledger/Operations.antt =====
-- platform-plugins/data-postgres/src/budget_ledger.rs: the four operations of the ledger. Each runs in
-- one transaction: with an error the tables stay as they were.
use masonwing.Prelude.{
  ℕ, ◌&&◌, Option, none, some, List, [], ◌∷◌, ℤ, pos, pos_part, leb_ℤ, eq_ℤ, map_insert, map_get,
  Result, ok, err, ◌>>=◌, guard, ok_or, if◌then◌else◌, Text, text, text_eq,
}
use masonwing.Kernel.Runtime.Failure.{CommandFailure, not_found, conflict, precondition}
use masonwing.Ledger.Tables.{Reservation, CostEvent, Ledger, adapter_unavailable}
use masonwing.Ledger.Accounts.{Accounts, hold_all, end_holds}
use masonwing.Ledger.Rows.{
  Answer, ReserveCall, event, insert_cost_event, insert_reservation, negative, new_reservation,
  next_version, require_cost_transition, reservation_value,
}

unfoldable pub reserve_budget : Ledger → ReserveCall → Answer
unfolding hold_all insert_reservation insert_cost_event
reserve_budget l c =
    if leb_ℤ c.upper_bound_microunits (pos 0)
    then err (precondition (text "PRICE_BOUND_UNKNOWN"))
    else (hold_all l.settings c.currency (pos_part c.upper_bound_microunits) c.account_keys
          l.accounts
        >>= λ accounts. insert_reservation c l.reservations >>= λ reservations.
            insert_cost_event l.events
              (event c.id (text "RESERVED") c.upper_bound_microunits (pos 0) none)
            >>= λ events. ok (
              record l { accounts = accounts; reservations = reservations; events = events },
              reservation_value c.id (new_reservation c),
            ))

-- `locked_reservation`
unfoldable pub locked_reservation : Ledger → Text → Result Reservation CommandFailure
unfolding map_get
locked_reservation l id = ok_or (map_get id l.reservations) not_found

-- A new row of a reservation, and the event of the change: the tables and the answer.
unfoldable pub write : Ledger → Accounts → Text → Reservation → CostEvent → Answer
unfolding insert_cost_event map_insert
write l accounts id r e = insert_cost_event l.events e >>= λ events. ok (
  record l { accounts = accounts; reservations = map_insert id r l.reservations; events = events },
  reservation_value id r,
)

-- A settlement of a reservation that is settled.
unfoldable pub replay : Ledger → Text → Reservation → Option ℕ → ℤ → Answer
replay l id r none used = err adapter_unavailable
replay l id r (some settled) used =
    if eq_ℤ (pos settled) used
    then ok (l, reservation_value id r)
    else err (conflict (text "SETTLEMENT_CONFLICT"))

-- A settlement of one that is not.
unfoldable pub settle_open : Ledger → Text → Reservation → ℤ → Option Text → Answer
unfolding require_cost_transition end_holds next_version write
settle_open l id r used fingerprint = require_cost_transition r.state (text "SETTLED") >>= λ _.
    guard (leb_ℤ (pos 0) used && leb_ℤ used (pos r.upper_bound_microunits))
      (precondition (text "USAGE_EXCEEDS_RESERVATION"))
    >>= λ _.
        end_holds r.upper_bound_microunits (pos_part used) r.account_keys l.accounts >>= λ accounts.
        next_version r.version >>= λ version.
        write l accounts id
          (record r {
            state = text "SETTLED";
            settled_microunits = some (pos_part used);
            usage_fingerprint = fingerprint;
            version = version;
          })
          (event id (text "SETTLED") (negative r.upper_bound_microunits) used fingerprint)

unfoldable pub settle_budget : Ledger → Text → ℤ → Option Text → Answer
unfolding locked_reservation replay settle_open text_eq
settle_budget l id used fingerprint = locked_reservation l id >>= λ r.
    if text_eq r.state (text "SETTLED")
    then replay l id r r.settled_microunits used
    else settle_open l id r used fingerprint

unfoldable pub mark_cost_unknown : Ledger → Text → Answer
unfolding locked_reservation require_cost_transition next_version write
mark_cost_unknown l id = locked_reservation l id >>= λ r.
    require_cost_transition r.state (text "UNKNOWN") >>= λ _. next_version r.version >>= λ version.
    write l l.accounts id (record r { state = text "UNKNOWN"; version = version })
      (event id (text "UNKNOWN") (pos 0) (pos 0) none)

unfoldable pub release_budget : Ledger → Text → Answer
unfolding locked_reservation require_cost_transition end_holds next_version write
release_budget l id = locked_reservation l id >>= λ r.
    require_cost_transition r.state (text "RELEASED") >>= λ _.
    end_holds r.upper_bound_microunits 0 r.account_keys l.accounts >>= λ accounts.
    next_version r.version >>= λ version.
    write l accounts id (record r { state = text "RELEASED"; version = version })
      (event id (text "RELEASED") (negative r.upper_bound_microunits) (pos 0) none)

-- One of the public operations, which begin a transaction and commit it.
pub data Operation : Type 0 where
  reserve : ReserveCall → Operation
  settle : (id : Text) (used : ℤ) (fingerprint : Option Text) → Operation
  cost_unknown : (id : Text) → Operation
  release : (id : Text) → Operation

unfoldable pub operate : Ledger → Operation → Answer
unfolding reserve_budget settle_budget mark_cost_unknown release_budget
operate l (reserve c) = reserve_budget l c
operate l (settle id used fingerprint) = settle_budget l id used fingerprint
operate l (cost_unknown id) = mark_cost_unknown l id
operate l (release id) = release_budget l id

-- The tables that a transaction leaves.
abbrev pub committed : Ledger → Answer → Ledger
committed l (ok (after, _)) = after
committed l (err _) = l

unfoldable pub operate_all : Ledger → List Operation → Ledger
unfolding operate
operate_all l [] = l
operate_all l (o ∷ rest) = operate_all (committed l (operate l o)) rest
