-- ===== src/Ledger/Solvent.antt =====
-- What the operations of the ledger do to the limits of its accounts
-- (platform-plugins/data-postgres/src/budget_ledger.rs).
use masonwing.Prelude.{
  ℕ, ◌+◌, ◌≤◌, ◌≡◌, refl, sym, ap, subst, ◌∙◌, inl, inr, Bool, true, false, ◌&&◌, Option, none,
  some, List, [], ◌∷◌, arith, ℤ, pos, pos_part, leb_ℤ, map_insert, map_get, map_get-insert, Result,
  ok, err, ◌>>=◌, guard, bind_ok, ok-injective, if◌then◌else◌, Bool-cases, Text, text, text_eq,
}
use masonwing.Kernel.Runtime.Failure.{CommandFailure, precondition}
use masonwing.Ledger.Tables.{Setting, Account, Reservation, CostEvent, Ledger}
use masonwing.Ledger.Accounts.{
  Accounts, limit_of, period_of, hold, seed, hold_or_seed, hold_all, end_hold, end_row, end_holds,
}
use masonwing.Ledger.Rows.{
  Answer, CostProjection, ReserveCall, require_cost_transition, next_version, insert_reservation,
  insert_cost_event,
}
use masonwing.Ledger.Operations.{
  Operation, reserve, settle, cost_unknown, release, reserve_budget, replay, settle_open,
  settle_budget, mark_cost_unknown, release_budget, write, operate, operate_all, committed,
  locked_reservation,
}

abbrev pub IsSolvent : Account → Type 0
IsSolvent a = a.held_microunits + a.charged_microunits ≤ a.limit_microunits

abbrev pub AllSolvent : Accounts → Type 0
AllSolvent accounts = (key : Text) (a : Account) → map_get key accounts ≡ some a → IsSolvent a

insert-AllSolvent :
    (accounts : Accounts) (key : Text) (a : Account)
    → AllSolvent accounts
    → IsSolvent a
    → AllSolvent (map_insert key a accounts)
insert-AllSolvent accounts key a all good other b found = elim (Bool-cases (text_eq key other)) [
  | inl same ↦
      let e : some a ≡ some b = sym (rw same at (map_get-insert key other a accounts)) ∙ found in
      subst IsSolvent (some-injective a b e) good
  | inr apart ↦ all other b (sym (rw apart at (map_get-insert key other a accounts)) ∙ found)
]
  where
    some-injective : (x y : Account) → some x ≡ some y → x ≡ y
    some-injective x y e = cc

hold-IsSolvent : (a b : Account) (bound : ℕ) → hold a bound ≡ ok b → IsSolvent b
unfolding hold
hold-IsSolvent a b bound h = ground arith

seed-IsSolvent :
    (limit : Option ℕ) (currency : Text) (bound : ℕ) (b : Account)
    → seed limit currency bound ≡ ok b
    → IsSolvent b
unfolding seed
seed-IsSolvent limit currency bound b h = ground arith

end_hold-IsSolvent : (a b : Account) (bound used : ℕ) → end_hold a bound used ≡ ok b → IsSolvent b
unfolding end_hold
end_hold-IsSolvent a b bound used h = ground arith

hold_or_seed-IsSolvent :
    (settings : List Setting) (o : Option Account) (currency key : Text) (bound : ℕ) (b : Account)
    → hold_or_seed settings o currency key bound ≡ ok b
    → IsSolvent b
unfolding hold_or_seed
hold_or_seed-IsSolvent settings none currency key bound b h =
    seed-IsSolvent (limit_of settings currency (period_of key)) currency bound b h
hold_or_seed-IsSolvent settings (some a) currency key bound b h = hold-IsSolvent a b bound h

hold_all-AllSolvent :
    (settings : List Setting) (currency : Text) (bound : ℕ) (keys : List Text)
    (accounts last : Accounts)
    → AllSolvent accounts
    → hold_all settings currency bound keys accounts ≡ ok last
    → AllSolvent last
unfolding hold_all
hold_all-AllSolvent settings currency bound [] accounts last all h =
    subst AllSolvent (ok-injective accounts last h) all
hold_all-AllSolvent settings currency bound (key ∷ rest) accounts last all h =
    let (a, held, later) =
      bind_ok (hold_or_seed settings (map_get key accounts) currency key bound)
        (λ a. hold_all settings currency bound rest (map_insert key a accounts)) last h in
    hold_all-AllSolvent settings currency bound rest (map_insert key a accounts) last
      (insert-AllSolvent accounts key a all
        (hold_or_seed-IsSolvent settings (map_get key accounts) currency key bound a held))
      later

end_row-AllSolvent :
    (accounts : Accounts) (key : Text) (o : Option Account) (bound used : ℕ) (last : Accounts)
    → AllSolvent accounts
    → end_row accounts key o bound used ≡ ok last
    → AllSolvent last
unfolding end_row
end_row-AllSolvent accounts key none bound used last all h =
    subst AllSolvent (ok-injective accounts last h) all
end_row-AllSolvent accounts key (some a) bound used last all h =
    let (b, ended, put) =
      bind_ok (end_hold a bound used) (λ b. ok (map_insert key b accounts)) last h in
    subst AllSolvent (ok-injective (map_insert key b accounts) last put)
      (insert-AllSolvent accounts key b all (end_hold-IsSolvent a b bound used ended))

end_holds-AllSolvent :
    (bound used : ℕ) (keys : List Text) (accounts last : Accounts)
    → AllSolvent accounts
    → end_holds bound used keys accounts ≡ ok last
    → AllSolvent last
unfolding end_holds
end_holds-AllSolvent bound used [] accounts last all h =
    subst AllSolvent (ok-injective accounts last h) all
end_holds-AllSolvent bound used (key ∷ rest) accounts last all h =
    let (after, ended, later) =
      bind_ok (end_row accounts key (map_get key accounts) bound used)
        (λ after. end_holds bound used rest after) last h in
    end_holds-AllSolvent bound used rest after last
      (end_row-AllSolvent accounts key (map_get key accounts) bound used after all ended) later

-- The accounts that an answer leaves, if it is not an error, are solvent.
record Keeps (answer : Answer) : Type 0 where
  kept : (after : Ledger) (p : CostProjection) → answer ≡ ok (after, p) → AllSolvent after.accounts

err-Keeps : (e : CommandFailure) → Keeps (err e)
err-Keeps e = record { kept = λ after p h. absurd cc }

ok-Keeps : (l : Ledger) (p : CostProjection) → AllSolvent l.accounts → Keeps (ok (l, p))
ok-Keeps l p all = record {
  kept = λ after q h.
      subst (λ (x : Ledger). AllSolvent x.accounts)
        (ap (λ (x : Ledger × CostProjection). x.0) (ok-injective (l, p) (after, q) h)) all;
}

bind-Keeps :
    {A : Type 0} (m : Result A CommandFailure) (f : A → Answer)
    → ((a : A) → m ≡ ok a → Keeps (f a))
    → Keeps (m >>= f)
bind-Keeps (ok a) f h = h a refl
bind-Keeps (err e) f h = err-Keeps e

if_Keeps : (b : Bool) (x y : Answer) → Keeps x → Keeps y → Keeps (if b then x else y)
if_Keeps true x y h k = h
if_Keeps false x y h k = k

write-Keeps :
    (l : Ledger) (accounts : Accounts) (id : Text) (r : Reservation) (e : CostEvent)
    → AllSolvent accounts
    → Keeps (write l accounts id r e)
unfolding write
write-Keeps l accounts id r e all =
    bind-Keeps (insert_cost_event l.events e) _ (λ events _. ok-Keeps _ _ all)

reserve-Keeps : (l : Ledger) (c : ReserveCall) → AllSolvent l.accounts → Keeps (reserve_budget l c)
unfolding reserve_budget
reserve-Keeps l c all = if_Keeps _ _ _ (err-Keeps _) (
    bind-Keeps
      (hold_all l.settings c.currency (pos_part c.upper_bound_microunits) c.account_keys l.accounts)
      _
      λ accounts held. bind-Keeps (insert_reservation c l.reservations) _ λ reservations _.
        bind-Keeps (insert_cost_event l.events _) _ λ events _.
          ok-Keeps _ _ (
            hold_all-AllSolvent l.settings c.currency _ c.account_keys l.accounts accounts all
              held))

replay-Keeps :
    (l : Ledger) (id : Text) (r : Reservation) (settled : Option ℕ) (used : ℤ)
    → AllSolvent l.accounts
    → Keeps (replay l id r settled used)
unfolding replay
replay-Keeps l id r none used all = err-Keeps _
replay-Keeps l id r (some settled) used all = if_Keeps _ _ _ (ok-Keeps _ _ all) (err-Keeps _)

settle_open-Keeps :
    (l : Ledger) (id : Text) (r : Reservation) (used : ℤ) (fingerprint : Option Text)
    → AllSolvent l.accounts
    → Keeps (settle_open l id r used fingerprint)
unfolding settle_open
settle_open-Keeps l id r used fingerprint all =
    bind-Keeps (require_cost_transition r.state (text "SETTLED")) _ λ _ _.
      bind-Keeps
        (guard (leb_ℤ (pos 0) used && leb_ℤ used (pos r.upper_bound_microunits))
          (precondition (text "USAGE_EXCEEDS_RESERVATION")))
        _
        λ _ _.
          bind-Keeps (end_holds r.upper_bound_microunits (pos_part used) r.account_keys l.accounts)
            _
            λ accounts ended. bind-Keeps (next_version r.version) _ λ version _.
              write-Keeps l accounts id _ _ (
                end_holds-AllSolvent r.upper_bound_microunits (pos_part used) r.account_keys
                  l.accounts accounts all ended)

settle-Keeps :
    (l : Ledger) (id : Text) (used : ℤ) (fingerprint : Option Text)
    → AllSolvent l.accounts
    → Keeps (settle_budget l id used fingerprint)
unfolding settle_budget
settle-Keeps l id used fingerprint all = bind-Keeps (locked_reservation l id) _ λ r _.
    if_Keeps (text_eq r.state (text "SETTLED")) _ _
      (replay-Keeps l id r r.settled_microunits used all)
      (settle_open-Keeps l id r used fingerprint all)

unknown-Keeps : (l : Ledger) (id : Text) → AllSolvent l.accounts → Keeps (mark_cost_unknown l id)
unfolding mark_cost_unknown
unknown-Keeps l id all = bind-Keeps (locked_reservation l id) _ λ r _.
    bind-Keeps (require_cost_transition r.state (text "UNKNOWN")) _
      λ _ _. bind-Keeps (next_version r.version) _ λ version _. write-Keeps l l.accounts id _ _ all

release-Keeps : (l : Ledger) (id : Text) → AllSolvent l.accounts → Keeps (release_budget l id)
unfolding release_budget
release-Keeps l id all = bind-Keeps (locked_reservation l id) _ λ r _.
    bind-Keeps (require_cost_transition r.state (text "RELEASED")) _ λ _ _.
      bind-Keeps (end_holds r.upper_bound_microunits 0 r.account_keys l.accounts) _
        λ accounts ended. bind-Keeps (next_version r.version) _ λ version _.
          write-Keeps l accounts id _ _ (
            end_holds-AllSolvent r.upper_bound_microunits 0 r.account_keys l.accounts accounts all
              ended)

operate-Keeps : (l : Ledger) (o : Operation) → AllSolvent l.accounts → Keeps (operate l o)
unfolding operate
operate-Keeps l (reserve c) all = reserve-Keeps l c all
operate-Keeps l (settle id used fingerprint) all = settle-Keeps l id used fingerprint all
operate-Keeps l (cost_unknown id) all = unknown-Keeps l id all
operate-Keeps l (release id) all = release-Keeps l id all

committed-AllSolvent :
    (l : Ledger) (answer : Answer)
    → AllSolvent l.accounts
    → Keeps answer
    → AllSolvent (committed l answer).accounts
committed-AllSolvent l (ok (after, p)) all h = h.kept after p refl
committed-AllSolvent l (err _) all h = all

-- When every account of the ledger covers what it holds and has charged with its limit, then it does
-- so after any sequence of operations, accepted and refused.
pub operate_all-AllSolvent :
    (l : Ledger) (operations : List Operation)
    → AllSolvent l.accounts
    → AllSolvent (operate_all l operations).accounts
unfolding operate_all
operate_all-AllSolvent l [] all = all
operate_all-AllSolvent l (o ∷ rest) all =
    operate_all-AllSolvent (committed l (operate l o)) rest
      (committed-AllSolvent l (operate l o) all (operate-Keeps l o all))
