-- ===== src/Effects/Recording.antt =====
-- platform-plugins/data-postgres/src/effect_commands.rs: what the system records of a transmission. Each
-- runs in one transaction with the ledger: with an error the tables stay as they were. The identifier
-- of a receipt is drawn at random by a library and is an argument.
use masonwing.Prelude.{
  ℕ, Bool, true, false, not, ◌||◌, Option, none, some, List, [], ◌∷◌, ℤ, pos, map_insert, map_get,
  Result, ok, ◌>>=◌, ◌>>◌, guard, ok_or, contains, Text, text, text_eq,
}
use masonwing.Contracts.Wire.{ArtifactRef}
use masonwing.Kernel.Effects.{
  ReconciliationEvidence, confirmed_present, confirmed_failure, proven_absent_and_reauthorized,
  unresolved,
}
use masonwing.Kernel.Runtime.Failure.{CommandFailure, invalid}
use masonwing.Ledger.Tables.{Ledger, resource_conflict}
use masonwing.Ledger.Rows.{next_version}
use masonwing.Ledger.Operations.{settle_budget, mark_cost_unknown, release_budget}
use masonwing.Effects.Tables.{Receipt, Store, Answer, written, locked_effect, illegal_transition}

unfoldable pub record_effect_unknown : Store → Text → Answer
unfolding locked_effect next_version mark_cost_unknown text_eq
record_effect_unknown s id = locked_effect s id >>= λ e.
    guard (text_eq e.state (text "EXECUTING")) illegal_transition >>= λ _.
    next_version e.version >>= λ version. mark_cost_unknown s.ledger e.reservation_id >>= λ l. ok (
      written (record s { ledger = l.0 }) id
        (record e {
          state = text "OUTCOME_UNKNOWN";
          reconciliation_queued = true;
          version = version;
        })
        (text "effect outcome unknown") false)

abbrev pub transmitted_states : List Text
transmitted_states = text "EXECUTING" ∷ text "RECONCILING" ∷ []

-- What a provider has confirmed of an effect.
pub record Success : Type 0 where
  pub receipt_id : Text
  pub remote_id : Text
  pub evidence_ref : ArtifactRef
  pub used_microunits : ℤ

abbrev is_taken : Option Receipt → Bool
is_taken none = false
is_taken (some _) = true

-- The UNIQUE of an effect among the receipts.
unfoldable pub has_receipt : List (Text × Receipt) → Text → Bool
unfolding text_eq
has_receipt [] id = false
has_receipt ((_, r) ∷ rest) id = text_eq r.effect_id id || has_receipt rest id

unfoldable pub insert_receipt :
    List (Text × Receipt) → Text → Success → ℕ → Result (List (Text × Receipt)) CommandFailure
unfolding has_receipt map_get map_insert
insert_receipt receipts id x now =
    guard (not (is_taken (map_get x.receipt_id receipts) || has_receipt receipts id))
      resource_conflict
    >> ok (
        map_insert x.receipt_id
          (record {
            effect_id = id;
            outcome = text "SUCCEEDED";
            remote_id = x.remote_id;
            remote_version = text "1";
            evidence_ref = x.evidence_ref;
            provider_contract_version = text "1.0.0";
            observed_at = now;
          })
          receipts)

unfoldable pub record_effect_succeeded : Store → ℕ → Text → Success → Answer
unfolding locked_effect next_version insert_receipt settle_budget contains
record_effect_succeeded s now id x = locked_effect s id >>= λ e.
    guard (contains transmitted_states e.state) illegal_transition >>= λ _.
    next_version e.version >>= λ version. insert_receipt s.receipts id x now >>= λ receipts.
    settle_budget s.ledger e.reservation_id x.used_microunits (some e.fingerprint) >>= λ l. ok (
      written (record s { receipts = receipts; ledger = l.0 }) id
        (record e { state = text "SUCCEEDED"; reconciliation_queued = false; version = version })
        (text "effect succeeded") false)

-- The release of the hold, where the evidence asks for it.
unfoldable pub release_if : Bool → Ledger → Text → Result Ledger CommandFailure
unfolding release_budget
release_if false l id = ok l
release_if true l id = release_budget l id >>= λ answer. ok (answer.0)

-- What evidence without a success does: the states that it is taken in, the next one, whether the
-- hold is released, and the label.
unfoldable pub resolve_without : Store → Text → List Text → Text → Bool → Text → Answer
unfolding locked_effect next_version release_if contains
resolve_without s id expected_from next release label = locked_effect s id >>= λ e.
    guard (contains expected_from e.state) illegal_transition >>= λ _.
    next_version e.version >>= λ version. release_if release s.ledger e.reservation_id >>= λ l. ok (
      written (record s { ledger = l }) id
        (record e { state = next; reconciliation_queued = false; version = version }) label false)

-- What comes with the evidence.
pub record Evidence : Type 0 where
  pub receipt_id : Text
  pub remote_id : Option Text
  pub evidence_ref : Option ArtifactRef
  pub used_microunits : Option ℤ

abbrev used_or_default : Option ℤ → ℤ
used_or_default none = pos 12
used_or_default (some used) = used

unfoldable pub apply_reconciliation_evidence :
    Store → ℕ → Text → ReconciliationEvidence → Evidence → Answer
unfolding record_effect_succeeded resolve_without
apply_reconciliation_evidence s now id confirmed_present x =
    ok_or x.remote_id (invalid (text "REMOTE_ID_REQUIRED")) >>= λ remote_id.
    ok_or x.evidence_ref (invalid (text "EVIDENCE_REF_REQUIRED")) >>= λ evidence_ref.
    record_effect_succeeded s now id (record {
      receipt_id = x.receipt_id;
      remote_id = remote_id;
      evidence_ref = evidence_ref;
      used_microunits = used_or_default x.used_microunits;
    })
apply_reconciliation_evidence s now id confirmed_failure x =
    resolve_without s id transmitted_states (text "FAILED_CONFIRMED") true
      (text "effect failed confirmed")
apply_reconciliation_evidence s now id proven_absent_and_reauthorized x =
    resolve_without s id (text "RECONCILING" ∷ []) (text "AUTHORIZED") false
      (text "effect proven absent reauthorized")
apply_reconciliation_evidence s now id unresolved x =
    resolve_without s id (text "RECONCILING" ∷ []) (text "MANUAL_REVIEW") false
      (text "effect manual review")
