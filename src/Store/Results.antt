-- ===== src/Store/Results.antt =====
-- `SubmitRecoveryResult` and `validObservation` of internal/store/recovery.go.
pub mod Verdicts
pub mod Theorems
pub mod Accepted
use watchkeeper.Prelude.{
  ℕ, ◌+◌, ◌-◌, ◌*◌, ◌^◌, String, Bool, true, false, Option, none, some, List, [], ◌∷◌, ◌++◌, ◌==◌,
  ◌&&◌, not, is_some, ltb, str_eq, if◌then◌else◌,
}
use watchkeeper.Domain.State.{OperationState, reconciled, retryable, uncertain}
use watchkeeper.Domain.Types.{
  Uuid, Time, Error, Result, new_error, validation, Operation, Observation, ObservationOutcome,
  VerificationMechanism, RecoveryResult, completed, unknown, transient_error, contradictory,
  idempotent_repeat, recovery_result, coordinator, result_details,
}
use watchkeeper.Store.Rows.{
  OperationRow, Lease, AttemptRow, Decision, DecisionRow, observation_reference, Db, no_decision,
  reconcile, retry, mark_uncertain,
}
use watchkeeper.Store.Tables.{find}
use watchkeeper.Store.Tx.{
  required, World, Tx, unavailable_error, pure, query, statement, exec, ask, now, new_id, reject_if,
  ◌>>=◌, ◌>>◌, run,
}
use watchkeeper.Store.Queries.{
  get_operation_tx, get_operation_for_update, update_operation, NewEvent, append_event,
}
use watchkeeper.Store.Confirm.{conflict_error}
use watchkeeper.Store.Manual.{insert_decision, resolved_time}

unfoldable pub valid_mechanism : VerificationMechanism → Bool
valid_mechanism (VerificationMechanism.unlisted s) = false
valid_mechanism _ = true

unfoldable pub valid_outcome : ObservationOutcome → Bool
valid_outcome (ObservationOutcome.unlisted s) = false
valid_outcome _ = true

unfoldable pub valid_observation : Observation → Bool
valid_observation o = valid_mechanism o.mechanism && valid_outcome o.outcome

-- The verdict of the `switch`: the new state, the reason, the decision, the delay of the next
-- verification in microseconds, and whether `resolved_at` is set.
pub record Verdict : Type 0 where
  pub to_state : OperationState
  pub reason : String
  pub decision : Decision
  pub delay : ℕ
  pub resolved : Bool

abbrev pub is_completed : ObservationOutcome → Bool
is_completed completed = true
is_completed _ = false

abbrev pub is_contradictory : ObservationOutcome → Bool
is_contradictory contradictory = true
is_contradictory _ = false

abbrev pub is_transient : ObservationOutcome → Bool
is_transient transient_error = true
is_transient _ = false

abbrev pub is_unknown : ObservationOutcome → Bool
is_unknown unknown = true
is_unknown _ = false

abbrev pub is_repeat : VerificationMechanism → Bool
is_repeat idempotent_repeat = true
is_repeat _ = false

-- `250ms * (1 << (attemptNumber-1))`, at most ten seconds
unfoldable pub backoff : ℕ → ℕ
backoff attempt_number =
    let delay = 250_000 * 2 ^ (attempt_number - 1) in
    if ltb 10_000_000 delay then 10_000_000 else delay

unfoldable pub decide_result : Operation → ℕ → Observation → Verdict
decide_result op attempt_number o =
    if o.authoritative && is_completed o.outcome
    then record {
      to_state = reconciled;
      reason = "effect_completed";
      decision = reconcile;
      delay = 0;
      resolved = true;
    }
    else if not op.dispatch_authorized && not (is_contradictory o.outcome)
    then record {
      to_state = retryable;
      reason = "dispatch_not_authorized";
      decision = retry;
      delay = 0;
      resolved = false;
    }
    else if str_eq op.capability_profile "idempotency_only"
        && is_repeat o.mechanism
        && o.authoritative
        && is_unknown o.outcome
    then record {
      to_state = retryable;
      reason = "idempotent_replay_guaranteed";
      decision = retry;
      delay = 0;
      resolved = false;
    }
    else if is_transient o.outcome && ltb attempt_number 5
    then record {
      to_state = op.state;
      reason = "verification_transient";
      decision = no_decision;
      delay = backoff attempt_number;
      resolved = false;
    }
    else if is_contradictory o.outcome
    then record {
      to_state = uncertain;
      reason = "evidence_contradictory";
      decision = mark_uncertain;
      delay = 0;
      resolved = true;
    }
    else record {
      to_state = uncertain;
      reason = "evidence_insufficient";
      decision = mark_uncertain;
      delay = 0;
      resolved = true;
    }

unfoldable pub next_check : ℕ → Time → Option Time
next_check delay time = if ltb 0 delay then some (time + delay) else none

unfoldable pub result_row : Time → Verdict → ℕ → OperationRow → OperationRow
result_row time v version r = record r {
  state = v.to_state;
  version = version;
  resolved_at = resolved_time v.resolved time;
  next_reconcile_at = next_check v.delay time;
  lease = none;
  updated_at = time;
}

abbrev pub live_lease : String → Time → Option Lease → Bool
live_lease hash time none = false
live_lease hash time (some l) = str_eq l.token_hash hash && ltb time l.expires_at

-- The row's lease has this token's hash and has not run out.
unfoldable pub holds_lease : Uuid → String → Time → Db → Bool
holds_lease id hash time db = elim (find id db.operations) [
  | none ↦ false
  | some r ↦ live_lease hash time r.lease
]

unfoldable pub find_attempt : Uuid → Uuid → List AttemptRow → Option AttemptRow
find_attempt attempt_id id [] = none
find_attempt attempt_id id (a ∷ rows) =
    if a.id == attempt_id && a.operation_id == id then some a else find_attempt attempt_id id rows

unfoldable pub finish_attempt : Uuid → Time → ObservationOutcome → List AttemptRow → List AttemptRow
finish_attempt attempt_id time outcome [] = []
finish_attempt attempt_id time outcome (a ∷ rows) =
    (if a.id == attempt_id
      then record a { finished_at = some time; result_class = some outcome }
      else a)
    ∷ finish_attempt attempt_id time outcome rows

unfoldable pub insert_observation : Uuid → Uuid → Observation → Time → Db → Db
insert_observation observation_id attempt_id o time db = record db {
  observations =
      db.observations
      ++ record {
        id = observation_id;
        reconciliation_attempt_id = attempt_id;
        mechanism = o.mechanism;
        outcome = o.outcome;
        authoritative = o.authoritative;
        external_reference = o.external_reference;
        evidence = if str_eq o.evidence "" then "{}" else o.evidence;
      }
        ∷ [];
}

unfoldable pub result_decision :
    Uuid → Uuid → Uuid → Uuid → Verdict → OperationState → ℕ → DecisionRow
result_decision decision_id id attempt_id observation_id v from_state version = record {
  id = decision_id;
  operation_id = id;
  reconciliation_attempt_id = some attempt_id;
  decision = v.decision;
  source = coordinator;
  actor = "recovery-coordinator";
  reason_code = v.reason;
  evidence_references = observation_reference observation_id ∷ [];
  from_state = from_state;
  to_state = v.to_state;
  operation_version = version;
}

unfoldable pub result_event : Uuid → Uuid → Uuid → Verdict → OperationState → ℕ → NewEvent
result_event id attempt_id observation_id v from_state version = record {
  operation_id = id;
  event_type = recovery_result;
  from_state = some from_state;
  to_state = some v.to_state;
  operation_version = version;
  source = coordinator;
  actor = "recovery-coordinator";
  reason_code = v.reason;
  details = result_details attempt_id observation_id;
}

-- `if decision != ""`
unfoldable pub record_decision :
    Decision → Uuid → Uuid → Uuid → Verdict → OperationState → ℕ → Tx (Unit {0})
record_decision no_decision id attempt_id observation_id v from_state version = pure tt
record_decision _ id attempt_id observation_id v from_state version = do
  decision_id ← new_id
  statement (unavailable_error "store recovery decision") (
      insert_decision
        (result_decision decision_id id attempt_id observation_id v from_state version))

unfoldable pub lease_lost : Error
lease_lost = conflict_error "lease_lost" "recovery lease is missing or expired"

unfoldable pub apply_verdict : Uuid → Uuid → Uuid → Observation → Operation → Verdict → Tx Operation
apply_verdict id attempt_id observation_id o op v = do
  let new_version = op.version + 1
  time ← now
  update_operation (unavailable_error "apply recovery result") id (result_row time v new_version)
  exec (unavailable_error "finish reconciliation attempt")
      (λ t db. record db { attempts = finish_attempt attempt_id t o.outcome db.attempts })
  record_decision v.decision id attempt_id observation_id v op.state new_version
  append_event (unavailable_error "append recovery result")
      (result_event id attempt_id observation_id v op.state new_version)
  get_operation_tx id

unfoldable pub submit_body : Uuid → RecoveryResult → Tx Operation
submit_body id result = do
  op ← get_operation_for_update id
  time ← now
  hash ← ask (λ w. w.codec.sha256_hex result.claim_token)
  held ← query (unavailable_error "read recovery lease") (holds_lease id hash time)
  reject_if (not held) lease_lost
  reject_if (not (op.version == result.expected_version)) (
      conflict_error "operation_version_conflict"
        "operation version does not match expected_version")
  found ←
      query (unavailable_error "read reconciliation attempt")
        (λ db. find_attempt result.attempt_id id db.attempts)
  attempt ←
      required
        (conflict_error "reconciliation_attempt_conflict"
          "attempt does not belong to this operation")
        found
  reject_if (is_some attempt.finished_at)
      (conflict_error "reconciliation_attempt_conflict" "attempt is already finished")
  observation_id ← new_id
  exec (unavailable_error "store recovery observation")
      (insert_observation observation_id result.attempt_id result.observation)
  apply_verdict id result.attempt_id observation_id result.observation op
      (decide_result op attempt.attempt_number result.observation)

unfoldable pub submit_recovery_result : Uuid → RecoveryResult → World → Db → Result Operation × Db
submit_recovery_result id result w db =
    if valid_observation result.observation
    then run (unavailable_error "begin recovery result")
        (unavailable_error "commit recovery result") (submit_body id result) w db
    else (
      Result.err (
          new_error validation "invalid_observation" (
            if valid_mechanism result.observation.mechanism
            then "invalid observation outcome"
            else "invalid verification mechanism")),
      db,
    )
