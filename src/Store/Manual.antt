-- ===== src/Store/Manual.antt =====
-- `ManualResolve` of internal/store/recovery.go.
use watchkeeper.Prelude.{
  ℕ, ◌+◌, String, Option, none, some, List, [], ◌∷◌, ◌++◌, Bool, true, false, ◌==◌, ◌&&◌, ◌||◌, not,
  str_eq, if◌then◌else◌,
}
use watchkeeper.Domain.State.{OperationState, reconciled, retryable, uncertain, state_eq}
use watchkeeper.Domain.Types.{
  Uuid, Time, Result, Operation, ManualResolution, new_error, validation, manual_resolution, manual,
  evidence_details,
}
use watchkeeper.Store.Rows.{
  OperationRow, Db, Decision, DecisionRow, written_reference, reconcile, retry, compensate_recorded,
}
use watchkeeper.Store.Tx.{
  World, Tx, unavailable_error, pure, throw, statement, now, new_id, reject_if, ◌>>=◌, ◌>>◌, run,
}
use watchkeeper.Store.Queries.{
  get_operation_tx, get_operation_for_update, update_operation, NewEvent, append_event,
}
use watchkeeper.Store.Confirm.{conflict_error}

-- The `switch` on the outcome: the state and the decision.
unfoldable pub manual_target : String → OperationState → Tx (OperationState × Decision)
manual_target outcome state =
    if str_eq outcome "completed"
    then pure (reconciled, reconcile)
    else if str_eq outcome "absent"
    then pure (retryable, retry)
    else if str_eq outcome "compensation_recorded"
    then pure (state, compensate_recorded)
    else throw (
        new_error validation "invalid_manual_outcome"
          "manual outcome must be completed, absent, or compensation_recorded")

unfoldable pub resolved_time : Bool → Time → Option Time
resolved_time true time = some time
resolved_time false time = none

unfoldable pub manual_row : Time → OperationState → ℕ → OperationRow → OperationRow
manual_row time to_state version r = record r {
  state = to_state;
  version = version;
  resolved_at = resolved_time (state_eq to_state reconciled) time;
  next_reconcile_at = none;
  updated_at = time;
}

unfoldable pub decision_exists : Uuid → ℕ → List DecisionRow → Bool
decision_exists id version [] = false
decision_exists id version (d ∷ rows) =
    (d.operation_id == id && d.operation_version == version) || decision_exists id version rows

-- `INSERT INTO recovery_decisions`: one decision for each version of an operation.
unfoldable pub insert_decision : DecisionRow → Db → Option (Unit {0} × Db)
insert_decision d db =
    if decision_exists d.operation_id d.operation_version db.decisions
    then none
    else some (tt, record db { decisions = db.decisions ++ d ∷ [] })

unfoldable pub manual_decision :
    Uuid → Uuid → ManualResolution → Decision → OperationState → OperationState → ℕ → DecisionRow
manual_decision decision_id id resolution decision from_state to_state version = record {
  id = decision_id;
  operation_id = id;
  reconciliation_attempt_id = none;
  decision = decision;
  source = manual;
  actor = resolution.actor;
  reason_code = resolution.reason;
  evidence_references = written_reference resolution.evidence_reference ∷ [];
  from_state = from_state;
  to_state = to_state;
  operation_version = version;
}

unfoldable pub manual_event :
    Uuid → ManualResolution → OperationState → OperationState → ℕ → NewEvent
manual_event id resolution from_state to_state version = record {
  operation_id = id;
  event_type = manual_resolution;
  from_state = some from_state;
  to_state = some to_state;
  operation_version = version;
  source = manual;
  actor = resolution.actor;
  reason_code = resolution.reason;
  details = evidence_details resolution.evidence_reference;
}

unfoldable pub manual_resolve_body : Uuid → ManualResolution → Tx Operation
manual_resolve_body id resolution = do
  op ← get_operation_for_update id
  reject_if (not (state_eq op.state uncertain)) (
      conflict_error "operation_state_conflict"
        "only uncertain operations can be resolved manually")
  reject_if (not (op.version == resolution.expected_version)) (
      conflict_error "operation_version_conflict"
        "operation version does not match expected_version")
  target ← manual_target resolution.outcome op.state
  let new_version = op.version + 1
  time ← now
  update_operation (unavailable_error "apply manual resolution") id
      (manual_row time target.0 new_version)
  decision_id ← new_id
  statement (unavailable_error "store manual decision") (
      insert_decision
        (manual_decision decision_id id resolution target.1 op.state target.0 new_version))
  append_event (unavailable_error "append manual resolution")
      (manual_event id resolution op.state target.0 new_version)
  get_operation_tx id

unfoldable pub manual_resolve : Uuid → ManualResolution → World → Db → Result Operation × Db
manual_resolve id resolution =
    run (unavailable_error "begin manual resolution") (unavailable_error "commit manual resolution")
      (manual_resolve_body id resolution)
