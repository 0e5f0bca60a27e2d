-- ===== src/Store/Retry.antt =====
-- `BeginRetry` and `RequestReconciliation` of internal/store/recovery.go.
use watchkeeper.Prelude.{ℕ, ◌+◌, String, false, none, some, ◌==◌, ◌&&◌, not}
use watchkeeper.Domain.State.{OperationState, prepared, retryable, uncertain, state_eq}
use watchkeeper.Domain.Types.{
  Uuid, Time, Result, Operation, retry_started, reconciliation_requested, worker, manual,
  no_details,
}
use watchkeeper.Store.Rows.{OperationRow, Db}
use watchkeeper.Store.Tx.{World, Tx, unavailable_error, now, reject_if, ◌>>=◌, ◌>>◌, run}
use watchkeeper.Store.Queries.{
  get_operation_tx, get_operation_for_update, update_operation, NewEvent, append_event,
}
use watchkeeper.Store.Confirm.{conflict_error}

unfoldable pub retried_row : Time → ℕ → OperationRow → OperationRow
retried_row time version r = record r {
  dispatch_authorized = false;
  state = prepared;
  attempt_count = r.attempt_count + 1;
  version = version;
  prepared_at = time;
  resolved_at = none;
  next_reconcile_at = none;
  updated_at = time;
}

unfoldable pub retry_event : Uuid → ℕ → String → NewEvent
retry_event id version reason = record {
  operation_id = id;
  event_type = retry_started;
  from_state = some retryable;
  to_state = some prepared;
  operation_version = version;
  source = worker;
  actor = "workflow-worker";
  reason_code = reason;
  details = no_details;
}

-- Past the largest `int64` Go's sum wraps to a negative number, and PostgreSQL refuses the row; the
-- sum here is past the range, and `row_checks` refuses it.
unfoldable pub begin_retry_body : Uuid → ℕ → String → Tx Operation
begin_retry_body id expected_version reason = do
  op ← get_operation_for_update id
  reject_if (not (state_eq op.state retryable)) (
      conflict_error "operation_state_conflict"
        "only a retryable operation can begin another attempt")
  reject_if (not (op.version == expected_version)) (
      conflict_error "operation_version_conflict"
        "operation version does not match expected_version")
  let new_version = op.version + 1
  time ← now
  update_operation (unavailable_error "begin retry") id (retried_row time new_version)
  append_event (unavailable_error "append retry event") (retry_event id new_version reason)
  get_operation_tx id

unfoldable pub begin_retry : Uuid → ℕ → String → World → Db → Result Operation × Db
begin_retry id expected_version reason =
    run (unavailable_error "begin retry transaction") (unavailable_error "commit retry")
      (begin_retry_body id expected_version reason)

unfoldable pub requested_row : Time → ℕ → OperationRow → OperationRow
requested_row time version r = record r {
  version = version;
  next_reconcile_at = some time;
  updated_at = time;
}

unfoldable pub request_event : Uuid → OperationState → ℕ → String → String → NewEvent
request_event id state version actor reason = record {
  operation_id = id;
  event_type = reconciliation_requested;
  from_state = some state;
  to_state = some state;
  operation_version = version;
  source = manual;
  actor = actor;
  reason_code = reason;
  details = no_details;
}

unfoldable pub request_reconciliation_body : Uuid → ℕ → String → String → Tx Operation
request_reconciliation_body id expected_version actor reason = do
  op ← get_operation_for_update id
  reject_if (not (state_eq op.state prepared) && not (state_eq op.state uncertain)) (
      conflict_error "operation_state_conflict"
        "only prepared or uncertain operations can be reconciled")
  reject_if (not (op.version == expected_version)) (
      conflict_error "operation_version_conflict"
        "operation version does not match expected_version")
  let new_version = op.version + 1
  time ← now
  update_operation (unavailable_error "queue reconciliation") id (requested_row time new_version)
  append_event (unavailable_error "append reconciliation request")
      (request_event id op.state new_version actor reason)
  get_operation_tx id

unfoldable pub request_reconciliation :
    Uuid → ℕ → String → String → World → Db → Result Operation × Db
request_reconciliation id expected_version actor reason =
    run (unavailable_error "begin reconciliation request")
      (unavailable_error "commit reconciliation request")
      (request_reconciliation_body id expected_version actor reason)
