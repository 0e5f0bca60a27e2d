-- ===== src/Store/Tests/Results.antt =====
-- Runs of SubmitRecoveryResult, and its theorems at those.
use watchkeeper.Store.Tests.{
  calm, email_request, prepared_then_claimed, first_row, sent_row, first_workflow, contradiction,
}
use watchkeeper.Prelude.{
  ◌<◌, select, ◌⊎◌, ◌≢◌, ◌+◌, ◌≡◌, ◌≤◌, refl, true, false, some, List, [], ◌∷◌,
}
use watchkeeper.Store.Rows.{row_checks, OperationRow, empty_db}
use watchkeeper.Store.Tables.{put, find_workflow, find}
use watchkeeper.Domain.Types.{
  contradictory, completed, unknown, idempotent_repeat, transient_error, ok, status_lookup,
  RecoveryResult,
}
use watchkeeper.Store.Tx.{
  returned, unavailable_error, statement, ask, now, ◌>>=◌, pure, throw, reject_if, required, query,
  exec, draw, new_id, run, World,
}
use watchkeeper.Domain.State.{reconciled, state_eq, retryable}
use watchkeeper.Store.Prepare.{
  trace_or_empty, intent_event, prepare_inserted, prepared_row, find_natural, insert_operation,
  prepare_insert, strategy_eq, find_external, insert_workflow, ensure_workflow, prepare_body,
  prepare,
}
use watchkeeper.Store.Queries.{
  update_operation, get_operation_for_update, scan_operation, found_operation, joined,
  get_operation_tx, stamp, with_event, append_event,
}
use watchkeeper.Store.Results.{
  lease_lost, result_event, result_decision, record_decision, next_check, result_row, backoff,
  decide_result, apply_verdict, insert_observation, finish_attempt, find_attempt, holds_lease,
  valid_outcome, valid_mechanism, valid_observation, submit_body, submit_recovery_result,
}
use watchkeeper.Store.Dispatch.{
  dispatch_not_authorized, dispatch_event, authorized_row, is_claimed, authorize_dispatch_body,
  authorize_dispatch,
}
use watchkeeper.Store.Results.Theorems.{
  submit-backoff, submit-proof, submit-safe_retry, submit-once,
}
use watchkeeper.Store.Claims.{
  claim_event, insert_attempt, claimed_row, highest_attempt, next_attempt, ids, sorted,
  insert_sorted, claim_before, is_due, in_scope, eligible, select_work, claim_one, claim_each,
  claim_body, claim_recovery_for_workflow,
}
use watchkeeper.Store.Manual.{resolved_time, decision_exists, insert_decision}
use watchkeeper.Store.Calls.{claims, perform, Call, serve, prepares, authorizes}

-- A verifier that could not reach the service.
abbrev failed_check : RecoveryResult
failed_check = record {
  claim_token = "token";
  expected_version = 2;
  attempt_id = 202;
  observation = record {
    mechanism = status_lookup;
    outcome = transient_error;
    authoritative = false;
    external_reference = "";
    evidence = "{}";
  };
}

abbrev retried_row_after : OperationRow
retried_row_after = record first_row { version = 3; updated_at = 6000; state = retryable }

submit_ok :
    (submit_recovery_result 103 failed_check
      (calm 6000 300)
      (serve empty_db prepared_then_claimed)).0
    ≡ ok (scan_operation retried_row_after first_workflow)
unfolding serve perform prepare run prepare_body ensure_workflow new_id draw exec query required
    reject_if throw pure ◌>>=◌ insert_workflow find_external strategy_eq now ask prepare_insert
    statement insert_operation find_natural find prepared_row prepare_inserted append_event
    with_event stamp intent_event get_operation_tx joined find_workflow found_operation
    scan_operation unavailable_error trace_or_empty get_operation_for_update update_operation put
    row_checks state_eq claim_recovery_for_workflow claim_body claim_each claim_one select_work
    eligible in_scope is_due claim_before insert_sorted sorted ids next_attempt highest_attempt
    claimed_row insert_attempt claim_event select returned submit_recovery_result submit_body
    valid_observation valid_mechanism valid_outcome holds_lease find_attempt finish_attempt
    insert_observation apply_verdict decide_result backoff result_row next_check record_decision
    result_decision insert_decision decision_exists result_event resolved_time lease_lost
submit_ok = refl

submit_row :
    find 103
      (submit_recovery_result 103 failed_check
        (calm 6000 300)
        (serve empty_db prepared_then_claimed)).1.operations
    ≡ some retried_row_after
unfolding serve perform prepare run prepare_body ensure_workflow new_id draw exec query required
    reject_if throw pure ◌>>=◌ insert_workflow find_external strategy_eq now ask prepare_insert
    statement insert_operation find_natural find prepared_row prepare_inserted append_event
    with_event stamp intent_event get_operation_tx joined find_workflow found_operation
    scan_operation unavailable_error trace_or_empty get_operation_for_update update_operation put
    row_checks state_eq claim_recovery_for_workflow claim_body claim_each claim_one select_work
    eligible in_scope is_due claim_before insert_sorted sorted ids next_attempt highest_attempt
    claimed_row insert_attempt claim_event select returned submit_recovery_result submit_body
    valid_observation valid_mechanism valid_outcome holds_lease find_attempt finish_attempt
    insert_observation apply_verdict decide_result backoff result_row next_check record_decision
    result_decision insert_decision decision_exists result_event resolved_time lease_lost
submit_row = refl

submit-safe_retry_example :
    (old : OperationRow) × (find 103 (serve empty_db prepared_then_claimed).operations ≡ some old)
    × ((old.state ≡ retryable)
        ⊎ ((old.dispatch_authorized ≡ false) × (transient_error ≢ contradictory))
        ⊎ ((old.capability_profile ≡ "idempotency_only")
            × (status_lookup ≡ idempotent_repeat)
            × (false ≡ true)
            × (transient_error ≡ unknown)))
submit-safe_retry_example =
    submit-safe_retry 103 failed_check (calm 6000 300) (serve empty_db prepared_then_claimed) _
      retried_row_after submit_ok submit_row refl

submit-once_example :
    (submit_recovery_result 103 failed_check
      (calm 7000 400)
      (submit_recovery_result 103 failed_check
        (calm 6000 300)
        (serve empty_db prepared_then_claimed)).1).0
    ≢ ok (scan_operation retried_row_after first_workflow)
submit-once_example =
    submit-once 103 failed_check failed_check (calm 6000 300) (calm 7000 400)
      (serve empty_db prepared_then_claimed) _ (scan_operation retried_row_after first_workflow)
      submit_ok

abbrev sent_then_claimed : List (World × Call)
sent_then_claimed =
    (calm 1000 100, prepares email_request)
    ∷ (calm 2000 200, authorizes 103 1)
    ∷ (calm 5000 300, claims "worker" 10 30_000_000 0 "")
    ∷ []

abbrev proof_result : RecoveryResult
proof_result = record contradiction {
  observation = record {
    mechanism = status_lookup;
    outcome = completed;
    authoritative = true;
    external_reference = "r";
    evidence = "{}";
  };
}

abbrev unreached_result : RecoveryResult
unreached_result = record contradiction {
  observation = record {
    mechanism = status_lookup;
    outcome = transient_error;
    authoritative = false;
    external_reference = "";
    evidence = "{}";
  };
}

abbrev reconciled_row : OperationRow
reconciled_row = record sent_row {
  version = 4;
  updated_at = 6000;
  state = reconciled;
  resolved_at = some 6000;
}

abbrev waiting_row : OperationRow
waiting_row = record sent_row { version = 4; updated_at = 6000; next_reconcile_at = some 256_000 }

proof_ok :
    (submit_recovery_result 103 proof_result (calm 6000 400) (serve empty_db sent_then_claimed)).0
    ≡ ok (scan_operation reconciled_row first_workflow)
unfolding serve perform prepare run prepare_body ensure_workflow new_id draw exec query required
    reject_if throw pure ◌>>=◌ insert_workflow find_external strategy_eq now ask prepare_insert
    statement insert_operation find_natural find prepared_row prepare_inserted append_event
    with_event stamp intent_event get_operation_tx joined find_workflow found_operation
    scan_operation unavailable_error trace_or_empty get_operation_for_update update_operation put
    row_checks state_eq authorize_dispatch authorize_dispatch_body is_claimed authorized_row
    dispatch_event dispatch_not_authorized claim_recovery_for_workflow claim_body claim_each
    claim_one select_work eligible in_scope is_due claim_before insert_sorted sorted ids
    next_attempt highest_attempt claimed_row insert_attempt claim_event select returned
    submit_recovery_result submit_body valid_observation valid_mechanism valid_outcome holds_lease
    find_attempt finish_attempt insert_observation apply_verdict decide_result backoff result_row
    next_check record_decision result_decision insert_decision decision_exists result_event
    resolved_time lease_lost
proof_ok = refl

proof_row :
    find 103
      (submit_recovery_result 103 proof_result
        (calm 6000 400)
        (serve empty_db sent_then_claimed)).1.operations
    ≡ some reconciled_row
unfolding serve perform prepare run prepare_body ensure_workflow new_id draw exec query required
    reject_if throw pure ◌>>=◌ insert_workflow find_external strategy_eq now ask prepare_insert
    statement insert_operation find_natural find prepared_row prepare_inserted append_event
    with_event stamp intent_event get_operation_tx joined find_workflow found_operation
    scan_operation unavailable_error trace_or_empty get_operation_for_update update_operation put
    row_checks state_eq authorize_dispatch authorize_dispatch_body is_claimed authorized_row
    dispatch_event dispatch_not_authorized claim_recovery_for_workflow claim_body claim_each
    claim_one select_work eligible in_scope is_due claim_before insert_sorted sorted ids
    next_attempt highest_attempt claimed_row insert_attempt claim_event select returned
    submit_recovery_result submit_body valid_observation valid_mechanism valid_outcome holds_lease
    find_attempt finish_attempt insert_observation apply_verdict decide_result backoff result_row
    next_check record_decision result_decision insert_decision decision_exists result_event
    resolved_time lease_lost
proof_row = refl

submit-proof_example :
    (old : OperationRow) × (find 103 (serve empty_db sent_then_claimed).operations ≡ some old)
    × ((old.state ≡ reconciled) ⊎ ((true ≡ true) × (completed ≡ completed)))
submit-proof_example =
    submit-proof 103 proof_result (calm 6000 400) (serve empty_db sent_then_claimed) _
      reconciled_row proof_ok proof_row refl

waiting_ok :
    (submit_recovery_result 103 unreached_result
      (calm 6000 400)
      (serve empty_db sent_then_claimed)).0
    ≡ ok (scan_operation waiting_row first_workflow)
unfolding serve perform prepare run prepare_body ensure_workflow new_id draw exec query required
    reject_if throw pure ◌>>=◌ insert_workflow find_external strategy_eq now ask prepare_insert
    statement insert_operation find_natural find prepared_row prepare_inserted append_event
    with_event stamp intent_event get_operation_tx joined find_workflow found_operation
    scan_operation unavailable_error trace_or_empty get_operation_for_update update_operation put
    row_checks state_eq authorize_dispatch authorize_dispatch_body is_claimed authorized_row
    dispatch_event dispatch_not_authorized claim_recovery_for_workflow claim_body claim_each
    claim_one select_work eligible in_scope is_due claim_before insert_sorted sorted ids
    next_attempt highest_attempt claimed_row insert_attempt claim_event select returned
    submit_recovery_result submit_body valid_observation valid_mechanism valid_outcome holds_lease
    find_attempt finish_attempt insert_observation apply_verdict decide_result backoff result_row
    next_check record_decision result_decision insert_decision decision_exists result_event
    resolved_time lease_lost
waiting_ok = refl

waiting_row_there :
    find 103
      (submit_recovery_result 103 unreached_result
        (calm 6000 400)
        (serve empty_db sent_then_claimed)).1.operations
    ≡ some waiting_row
unfolding serve perform prepare run prepare_body ensure_workflow new_id draw exec query required
    reject_if throw pure ◌>>=◌ insert_workflow find_external strategy_eq now ask prepare_insert
    statement insert_operation find_natural find prepared_row prepare_inserted append_event
    with_event stamp intent_event get_operation_tx joined find_workflow found_operation
    scan_operation unavailable_error trace_or_empty get_operation_for_update update_operation put
    row_checks state_eq authorize_dispatch authorize_dispatch_body is_claimed authorized_row
    dispatch_event dispatch_not_authorized claim_recovery_for_workflow claim_body claim_each
    claim_one select_work eligible in_scope is_due claim_before insert_sorted sorted ids
    next_attempt highest_attempt claimed_row insert_attempt claim_event select returned
    submit_recovery_result submit_body valid_observation valid_mechanism valid_outcome holds_lease
    find_attempt finish_attempt insert_observation apply_verdict decide_result backoff result_row
    next_check record_decision result_decision insert_decision decision_exists result_event
    resolved_time lease_lost
waiting_row_there = refl

submit-backoff_example : (6000 < 256_000) × (256_000 ≤ 6000 + 2_000_000)
submit-backoff_example =
    submit-backoff 103 unreached_result (calm 6000 400) (serve empty_db sent_then_claimed) _
      waiting_row 256_000 waiting_ok waiting_row_there refl
