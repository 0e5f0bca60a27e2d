-- ===== src/Store/Tests/Lifecycle.antt =====
-- Runs through an operation that an operator resolves, and the lifecycle theorem at a run without one.
use watchkeeper.Store.Tests.{calm, email_request, prepared_then_authorized, contradiction}
use watchkeeper.Prelude.{All, select, ◌≡◌, refl, true, List, [], ◌∷◌}
use watchkeeper.Store.Rows.{row_checks, empty_db}
use watchkeeper.Store.Tables.{put, find_workflow, find}
use watchkeeper.Domain.Types.{err, ManualResolution}
use watchkeeper.Store.Tx.{
  returned, unavailable_error, statement, ask, now, ◌>>=◌, pure, throw, reject_if, required, query,
  exec, draw, new_id, run, World,
}
use watchkeeper.Domain.State.{state_eq}
use watchkeeper.Store.Prepare.{
  trace_or_empty, intent_event, prepare_inserted, prepared_row, find_natural, insert_operation,
  prepare_insert, strategy_eq, find_external, insert_workflow, ensure_workflow, prepare_body,
  prepare,
}
use watchkeeper.Store.Queries.{
  update_operation, get_operation_for_update, scan_operation, found_operation, joined,
  get_operation_tx, stamp, with_event, append_event,
}
use watchkeeper.Store.Results.{
  lease_lost, result_event, result_decision, record_decision, next_check, result_row, backoff,
  decide_result, apply_verdict, insert_observation, finish_attempt, find_attempt, holds_lease,
  valid_outcome, valid_mechanism, valid_observation, submit_body, submit_recovery_result,
}
use watchkeeper.Store.Audit.{about, history}
use watchkeeper.Store.Dispatch.{
  dispatch_not_authorized, dispatch_event, authorized_row, is_claimed, authorize_dispatch_body,
  authorize_dispatch,
}
use watchkeeper.Store.Claims.{
  claim_event, insert_attempt, claimed_row, highest_attempt, next_attempt, ids, sorted,
  insert_sorted, claim_before, is_due, in_scope, eligible, select_work, claim_one, claim_each,
  claim_body, claim_recovery_for_workflow,
}
use watchkeeper.Store.Manual.{
  manual_event, manual_decision, manual_row, manual_target, manual_resolve_body, manual_resolve,
  resolved_time, decision_exists, insert_decision,
}
use watchkeeper.Store.Retry.{
  retry_event, retried_row, begin_retry_body, begin_retry, request_event, requested_row,
  request_reconciliation_body, request_reconciliation,
}
use watchkeeper.Store.Audit.Lifecycle.{EventMoves, untouched}
use watchkeeper.Store.Audit.Lifecycle.Theorems.{history-moves}
use watchkeeper.Store.Confirm.{conflict_error}
use watchkeeper.Store.Calls.{
  retries, resolves, requests, submits, claims, perform, Call, serve, prepares, authorizes,
}

history_quiet : untouched (history 103 (serve empty_db prepared_then_authorized)) ≡ true
unfolding serve perform prepare run prepare_body ensure_workflow new_id draw exec query required
    reject_if throw pure ◌>>=◌ insert_workflow find_external strategy_eq now ask prepare_insert
    statement insert_operation find_natural find prepared_row prepare_inserted append_event
    with_event stamp intent_event get_operation_tx joined find_workflow found_operation
    scan_operation unavailable_error trace_or_empty get_operation_for_update update_operation put
    row_checks state_eq authorize_dispatch authorize_dispatch_body is_claimed authorized_row
    dispatch_event dispatch_not_authorized untouched history about select
history_quiet = refl

history-moves_example : All EventMoves (history 103 (serve empty_db prepared_then_authorized))
history-moves_example = history-moves prepared_then_authorized 103 history_quiet

abbrev absent_by_hand : ManualResolution
absent_by_hand = record {
  expected_version = 6;
  actor = "operator";
  outcome = "absent";
  reason = "checked";
  evidence_reference = "ticket";
}

-- An uncertain operation that a coordinator holds when an operator resolves it as absent.
abbrev resolved_under_lease : List (World × Call)
resolved_under_lease =
    (calm 1000 100, prepares email_request)
    ∷ (calm 2000 200, authorizes 103 1)
    ∷ (calm 5000 300, claims "worker" 10 30_000_000 0 "")
    ∷ (calm 6000 400, submits 103 contradiction)
    ∷ (calm 7000 500, requests 103 4 "operator" "again")
    ∷ (calm 8000 600, claims "worker" 10 30_000_000 0 "")
    ∷ (calm 9000 700, resolves 103 absent_by_hand)
    ∷ (calm 10_000 800, retries 103 7 "safe_recovery_retry")
    ∷ []

-- The lease outlives the resolution and the retry: a day later the new attempt is still not sent.
attempt_blocked :
    (authorize_dispatch 103 8 (calm 86_400_000_000 900) (serve empty_db resolved_under_lease)).0
    ≡ err dispatch_not_authorized
unfolding serve perform prepare run prepare_body ensure_workflow new_id draw exec query required
    reject_if throw pure ◌>>=◌ insert_workflow find_external strategy_eq now ask prepare_insert
    statement insert_operation find_natural find prepared_row prepare_inserted append_event
    with_event stamp intent_event get_operation_tx joined find_workflow found_operation
    scan_operation unavailable_error trace_or_empty get_operation_for_update update_operation put
    row_checks state_eq authorize_dispatch authorize_dispatch_body is_claimed authorized_row
    dispatch_event dispatch_not_authorized claim_recovery_for_workflow claim_body claim_each
    claim_one select_work eligible in_scope is_due claim_before insert_sorted sorted ids
    next_attempt highest_attempt claimed_row insert_attempt claim_event select returned
    submit_recovery_result submit_body valid_observation valid_mechanism valid_outcome holds_lease
    find_attempt finish_attempt insert_observation apply_verdict decide_result backoff result_row
    next_check record_decision result_decision insert_decision decision_exists result_event
    resolved_time lease_lost request_reconciliation request_reconciliation_body requested_row
    request_event manual_resolve manual_resolve_body manual_target manual_row manual_decision
    manual_event begin_retry begin_retry_body retried_row retry_event conflict_error
attempt_blocked = refl
