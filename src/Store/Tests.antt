-- ===== src/Store/Tests.antt =====
-- Runs of the store at concrete inputs, and the theorems of the store at those.
mod Results
mod Lifecycle
mod Pages
mod Progress
use watchkeeper.Prelude.{
  ◌<◌, All, select, ◌⊎◌, ◌≢◌, ℕ, ◌+◌, ◌≡◌, ◌≤◌, refl, String, true, false, none, some, List, [],
  ◌∷◌, str_eq, if◌then◌else◌,
}
use watchkeeper.Store.Rows.{row_checks, OperationRow, WorkflowRow, empty_db}
use watchkeeper.Store.Tables.{put, find_workflow, find}
use watchkeeper.Domain.Fingerprint.{
  fingerprint, receipt_fingerprint, encoded, canonical_json, null, value, end_of_input, Codec,
  Decoded,
}
use watchkeeper.Domain.Types.{
  completed, err, contradictory, ManualResolution, unknown, idempotent_repeat, transient_error, ok,
  status_lookup, RecoveryResult, PrepareRequest,
}
use watchkeeper.Store.Tx.{
  returned, unavailable_error, statement, ask, now, ◌>>=◌, pure, throw, reject_if, required, query,
  exec, draw, new_id, run, committed, World,
}
use watchkeeper.Domain.State.{reconciled, state_eq, retryable, prepared, watchkeeper_strategy}
use watchkeeper.Store.Prepare.{
  trace_or_empty, intent_event, prepare_inserted, prepared_row, find_natural, insert_operation,
  prepare_insert, strategy_eq, find_external, insert_workflow, ensure_workflow, prepare_body,
  prepare,
}
use watchkeeper.Store.Queries.{
  update_operation, get_operation_for_update, scan_operation, found_operation, joined,
  get_operation_tx, stamp, with_event, append_event,
}
use watchkeeper.Store.Audit.Replay.{count_from, versions}
use watchkeeper.Store.Results.{
  lease_lost, result_event, result_decision, record_decision, next_check, result_row, backoff,
  decide_result, apply_verdict, insert_observation, finish_attempt, find_attempt, holds_lease,
  valid_outcome, valid_mechanism, valid_observation, submit_body, submit_recovery_result,
}
use watchkeeper.Store.Audit.{about, trail, unopened, history, replay, grants}
use watchkeeper.Store.Dispatch.{
  dispatch_not_authorized, dispatch_event, authorized_row, is_claimed, authorize_dispatch_body,
  authorize_dispatch,
}
use watchkeeper.Store.Audit.Attempts.{starts, grants_in}
use watchkeeper.Store.Audit.Theorems.{replay-history, versions-history, grants-attempts}
use watchkeeper.Store.Dispatch.Granted.{authorize-once, authorize-grant}
use watchkeeper.Store.Results.Theorems.{
  submit-backoff, submit-proof, submit-safe_retry, submit-once,
}
use watchkeeper.Store.Claims.{
  claim_event, insert_attempt, claimed_row, highest_attempt, next_attempt, ids, sorted,
  insert_sorted, claim_before, is_due, in_scope, eligible, select_work, claim_one, claim_each,
  claim_body, claim_recovery_for_workflow,
}
use watchkeeper.Store.Manual.{
  manual_event, manual_decision, manual_row, manual_target, manual_resolve_body, manual_resolve,
  resolved_time, decision_exists, insert_decision,
}
use watchkeeper.Domain.Fingerprint.Theorems.{fingerprint-canonical, IsOneValue}
use watchkeeper.Store.Retry.{
  retry_event, retried_row, begin_retry_body, begin_retry, request_event, requested_row,
  request_reconciliation_body, request_reconciliation,
}
use watchkeeper.Store.Audit.Lifecycle.{EventMoves, untouched}
use watchkeeper.Store.Audit.Lifecycle.Theorems.{history-moves}
use watchkeeper.Store.Confirm.{conflict_error}
use watchkeeper.Store.Calls.{
  retries, resolves, requests, submits, claims, perform, Call, serve, prepares, authorizes,
}

abbrev toy_decode : String → Decoded
toy_decode s = if str_eq s "" then end_of_input else value null ""

-- JSON in which every text is the one value, and a sum that keeps the text.
abbrev pub toy_codec : Codec
toy_codec = record { decode = toy_decode; marshal = λ v. encoded "null"; sha256_hex = λ s. s }

-- A quiet database at a time, with identifiers from a number on.
abbrev pub calm : ℕ → ℕ → World
calm time seed = record {
  now = time;
  fails = λ n. false;
  commit = committed;
  new_id = λ n. some (seed + n);
  random_token = λ n. some "token";
  codec = toy_codec;
  locked = λ id. false;
}

abbrev pub email_request : PrepareRequest
email_request = record {
  workflow_id = "wf";
  strategy = watchkeeper_strategy;
  experiment_run_id = none;
  logical_key = "k";
  target_service = "email";
  action = "send";
  request_fingerprint = "f";
  expected_effect = "{}";
  capability_profile = "receipt_status";
  trace_context = "";
}

abbrev pub only_prepared : List (World × Call)
only_prepared = (calm 1000 100, prepares email_request) ∷ []

abbrev pub prepared_then_authorized : List (World × Call)
prepared_then_authorized =
    (calm 1000 100, prepares email_request) ∷ (calm 2000 200, authorizes 103 1) ∷ []

abbrev prepared_then_claimed : List (World × Call)
prepared_then_claimed =
    (calm 1000 100, prepares email_request)
    ∷ (calm 5000 200, claims "worker" 10 30_000_000 0 "")
    ∷ []

abbrev pub first_row : OperationRow
first_row = record {
  id = 103;
  workflow_id = 101;
  logical_key = "k";
  target_service = "email";
  action = "send";
  request_fingerprint = "f";
  expected_effect = "{}";
  capability_profile = "receipt_status";
  state = prepared;
  attempt_count = 1;
  version = 1;
  prepared_at = 1000;
  confirmed_at = none;
  resolved_at = none;
  next_reconcile_at = none;
  lease = none;
  trace_context = "{}";
  created_at = 1000;
  updated_at = 1000;
  dispatch_authorized = false;
}

abbrev pub first_workflow : WorkflowRow
first_workflow = record {
  id = 101;
  external_workflow_id = "wf";
  strategy = watchkeeper_strategy;
  experiment_run_id = none;
}

abbrev pub sent_row : OperationRow
sent_row = record first_row { version = 2; updated_at = 2000; dispatch_authorized = true }

prepared_row_there : find 103 (serve empty_db only_prepared).operations ≡ some first_row
unfolding serve perform prepare run prepare_body ensure_workflow new_id draw exec query required
    reject_if throw pure ◌>>=◌ insert_workflow find_external strategy_eq now ask prepare_insert
    statement insert_operation find_natural find prepared_row prepare_inserted append_event
    with_event stamp intent_event get_operation_tx joined find_workflow found_operation
    scan_operation unavailable_error trace_or_empty get_operation_for_update update_operation put
    row_checks state_eq
prepared_row_there = refl

authorized_row_there : find 103 (serve empty_db prepared_then_authorized).operations ≡ some sent_row
unfolding serve perform prepare run prepare_body ensure_workflow new_id draw exec query required
    reject_if throw pure ◌>>=◌ insert_workflow find_external strategy_eq now ask prepare_insert
    statement insert_operation find_natural find prepared_row prepare_inserted append_event
    with_event stamp intent_event get_operation_tx joined find_workflow found_operation
    scan_operation unavailable_error trace_or_empty get_operation_for_update update_operation put
    row_checks state_eq authorize_dispatch authorize_dispatch_body is_claimed authorized_row
    dispatch_event dispatch_not_authorized
authorized_row_there = refl

replay-history_example :
    replay unopened (history 103 (serve empty_db prepared_then_authorized))
    ≡ trail (find 103 (serve empty_db prepared_then_authorized).operations)
replay-history_example = replay-history prepared_then_authorized 103

grants-attempts_example :
    (starts (history 103 (serve empty_db prepared_then_authorized)) ≡ 1)
    × (grants_in 0 1 (history 103 (serve empty_db prepared_then_authorized)) ≤ 1)
    × (grants_in 0 1 (history 103 (serve empty_db prepared_then_authorized)) ≡ 1)
    × (grants (history 103 (serve empty_db prepared_then_authorized)) + 0 ≤ 1)
grants-attempts_example =
    grants-attempts prepared_then_authorized 103 sent_row 1 authorized_row_there

versions-history_example :
    versions (history 103 (serve empty_db prepared_then_authorized)) ≡ count_from 1 2
versions-history_example =
    versions-history prepared_then_authorized 103 sent_row authorized_row_there

pub authorize_ok :
    (authorize_dispatch 103 1 (calm 2000 200) (serve empty_db only_prepared)).0
    ≡ ok (scan_operation sent_row first_workflow)
unfolding serve perform prepare run prepare_body ensure_workflow new_id draw exec query required
    reject_if throw pure ◌>>=◌ insert_workflow find_external strategy_eq now ask prepare_insert
    statement insert_operation find_natural find prepared_row prepare_inserted append_event
    with_event stamp intent_event get_operation_tx joined find_workflow found_operation
    scan_operation unavailable_error trace_or_empty get_operation_for_update update_operation put
    row_checks state_eq authorize_dispatch authorize_dispatch_body is_claimed authorized_row
    dispatch_event dispatch_not_authorized
authorize_ok = refl

authorize-grant_example :
    (old : OperationRow) × (find 103 (serve empty_db only_prepared).operations ≡ some old)
    × (old.state ≡ prepared)
    × (old.lease ≡ none)
    × (old.version ≡ 1)
    × (old.dispatch_authorized ≡ false)
    × (find 103
          (authorize_dispatch 103 1 (calm 2000 200) (serve empty_db only_prepared)).1.operations
        ≡ some (record old { dispatch_authorized = true; version = 2; updated_at = 2000 }))
authorize-grant_example =
    authorize-grant 103 1 (calm 2000 200) (serve empty_db only_prepared) _ authorize_ok

authorize-once_example :
    (authorize_dispatch 103 2
      (calm 3000 300)
      (authorize_dispatch 103 1 (calm 2000 200) (serve empty_db only_prepared)).1).0
    ≢ ok (scan_operation sent_row first_workflow)
authorize-once_example =
    authorize-once 103 1 2 (calm 2000 200) (calm 3000 300) (serve empty_db only_prepared) _
      (scan_operation sent_row first_workflow) authorize_ok

abbrev one_value : (s : String) → str_eq s "" ≡ false → IsOneValue toy_codec s null
one_value s h = record { non_empty = h; rest = ""; decoded = rw h refl; ended = refl }

fingerprint-canonical_example :
    (canonical_json toy_codec "1" ≡ canonical_json toy_codec " 1")
    × (receipt_fingerprint toy_codec "1" ≡ receipt_fingerprint toy_codec " 1")
    × ((service action : String)
        → fingerprint toy_codec service action "1" ≡ fingerprint toy_codec service action " 1")
fingerprint-canonical_example =
    fingerprint-canonical toy_codec "1" " 1" null (one_value "1" refl) (one_value " 1" refl)

-- Evidence of two effects.
abbrev contradiction : RecoveryResult
contradiction = record {
  claim_token = "token";
  expected_version = 3;
  attempt_id = 302;
  observation = record {
    mechanism = status_lookup;
    outcome = contradictory;
    authoritative = false;
    external_reference = "";
    evidence = "{}";
  };
}
