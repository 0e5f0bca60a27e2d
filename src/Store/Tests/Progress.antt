-- ===== src/Store/Tests/Progress.antt =====
-- A run without faults, a confirmation that is repeated, and their theorems at those.
use watchkeeper.Prelude.{◌≡◌, refl, none}
use watchkeeper.Store.Rows.{row_checks, empty_db}
use watchkeeper.Store.Tables.{put, find_workflow, find}
use watchkeeper.Store.Tx.{
  unavailable_error, statement, ask, now, ◌>>=◌, pure, throw, reject_if, required, query, exec,
  draw, new_id, run,
}
use watchkeeper.Domain.State.{state_eq}
use watchkeeper.Store.Prepare.{
  trace_or_empty, intent_event, prepare_inserted, prepared_row, find_natural, insert_operation,
  prepare_insert, strategy_eq, find_external, insert_workflow, ensure_workflow, prepare_body,
  prepare,
}
use watchkeeper.Store.Queries.{
  update_operation, get_operation_for_update, scan_operation, found_operation, joined,
  get_operation_tx, stamp, with_event, append_event,
}
use watchkeeper.Store.Dispatch.{authorize_dispatch}
use watchkeeper.Store.Calls.{perform, serve}
use watchkeeper.Store.Tests.{toy_codec, calm, only_prepared, first_row, first_workflow}
use watchkeeper.Domain.Types.{ConfirmRequest}
use watchkeeper.Domain.Fingerprint.{receipt_fingerprint, canonical_json, encoded}
use watchkeeper.Store.Queries.{find_receipt}
use watchkeeper.Store.Confirm.{confirm}
use watchkeeper.Prelude.{ℕ, ◌⊎◌, arith}
use watchkeeper.Domain.State.{confirmed}
use watchkeeper.Store.Progress.{Quiet, Answers}
use watchkeeper.Store.Progress.Dispatch.{Grantable}
use watchkeeper.Store.Progress.Run.{grant-confirm}
use watchkeeper.Store.Progress.Repeat.{confirm-repeat}

calm-Quiet : (time seed : ℕ) → Quiet (calm time seed)
calm-Quiet time seed = record { calls = λ n. refl; commits = refl; ids = λ n. (_, refl) }

abbrev request : ConfirmRequest
request = record {
  expected_version = 2;
  service_receipt_id = "receipt";
  receipt = "{}";
  received_at = 2500;
}

first_row-Grantable : Grantable 103 first_row first_workflow (serve empty_db only_prepared)
unfolding serve perform prepare run prepare_body ensure_workflow new_id draw exec query required
    reject_if throw pure ◌>>=◌ insert_workflow find_external strategy_eq now ask prepare_insert
    statement insert_operation find_natural find prepared_row prepare_inserted append_event
    with_event stamp intent_event get_operation_tx joined find_workflow found_operation
    scan_operation unavailable_error trace_or_empty get_operation_for_update update_operation put
    row_checks state_eq
first_row-Grantable = record {
  found = refl;
  of_workflow = refl;
  state = refl;
  unsent = refl;
  unclaimed = refl;
  version_fits = omega arith;
  attempts_fit = omega arith;
}

without_receipt : find_receipt 103 (serve empty_db only_prepared).receipts ≡ none
unfolding find_receipt serve perform prepare run prepare_body ensure_workflow new_id draw exec query
    required reject_if throw pure ◌>>=◌ insert_workflow find_external strategy_eq now ask
    prepare_insert statement insert_operation find_natural find prepared_row prepare_inserted
    append_event with_event stamp intent_event get_operation_tx joined find_workflow found_operation
    scan_operation unavailable_error trace_or_empty get_operation_for_update update_operation put
    row_checks state_eq
without_receipt = refl

printed : receipt_fingerprint toy_codec "{}" ≡ encoded "null"
unfolding receipt_fingerprint canonical_json
printed = refl

grant-confirm_example :
    Answers (authorize_dispatch 103 1 (calm 2000 200) (serve empty_db only_prepared)) (λ grant new.
      Answers
        (confirm 103 request (calm 3000 300) new)
        (λ op last. (grant.version ≡ 2) × (op.state ≡ confirmed)))
grant-confirm_example =
    grant-confirm 103 request "null" first_row first_workflow (calm 2000 200) (calm 3000 300)
      (serve empty_db only_prepared) (calm-Quiet 2000 200) (calm-Quiet 3000 300) first_row-Grantable
      without_receipt (omega arith) refl printed

confirm-repeat_example :
    ((confirm 103 request (calm 2000 200) (serve empty_db only_prepared)).1
      ≡ serve empty_db only_prepared)
    ⊎ Answers
        (confirm 103 request
          (calm 3000 300)
          (confirm 103 request (calm 2000 200) (serve empty_db only_prepared)).1)
        (λ op new. new ≡ (confirm 103 request (calm 2000 200) (serve empty_db only_prepared)).1)
confirm-repeat_example =
    confirm-repeat 103 request "null" (calm 2000 200) (calm 3000 300) (serve empty_db only_prepared)
      printed printed (calm-Quiet 3000 300)
