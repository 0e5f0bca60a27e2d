-- ===== src/Api/Tests.antt =====
-- The server at concrete requests, and the theorems of the server at those.
use watchkeeper.Prelude.{
  ℕ, ◌≤◌, ◌≡◌, refl, arith, String, true, none, some, List, [], ◌∷◌, not, pos, str_eq,
  if◌then◌else◌,
}
use watchkeeper.Domain.State.{valid_strategy}
use watchkeeper.Api.Http.{
  ◌>>=◌ as ◌>>>=◌, unless, or_answer, invalid, malformed, single, decode_json, write_json,
  write_error,
}
use watchkeeper.Api.Payloads.{Formats, Request, PreparePayload, validate_prepare}
use watchkeeper.Api.Server.{
  Server, Moment, guard, authenticate, dispatch, identified, handle, unauthorized, post_operations,
  get_operations, get_events, post_dispatches, post_claims,
}
use watchkeeper.Api.Operations.{prepare_handler, authorize_dispatch_handler}
use watchkeeper.Api.Http.{error_status}
use watchkeeper.Store.Rows.{row_checks, empty_db}
use watchkeeper.Store.Tables.{put, find_workflow, find}
use watchkeeper.Store.Tx.{
  unavailable_error, statement, ask, now, ◌>>=◌, pure, throw, reject_if, required, query, exec,
  draw, new_id, run,
}
use watchkeeper.Domain.State.{state_eq, watchkeeper_strategy}
use watchkeeper.Store.Prepare.{
  trace_or_empty, intent_event, prepare_inserted, prepared_row, find_natural, insert_operation,
  prepare_insert, strategy_eq, find_external, insert_workflow, ensure_workflow, prepare_body,
  prepare,
}
use watchkeeper.Store.Queries.{
  update_operation, get_operation_for_update, scan_operation, found_operation, joined,
  get_operation_tx, stamp, with_event, append_event,
}
use watchkeeper.Store.Dispatch.{
  dispatch_not_authorized, dispatch_event, authorized_row, is_claimed, authorize_dispatch_body,
  authorize_dispatch,
}
use watchkeeper.Store.Tests.{calm, first_row}
use watchkeeper.Domain.Fingerprint.{canonical_json, fingerprint, request_value}
use watchkeeper.Store.Rows.{OperationRow}
use watchkeeper.Api.Server.{new_server}
use watchkeeper.Api.Checks.{listed}
use watchkeeper.Api.Calls.{Visit, visited}
use watchkeeper.Api.Follows.{Follows}
use watchkeeper.Api.Refusals.{handle-refused}
use watchkeeper.Store.Audit.Attempts.{starts}
use watchkeeper.Store.Audit.{history}
use watchkeeper.Api.Grants.{granted_answers, answers-attempts}
use watchkeeper.Api.Sizes.{handle-listed}

abbrev email_payload : PreparePayload
email_payload = record {
  workflow_id = "wf";
  strategy = watchkeeper_strategy;
  experiment_run_id = none;
  logical_key = "k";
  target_service = "email";
  action = "send";
  request = "{}";
  request_fingerprint = "";
  expected_effect = "{}";
  capability_profile = "receipt_status";
  trace_context = "";
}

-- Formats that read every body as one payload, and one text as an identifier.
abbrev pub toy_formats : Formats
toy_formats = record {
  parse_uuid = λ s. if str_eq s "id" then some 103 else none;
  parse_time = λ s. none;
  equal_fold = λ a b. str_eq a b;
  is_object = λ s. not (str_eq s "");
  decode_version_reason = λ s. malformed "";
  decode_claim = λ s. malformed "";
  decode_renew = λ s. malformed "";
  decode_recovery_result = λ s. malformed "";
  decode_manual = λ s. malformed "";
  decode_prepare = λ s. single email_payload;
  decode_confirm = λ s. malformed "";
  decode_dispatch = λ s. single (record { expected_version = pos 1 });
  events = record {
    encode_id = λ n. "next";
    decode_id = λ s. some 1;
    decode_message = λ s. "invalid event cursor";
  };
  operations = record {
    encode_operation = λ c. "next";
    decode_operation = λ s. none;
    operation_message = λ s. "parse cursor";
    cast_uuid = λ s. some 0;
  };
}

abbrev server : Server
unfolding new_server
server = new_server toy_formats "token" "admin"

abbrev request_with : String → Request
request_with authorization = record {
  request_id = "r";
  authorization = authorization;
  operation_id = "id";
  body = "{}";
  query_limit = "";
  query_cursor = "";
  query_workflow_id = "";
  query_state = "";
  query_target_service = "";
  query_created_after = "";
}

abbrev pub at : ℕ → ℕ → Moment
at time seed = record {
  clock = time;
  fresh_id = "fresh";
  schema = record {
    operations = "operations";
    events = "operation_events";
    migrations = "goose_db_version";
    version = some 3;
  };
  world = calm time seed;
}

-- A preparation, its dispatch, and the same dispatch again, which is refused.
abbrev prepared_then_sent : List Visit
prepared_then_sent =
    record {
      moment = at 1000 100;
      endpoint = post_operations;
      request = request_with "Bearer token";
    }
    ∷ record {
      moment = at 2000 200;
      endpoint = post_dispatches;
      request = request_with "Bearer token";
    }
    ∷ record {
      moment = at 3000 300;
      endpoint = post_dispatches;
      request = request_with "Bearer token";
    }
    ∷ []

abbrev served_row : OperationRow
served_row = record first_row {
  request_fingerprint = "null";
  version = 2;
  updated_at = 2000;
  dispatch_authorized = true;
}

served_row_there :
    find 103 (visited server empty_db prepared_then_sent).operations ≡ some served_row
unfolding visited handle guard dispatch identified authenticate new_server prepare_handler
    authorize_dispatch_handler ◌>>>=◌ unless or_answer decode_json validate_prepare valid_strategy
    fingerprint canonical_json request_value prepare run prepare_body ensure_workflow new_id draw
    exec query required reject_if throw pure ◌>>=◌ insert_workflow find_external strategy_eq now ask
    prepare_insert statement insert_operation find_natural find prepared_row prepare_inserted
    append_event with_event stamp intent_event get_operation_tx joined find_workflow found_operation
    scan_operation unavailable_error trace_or_empty get_operation_for_update update_operation put
    row_checks state_eq authorize_dispatch authorize_dispatch_body is_claimed authorized_row
    dispatch_event dispatch_not_authorized
served_row_there = refl

answers-attempts_example :
    (granted_answers server 103 empty_db prepared_then_sent ≤ 1)
    × (starts (history 103 (visited server empty_db prepared_then_sent)) ≡ 1)
answers-attempts_example =
    answers-attempts server prepared_then_sent 103 served_row served_row_there

-- A dispatch with the wrong token.
refused_status :
    (handle server
      (at 2000 200)
      post_dispatches
      (request_with "Bearer other")
      (visited server empty_db prepared_then_sent)).0.status
    ≡ 401
unfolding handle guard identified authenticate new_server unauthorized invalid write_error
    write_json error_status
refused_status = refl

handle-refused_example :
    (handle server
      (at 2000 200)
      post_dispatches
      (request_with "Bearer other")
      (visited server empty_db prepared_then_sent)).1
    ≡ visited server empty_db prepared_then_sent
handle-refused_example =
    handle-refused server (at 2000 200) post_dispatches (request_with "Bearer other")
      (visited server empty_db prepared_then_sent) (omega (arith, refused_status))
      (omega (arith, refused_status))

handle-listed_example :
    (listed
        (handle server (at 2000 200) get_operations (request_with "Bearer token") empty_db).0.body
      ≤ 200)
    × (listed (handle server (at 2000 200) get_events (request_with "Bearer token") empty_db).0.body
        ≤ 200)
    × (listed
          (handle server (at 2000 200) post_claims (request_with "Bearer token") empty_db).0.body
        ≤ 100)
handle-listed_example = handle-listed server (at 2000 200) (request_with "Bearer token") empty_db
