-- ===== src/Client/Tests.antt =====
-- A client that is connected to a server, and the theorem at them.
use watchkeeper.Prelude.{sym, subst, arith}
use watchkeeper.Domain.Types.{Operation, Error, ok, err}
use watchkeeper.Api.Http.{Body, operation_body}
use watchkeeper.Store.Retry.{begin_retry_body}
use watchkeeper.Store.Confirm.{conflict_error}
use watchkeeper.Store.Rows.{row_checks}
use watchkeeper.Store.Calls.{perform}
use watchkeeper.Store.Queries.{find_receipt}
use watchkeeper.Store.Tables.{put, find_workflow, find}
use watchkeeper.Store.Tx.{
  unavailable_error, statement, ask, now, ◌>>=◌, pure, throw, reject_if, required, query, exec,
  draw, new_id, run,
}
use watchkeeper.Domain.State.{state_eq}
use watchkeeper.Store.Prepare.{
  trace_or_empty, intent_event, prepare_inserted, prepared_row, find_natural, insert_operation,
  prepare_insert, strategy_eq, find_external, insert_workflow, ensure_workflow, prepare_body,
  prepare,
}
use watchkeeper.Store.Queries.{
  update_operation, get_operation_for_update, scan_operation, found_operation, joined,
  get_operation_tx, stamp, with_event, append_event,
}
use watchkeeper.Prelude.{◌≡◌, refl, none, some}
use watchkeeper.Store.Rows.{empty_db}
use watchkeeper.Store.Dispatch.{authorize_dispatch}
use watchkeeper.Store.Calls.{serve}
use watchkeeper.Prelude.{pos, str_eq, if◌then◌else◌, Option, String}
use watchkeeper.Store.Tests.{first_row, first_workflow, sent_row, authorize_ok, calm, only_prepared}
use watchkeeper.Store.Retry.{begin_retry}
use watchkeeper.Store.Pages.{get_operation}
use watchkeeper.Api.Http.{single}
use watchkeeper.Api.Payloads.{Formats}
use watchkeeper.Api.Server.{
  Server, Endpoint, post_dispatches, post_attempts, get_one_operation, pattern, new_server,
}
use watchkeeper.Api.Tests.{toy_formats, at}
use watchkeeper.Client.{Client, call_authorize_dispatch, call_begin_retry, call_get_operation}
use watchkeeper.Client.Wire.{Delivered, envelope_of, Wire, Faithful, connected, as_called}
use watchkeeper.Client.RoundTrip.{dispatch_payload, retry_payload, calls-store}

-- The three paths of one identifier.
abbrev toy_route : String → String → Option (Endpoint × String)
toy_route method url =
    if str_eq url "http://wk/v1/operations/id/dispatches"
    then some (post_dispatches, "id")
    else if str_eq url "http://wk/v1/operations/id/attempts"
    then some (post_attempts, "id")
    else if str_eq url "http://wk/v1/operations/id"
    then some (get_one_operation, "id")
    else none

-- The operation as it is prepared, and after its dispatch is authorized.
abbrev fresh_one : Operation
unfolding scan_operation
fresh_one = scan_operation first_row first_workflow

abbrev sent : Operation
unfolding scan_operation
sent = scan_operation sent_row first_workflow

abbrev not_retryable : Error
unfolding conflict_error
not_retryable =
    conflict_error "operation_state_conflict" "only a retryable operation can begin another attempt"

abbrev toy_answer : Body → String
toy_answer (operation_body op) = if op.dispatch_authorized then "sent" else "prepared"
toy_answer _ = "error"

abbrev toy_wire : Wire
toy_wire = record {
  encode = λ b. "{}";
  escape = λ s. s;
  route = λ method url. toy_route method url;
  query = λ url name. "";
  encode_query = λ pairs. "";
  format_time = λ t. "";
  itoa = λ n. "";
  encode_answer = λ body. toy_answer body;
  not_found_text = "";
  read_envelope = λ text. envelope_of "fresh" not_retryable;
  read_operation = λ text. if str_eq text "sent" then some sent else some fresh_one;
  read_operations = λ text. none;
  read_events = λ text. none;
  read_claims = λ text. none;
  read_lease = λ text. none;
}

abbrev formats : Formats
formats = record toy_formats { decode_version_reason = λ s. single (retry_payload (pos 1) "r") }

abbrev server : Server
unfolding new_server
server = new_server formats "token" "admin"

abbrev client : Client
client = record { base_url = "http://wk"; token = "token" }

toy_wire-Faithful :
    Faithful formats toy_wire "http://wk" "id"
      (dispatch_payload (pos 1))
      (retry_payload (pos 1) "r")
unfolding pattern
toy_wire-Faithful = record {
  routes_dispatch = refl;
  routes_retry = refl;
  routes_get = refl;
  reads_dispatch = refl;
  reads_retry = refl;
}

same_token : client.token ≡ server.auth_token
unfolding server scan_operation
same_token = refl

retry_refused :
    (begin_retry 103 1 "r" (calm 2000 200) (serve empty_db only_prepared)).0 ≡ err not_retryable
unfolding serve perform prepare run prepare_body ensure_workflow new_id draw exec query required
    reject_if throw pure ◌>>=◌ insert_workflow find_external strategy_eq now ask prepare_insert
    statement insert_operation find_natural find prepared_row prepare_inserted append_event
    with_event stamp intent_event get_operation_tx joined find_workflow found_operation
    scan_operation unavailable_error trace_or_empty get_operation_for_update update_operation put
    row_checks state_eq begin_retry begin_retry_body conflict_error get_operation find_receipt
retry_refused = refl

prepared_read : get_operation 103 (calm 2000 200) (serve empty_db only_prepared) ≡ ok fresh_one
unfolding serve perform prepare run prepare_body ensure_workflow new_id draw exec query required
    reject_if throw pure ◌>>=◌ insert_workflow find_external strategy_eq now ask prepare_insert
    statement insert_operation find_natural find prepared_row prepare_inserted append_event
    with_event stamp intent_event get_operation_tx joined find_workflow found_operation
    scan_operation unavailable_error trace_or_empty get_operation_for_update update_operation put
    row_checks state_eq begin_retry begin_retry_body conflict_error get_operation find_receipt
prepared_read = refl

calls-store_example :
    (call_authorize_dispatch
        (connected server toy_wire (at 2000 200))
        client
        "id"
        (pos 1)
        (serve empty_db only_prepared)
      ≡ as_called "fresh" (authorize_dispatch 103 1 (calm 2000 200) (serve empty_db only_prepared)))
    × (call_begin_retry
          (connected server toy_wire (at 2000 200))
          client
          "id"
          (pos 1)
          "r"
          (serve empty_db only_prepared)
        ≡ as_called "fresh" (begin_retry 103 1 "r" (calm 2000 200) (serve empty_db only_prepared)))
    × (call_get_operation
          (connected server toy_wire (at 2000 200))
          client
          "id"
          (serve empty_db only_prepared)
        ≡ as_called "fresh" (
          get_operation 103 (calm 2000 200) (serve empty_db only_prepared),
          serve empty_db only_prepared,
        ))
unfolding server scan_operation
calls-store_example =
    calls-store server toy_wire (at 2000 200) client "id" 103 (serve empty_db only_prepared) (pos 1)
      "r" toy_wire-Faithful same_token refl refl refl
      (subst (Delivered toy_wire "fresh") (sym authorize_ok) (omega arith, refl))
      (subst (Delivered toy_wire "fresh") (sym retry_refused) (omega arith, refl))
      (subst (Delivered toy_wire "fresh") (sym prepared_read) (omega arith, refl))
