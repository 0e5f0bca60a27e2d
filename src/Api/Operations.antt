-- ===== src/Api/Operations.antt =====
-- The handlers of internal/api/server.go that the public token opens, `authorizeDispatch` among them,
-- and those of health checks, which no token guards.
use watchkeeper.Prelude.{
  is_some, ℕ, String, Bool, Option, none, some, ◌&&◌, ◌||◌, not, below_one, magnitude, str_eq,
  if◌then◌else◌,
}
use watchkeeper.Domain.State.{valid_state, parse_state}
use watchkeeper.Domain.Types.{
  Uuid, Time, Error, Result, ok, err, Operation, PrepareRequest, ConfirmRequest, OperationFilter,
}
use watchkeeper.Api.Http.{
  Response, Checked, answered, passed, ◌>>=◌, ◌>>◌, unless, invalid, decode_json, finished, checked,
  write_json, write_error, operations_body, events_body, health_body,
}
use watchkeeper.Store.Rows.{Db}
use watchkeeper.Store.Tx.{World}
use watchkeeper.Api.Payloads.{
  path_id, operation_with, DispatchPayload, Formats, Request, PreparePayload, parse_limit,
  validate_prepare,
}
use watchkeeper.Domain.Fingerprint.{Codec, Encoded, encoded, failed, fingerprint}
use watchkeeper.Store.Prepare.{prepare}
use watchkeeper.Store.Confirm.{confirm}
use watchkeeper.Store.Dispatch.{authorize_dispatch}
use watchkeeper.Store.Pages.{get_operation, list_events}
use watchkeeper.Store.Schema.{Schema, ping, schema_ready}
use watchkeeper.Store.Listing.{list_operations}

abbrev pub passes_checks : String → Option Error → Checked (Unit {0})
passes_checks request_id none = passed tt
passes_checks request_id (some e) = answered (write_error request_id e)

abbrev pub fingerprinted : String → Encoded → Checked String
fingerprinted request_id (encoded text) = passed text
fingerprinted request_id (failed message) = answered (invalid request_id "invalid_request" message)

abbrev pub limited : String → Result ℕ → Checked ℕ
limited request_id (ok n) = passed n
limited request_id (err e) = answered (write_error request_id e)

abbrev pub request_of : PreparePayload → String → PrepareRequest
request_of p fingerprint = record {
  workflow_id = p.workflow_id;
  strategy = p.strategy;
  experiment_run_id = p.experiment_run_id;
  logical_key = p.logical_key;
  target_service = p.target_service;
  action = p.action;
  request_fingerprint = fingerprint;
  expected_effect = p.expected_effect;
  capability_profile = p.capability_profile;
  trace_context = p.trace_context;
}

abbrev pub prepared_with : Operation × Bool → Response
prepared_with (op, created) = operation_with (if created then 201 else 200) op

abbrev time_or : Time → Option Time → Time
time_or clock none = clock
time_or clock (some t) = t

module _ (f : Formats) (r : Request) where
  abbrev pub prepare_checks : Codec → Checked PrepareRequest
  prepare_checks codec = do
    p ← decode_json r.request_id (f.decode_prepare r.body)
    passes_checks r.request_id (validate_prepare f p)
    text ← fingerprinted r.request_id (fingerprint codec p.target_service p.action p.request)
    unless (not (str_eq p.request_fingerprint "") && not (f.equal_fold p.request_fingerprint text))
        (invalid r.request_id "request_fingerprint_mismatch"
          "request_fingerprint does not match the canonical request")
    passed (request_of p text)

  unfoldable pub prepare_handler : World → Db → Response × Db
  prepare_handler w db =
      checked (prepare_checks w.codec) db
        λ request. finished r.request_id prepared_with (prepare request w db)

  abbrev pub confirm_checks : Time → Checked (Uuid × ConfirmRequest)
  confirm_checks clock = do
    id ← path_id f r
    p ← decode_json r.request_id (f.decode_confirm r.body)
    unless (below_one p.expected_version || str_eq p.service_receipt_id "" || str_eq p.receipt "") (
        invalid r.request_id "invalid_confirmation"
          "expected_version, service_receipt_id, and receipt are required")
    passed (
      id,
      record {
        expected_version = magnitude p.expected_version;
        service_receipt_id = p.service_receipt_id;
        receipt = p.receipt;
        received_at = time_or clock p.received_at;
      },
    )

  -- `clock` is the server's `now`.
  unfoldable pub confirm_handler : Time → World → Db → Response × Db
  confirm_handler clock w db =
      checked (confirm_checks clock) db
        λ x. finished r.request_id (operation_with 200) (confirm x.0 x.1 w db)

  abbrev pub dispatch_checks : Checked (Uuid × DispatchPayload)
  dispatch_checks = do
    id ← path_id f r
    p ← decode_json r.request_id (f.decode_dispatch r.body)
    unless (below_one p.expected_version)
        (invalid r.request_id "invalid_dispatch" "expected_version is required")
    passed (id, p)

  unfoldable pub authorize_dispatch_handler : World → Db → Response × Db
  authorize_dispatch_handler w db = checked dispatch_checks db λ x.
      finished r.request_id (operation_with 200)
        (authorize_dispatch x.0 (magnitude x.1.expected_version) w db)

  unfoldable pub get_operation_handler : World → Db → Response × Db
  get_operation_handler w db =
      checked (path_id f r) db
        λ id. finished r.request_id (operation_with 200) (get_operation id w db, db)

  abbrev pub created_filter : Checked (Option Time)
  created_filter =
      if str_eq r.query_created_after ""
      then passed none
      else elim (f.parse_time r.query_created_after) [
        | none ↦
            answered (invalid r.request_id "invalid_created_after" "created_after must use RFC3339")
        | some time ↦ passed (some time)
      ]

  abbrev pub list_checks : Checked OperationFilter
  list_checks = do
    limit ← limited r.request_id (parse_limit r.query_limit)
    unless (not (str_eq r.query_state "") && not (valid_state (parse_state r.query_state)))
        (invalid r.request_id "invalid_state" "state filter is invalid")
    created ← created_filter
    passed (record {
      workflow_id = r.query_workflow_id;
      state = parse_state r.query_state;
      target_service = r.query_target_service;
      created_after = created;
      limit = limit;
      cursor = r.query_cursor;
    })

  unfoldable pub list_operations_handler : World → Db → Response × Db
  list_operations_handler w db = checked list_checks db λ filter.
      finished r.request_id (λ page. write_json 200 (operations_body page))
        (list_operations f.operations filter w db, db)

  abbrev pub events_checks : Checked (Uuid × ℕ)
  events_checks = do
    id ← path_id f r
    limit ← limited r.request_id (parse_limit r.query_limit)
    passed (id, limit)

  unfoldable pub list_events_handler : World → Db → Response × Db
  list_events_handler w db = checked events_checks db λ x.
      finished r.request_id (λ page. write_json 200 (events_body page))
        (list_events f.events x.0 x.1 r.query_cursor w db, db)

unfoldable pub live_handler : Response
live_handler = write_json 200 (health_body "live" "")

-- The two checks have two seconds; a call that runs out of them is one that fails.
unfoldable pub ready_handler : Schema → World → Response
ready_handler schema w =
    if is_some (ping w)
    then write_json 503 (health_body "not_ready" "database_unavailable")
    else if is_some (schema_ready schema w)
    then write_json 503 (health_body "not_ready" "schema_not_ready")
    else write_json 200 (health_body "ready" "")
