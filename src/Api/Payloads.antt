-- ===== src/Api/Payloads.antt =====
-- The requests of internal/api/server.go: the payload types, `validatePrepare` and `parseLimit`.
-- The libraries for UUIDs, JSON and times, and `strings.EqualFold`, are the fields of `Formats`.
use watchkeeper.Prelude.{
  ℕ, String, Bool, false, Option, none, some, ◌&&◌, ◌||◌, not, is_some, ℤ, outside, magnitude, atoi,
  str_eq, if◌then◌else◌,
}
use watchkeeper.Domain.State.{Strategy, valid_strategy}
use watchkeeper.Domain.Types.{
  Uuid, Time, Error, Result, ok, err, Operation, new_error, validation, Observation,
}
use watchkeeper.Api.Http.{
  Response, Checked, or_answer, invalid, write_json, operation_body, Decoded,
}
use watchkeeper.Store.Pages.{CursorCodec}
use watchkeeper.Store.Listing.{OperationCodec}

pub record VersionReasonPayload : Type 0 where
  pub expected_version : ℤ
  pub reason : String
  pub actor : String

pub record ClaimPayload : Type 0 where
  pub worker_id : String
  pub limit : ℤ
  pub lease_duration_ms : ℤ

pub record RenewPayload : Type 0 where
  pub claim_token : String
  pub lease_duration_ms : ℤ

pub record RecoveryResultPayload : Type 0 where
  pub claim_token : String
  pub expected_version : ℤ
  pub attempt_id : String
  pub observation : Observation

pub record ManualPayload : Type 0 where
  pub expected_version : ℤ
  pub actor : String
  pub outcome : String
  pub reason : String
  pub evidence_reference : String

-- A raw JSON value that is missing is the empty text.
pub record PreparePayload : Type 0 where
  pub workflow_id : String
  pub strategy : Strategy
  pub experiment_run_id : Option String
  pub logical_key : String
  pub target_service : String
  pub action : String
  pub request : String
  pub request_fingerprint : String
  pub expected_effect : String
  pub capability_profile : String
  pub trace_context : String

-- The zero time is `none`.
pub record ConfirmPayload : Type 0 where
  pub expected_version : ℤ
  pub service_receipt_id : String
  pub receipt : String
  pub received_at : Option Time

pub record DispatchPayload : Type 0 where
  pub expected_version : ℤ

pub record Formats : Type 0 where
  -- `uuid.Parse`, whose value the store's queries read again
  pub parse_uuid : String → Option Uuid
  -- `time.Parse(time.RFC3339, ...)`
  pub parse_time : String → Option Time
  pub equal_fold : String → String → Bool
  -- `json.Unmarshal` into a map, which is then not nil
  pub is_object : String → Bool
  pub decode_version_reason : String → Decoded VersionReasonPayload
  pub decode_claim : String → Decoded ClaimPayload
  pub decode_renew : String → Decoded RenewPayload
  pub decode_recovery_result : String → Decoded RecoveryResultPayload
  pub decode_manual : String → Decoded ManualPayload
  pub decode_prepare : String → Decoded PreparePayload
  pub decode_confirm : String → Decoded ConfirmPayload
  pub decode_dispatch : String → Decoded DispatchPayload
  -- the cursors of the two listings
  pub events : CursorCodec
  pub operations : OperationCodec

-- The text of a request: the parameter of its path, its body, and what it asks of a listing.
pub record Request : Type 0 where
  pub request_id : String
  pub authorization : String
  pub operation_id : String
  pub body : String
  pub query_limit : String
  pub query_cursor : String
  pub query_workflow_id : String
  pub query_state : String
  pub query_target_service : String
  pub query_created_after : String

unfoldable pub parse_limit : String → Result ℕ
parse_limit raw = if str_eq raw "" then ok 50 else elim (atoi raw) [
  | none ↦ err (new_error validation "invalid_limit" "limit must be between 1 and 200")
  | some value ↦
      if outside 1 200 value
      then err (new_error validation "invalid_limit" "limit must be between 1 and 200")
      else ok (magnitude value)
]

abbrev known_profile : String → Bool
known_profile profile =
    str_eq profile "receipt_status"
    || str_eq profile "idempotency_only"
    || str_eq profile "indirect_unique"
    || str_eq profile "none"

abbrev bad_run_id : Formats → Option String → Bool
bad_run_id f none = false
bad_run_id f (some id) = not (is_some (f.parse_uuid id))

-- `none` is Go's nil error.
unfoldable pub validate_prepare : Formats → PreparePayload → Option Error
validate_prepare f p =
    if str_eq p.workflow_id ""
      || str_eq p.logical_key ""
      || str_eq p.target_service ""
      || str_eq p.action ""
    then some (
        new_error validation "missing_required_field"
          "workflow_id, logical_key, target_service, and action are required")
    else if not (valid_strategy p.strategy)
    then some (new_error validation "invalid_strategy" "strategy is invalid")
    else if str_eq p.request "" || str_eq p.expected_effect ""
    then some
        (new_error validation "missing_required_field" "request and expected_effect are required")
    else if not (f.is_object p.request)
    then some (new_error validation "invalid_request" "request must be a JSON object")
    else if not (str_eq p.target_service "email") || not (str_eq p.action "send")
    then some (
        new_error validation "unsupported_operation" "this implementation supports only email/send")
    else if not (f.is_object p.expected_effect)
    then some
        (new_error validation "invalid_expected_effect" "expected_effect must be a JSON object")
    else if not (known_profile p.capability_profile)
    then some (new_error validation "invalid_capability_profile" "capability_profile is invalid")
    else if bad_run_id f p.experiment_run_id
    then some (new_error validation "invalid_experiment_run_id" "experiment_run_id must be a UUID")
    else if not (str_eq p.trace_context "") && not (f.is_object p.trace_context)
    then some (new_error validation "invalid_trace_context" "trace_context must be a JSON object")
    else none

module _ (f : Formats) (r : Request) where
  -- `uuid.Parse` of the parameter of the path.
  abbrev pub path_id : Checked Uuid
  path_id =
      or_answer (invalid r.request_id "invalid_operation_id" "operation_id must be a UUID")
        (f.parse_uuid r.operation_id)

abbrev pub operation_with : ℕ → Operation → Response
operation_with status op = write_json status (operation_body op)
