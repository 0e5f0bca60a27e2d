-- ===== src/Client.antt =====
-- pkg/client/client.go: the requests of the client's methods, and what it makes of their answers. The
-- libraries for JSON, URLs and HTTP are the fields of `Transport`, over a state `S` of everything
-- outside of the client. A payload is the record that the server reads, since both have one JSON.
pub mod Wire
pub mod RoundTrip
mod Tests
use Prim.Native.Char.{code}
use Prim.Native.String.{len, slice}
use watchkeeper.Prelude.{
  ◌&&◌, ℕ, ◌/◌, ◌<◌, String, Bool, true, false, Option, none, some, List, [], ◌∷◌, ◌++◌, not, ltb,
  leb, ◌==◌, ◌||◌, str_eq, str_append, ℤ, pos, negsuc, below_one, if◌then◌else◌,
}
use watchkeeper.Domain.Types.{
  Uuid, Time, Error, library_error, Result, ok, err, Operation, OperationPage, EventPage,
  RecoveryClaim, Observation,
}
use watchkeeper.Domain.State.{OperationState, state_text}
use watchkeeper.Api.Payloads.{
  VersionReasonPayload, ClaimPayload, RenewPayload, RecoveryResultPayload, ManualPayload,
  PreparePayload, ConfirmPayload, DispatchPayload,
}

-- What a method marshals.
pub data JsonBody : Type 0 where
  prepare_json : PreparePayload → JsonBody
  confirm_json : ConfirmPayload → JsonBody
  version_reason_json : VersionReasonPayload → JsonBody
  claim_json : ClaimPayload → JsonBody
  renew_json : RenewPayload → JsonBody
  result_json : RecoveryResultPayload → JsonBody
  manual_json : ManualPayload → JsonBody
  dispatch_json : DispatchPayload → JsonBody

pub record HttpRequest : Type 0 where
  pub method : String
  pub url : String
  pub authorization : String
  pub content_type : Option String
  pub body : Option String

pub record Reply : Type 0 where
  pub status : ℕ
  pub body : String

-- What an error's body decodes to; the fields that it does not give are empty.
pub record Envelope : Type 0 where
  pub code : String
  pub message : String
  pub request_id : String
  pub details : Option Uuid

pub record Transport (S : Type 0) : Type 0 where
  pub marshal : JsonBody → Result String
  -- `http.NewRequestWithContext`; `none` is Go's nil error
  pub bad_request : String → String → Option Error
  pub exchange : HttpRequest → S → Result Reply × S
  pub path_escape : String → String
  -- `url.Values.Encode`
  pub encode_query : List (String × String) → String
  -- `Format(time.RFC3339)`
  pub format_time : Time → String
  -- `strconv.Itoa`
  pub itoa : ℕ → String
  -- the JSON decoder, for each type that a method returns; `none` is its error
  pub read_envelope : String → Envelope
  pub read_operation : String → Option Operation
  pub read_operations : String → Option OperationPage
  pub read_events : String → Option EventPage
  pub read_claims : String → Option (List RecoveryClaim)
  pub read_lease : String → Option Time

pub record ApiError : Type 0 where
  pub status : ℕ
  pub code : String
  pub message : String
  pub request_id : String
  pub details : Option Uuid

pub data ClientError : Type 0 where
  api_failure : ApiError → ClientError
  passed_on : Error → ClientError

pub data Outcome (A : Type 0) : Type 0 where
  got : A → Outcome A
  failed : ClientError → Outcome A

unfoldable pub conflict : ApiError → Bool
conflict e = e.status == 409

pub record Client : Type 0 where
  pub base_url : String
  pub token : String

-- `strings.TrimRight(baseURL, "/")`
abbrev without_slashes : String → String
without_slashes String.[] = ""
without_slashes (String.◌∷◌ c s) =
    let rest = without_slashes s in if code c == 47 && str_eq rest "" then "" else String.◌∷◌ c rest

unfoldable pub new_client : String → String → Client
new_client base_url token = record { base_url = without_slashes base_url; token = token }

abbrev pub api_error : ℕ → Envelope → ApiError
api_error status e = record {
  status = status;
  code = e.code;
  message = e.message;
  request_id = e.request_id;
  details = e.details;
}

-- `io.LimitReader(resp.Body, 1<<20)`; lengths are in bytes.
unfoldable pub limit_body : String → String
limit_body s = if leb (len s) 1_048_576 then s else slice s 0 1_048_576

module _ {A : Type 0} where
  abbrev pub decoded : Option A → Outcome A
  decoded none = failed (passed_on (library_error "decode response"))
  decoded (some a) = got a

  abbrev pub read_reply : (String → Envelope) → (String → Option A) → Result Reply → Outcome A
  read_reply envelope read (err e) = failed (passed_on e)
  read_reply envelope read (ok r) =
      if ltb r.status 200 || leb 300 r.status
      then failed (api_failure (api_error r.status (envelope (limit_body r.body))))
      else decoded (read (limit_body r.body))

module _ {S : Type 0} (t : Transport S) (c : Client) where
  unfoldable pub http_request : String → String → Option String → HttpRequest
  http_request method path body = record {
    method = method;
    url = str_append c.base_url path;
    authorization = str_append "Bearer " c.token;
    content_type = elim body [ none ↦ none | some raw ↦ some "application/json" ];
    body = body;
  }

  module _ {A : Type 0} (read : String → Option A) (method path : String) where
    abbrev sent : Option String → Option Error → S → Outcome A × S
    sent body (some e) s = (failed (passed_on e), s)
    sent body none s =
        let (r, u) = t.exchange (http_request method path body) s in
        (read_reply t.read_envelope read r, u)

    abbrev with_raw : Result String → S → Outcome A × S
    with_raw (err e) s = (failed (passed_on e), s)
    with_raw (ok raw) s = sent (some raw) (t.bad_request method (str_append c.base_url path)) s

    -- `do`
    unfoldable pub do_request : Option JsonBody → S → Outcome A × S
    do_request none s = sent none (t.bad_request method (str_append c.base_url path)) s
    do_request (some body) s = with_raw (t.marshal body) s

  unfoldable pub operation_path : String → String → String
  operation_path id rest = str_append "/v1/operations/" (str_append (t.path_escape id) rest)

  unfoldable pub claim_path : String → String → String
  claim_path id rest = str_append "/v1/recovery/claims/" (str_append (t.path_escape id) rest)

  unfoldable pub call_prepare : PreparePayload → S → Outcome Operation × S
  call_prepare p = do_request t.read_operation "POST" "/v1/operations" (some (prepare_json p))

  unfoldable pub call_confirm : String → ConfirmPayload → S → Outcome Operation × S
  call_confirm id p =
      do_request t.read_operation "POST" (operation_path id "/confirmations")
        (some (confirm_json p))

  unfoldable pub call_get_operation : String → S → Outcome Operation × S
  call_get_operation id = do_request t.read_operation "GET" (operation_path id "") none

  -- `if text != "" { query.Set(name, text) }`
  abbrev set_unless_empty : String → String → List (String × String)
  set_unless_empty name text = if str_eq text "" then [] else (name, text) ∷ []

  abbrev set_limit : ℤ → List (String × String)
  set_limit (pos n) = if ltb 0 n then ("limit", t.itoa n) ∷ [] else []
  set_limit (negsuc n) = []

  abbrev set_created_after : Option Time → List (String × String)
  set_created_after none = []
  set_created_after (some time) = ("created_after", t.format_time time) ∷ []

  unfoldable pub list_query :
      String → OperationState → String → Option Time → ℤ → String → List (String × String)
  list_query workflow_id state target_service created_after limit cursor =
      set_unless_empty "workflow_id" workflow_id
      ++ set_unless_empty "state" (state_text state)
      ++ set_unless_empty "target_service" target_service
      ++ set_created_after created_after
      ++ set_limit limit
      ++ set_unless_empty "cursor" cursor

  unfoldable pub call_list_operations :
      String → OperationState → String → Option Time → ℤ → String → S → Outcome OperationPage × S
  call_list_operations workflow_id state target_service created_after limit cursor =
      do_request t.read_operations "GET"
        (str_append "/v1/operations?"
          (t.encode_query (list_query workflow_id state target_service created_after limit cursor)))
        none

  unfoldable pub call_list_events : String → ℤ → String → S → Outcome EventPage × S
  call_list_events id limit cursor =
      do_request t.read_events "GET"
        (operation_path id (
          str_append "/events?"
            (t.encode_query (set_limit limit ++ set_unless_empty "cursor" cursor))))
        none

  unfoldable pub call_begin_retry : String → ℤ → String → S → Outcome Operation × S
  call_begin_retry id expected_version reason =
      do_request t.read_operation "POST" (operation_path id "/attempts") (
        some (
          version_reason_json
            (record { expected_version = expected_version; reason = reason; actor = "" })))

  unfoldable pub call_request_reconciliation :
      String → ℤ → String → String → S → Outcome Operation × S
  call_request_reconciliation id expected_version actor reason =
      do_request t.read_operation "POST" (operation_path id "/reconciliation-requests") (
        some (
          version_reason_json
            (record { expected_version = expected_version; reason = reason; actor = actor })))

  -- A lease is in microseconds, and `lease.Milliseconds()` drops their rest.
  unfoldable pub call_claim_recovery : String → ℤ → ℕ → S → Outcome (List RecoveryClaim) × S
  call_claim_recovery worker_id limit lease =
      do_request t.read_claims "POST" "/v1/recovery/claims" (
        some (
          claim_json (record {
            worker_id = worker_id;
            limit = limit;
            lease_duration_ms = pos (lease / 1000);
          })))

  unfoldable pub call_renew_claim : String → String → ℕ → S → Outcome Time × S
  call_renew_claim id token lease =
      do_request t.read_lease "POST" (claim_path id "/renew")
        (some (renew_json (record { claim_token = token; lease_duration_ms = pos (lease / 1000) })))

  unfoldable pub call_submit_recovery_result :
      String → String → ℤ → String → Observation → S → Outcome Operation × S
  call_submit_recovery_result id claim_token version attempt_id observation =
      do_request t.read_operation "POST" (claim_path id "/results") (
        some (
          result_json (record {
            claim_token = claim_token;
            expected_version = version;
            attempt_id = attempt_id;
            observation = observation;
          })))

  unfoldable pub call_manual_resolve :
      String → ℤ → String → String → String → String → S → Outcome Operation × S
  call_manual_resolve id expected_version actor outcome reason evidence =
      do_request t.read_operation "POST" (operation_path id "/manual-resolutions") (
        some (
          manual_json (record {
            expected_version = expected_version;
            actor = actor;
            outcome = outcome;
            reason = reason;
            evidence_reference = evidence;
          })))

  unfoldable pub call_authorize_dispatch : String → ℤ → S → Outcome Operation × S
  call_authorize_dispatch id version =
      do_request t.read_operation "POST" (operation_path id "/dispatches")
        (some (dispatch_json (record { expected_version = version })))
