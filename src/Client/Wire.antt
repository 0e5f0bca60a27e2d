-- ===== src/Client/Wire.antt =====
-- A client that is connected to the server: what the libraries between the two do is in `Wire`, and
-- what is relied on of them in `Faithful`.
use Prim.Native.String.{len}
use watchkeeper.Prelude.{◌≤◌, ℕ, String, List, Option, none, some, ◌≡◌, str_append}
use watchkeeper.Domain.Types.{
  Error, domain_error, library_error, Result, ok, err, Operation, OperationPage, EventPage,
  RecoveryClaim, Time,
}
use watchkeeper.Store.Rows.{Db}
use watchkeeper.Api.Http.{Body, operation_body, error_body, Response, single, error_status}
use watchkeeper.Api.Payloads.{Formats, Request, VersionReasonPayload, DispatchPayload}
use watchkeeper.Api.Server.{
  Server, Moment, Endpoint, handle, pattern, post_dispatches, post_attempts, get_one_operation,
}
use watchkeeper.Client.{
  JsonBody, dispatch_json, version_reason_json, HttpRequest, Reply, Transport, Outcome, got, failed,
  api_error, Envelope, api_failure,
}

pub record Wire : Type 0 where
  -- `json.Marshal`
  pub encode : JsonBody → String
  pub escape : String → String
  -- chi's matching of a method and a URL, with the parameter of the path
  pub route : String → String → Option (Endpoint × String)
  -- a value of the query of a URL
  pub query : String → String → String
  pub encode_query : List (String × String) → String
  pub format_time : ℕ → String
  pub itoa : ℕ → String
  -- the JSON of an answer, without the line's end, and the router's text where no endpoint matches
  pub encode_answer : Body → String
  pub not_found_text : String
  -- the client's JSON decoder
  pub read_envelope : String → Envelope
  pub read_operation : String → Option Operation
  pub read_operations : String → Option OperationPage
  pub read_events : String → Option EventPage
  pub read_claims : String → Option (List RecoveryClaim)
  pub read_lease : String → Option Time

abbrev text_or_none : Option String → String
text_or_none none = ""
text_or_none (some s) = s

abbrev pub arrived : Wire → HttpRequest → String → Request
arrived w r id = record {
  request_id = "";
  authorization = r.authorization;
  operation_id = id;
  body = text_or_none r.body;
  query_limit = w.query r.url "limit";
  query_cursor = w.query r.url "cursor";
  query_workflow_id = w.query r.url "workflow_id";
  query_state = w.query r.url "state";
  query_target_service = w.query r.url "target_service";
  query_created_after = w.query r.url "created_after";
}

abbrev pub replied : Wire → Response × Db → Result Reply × Db
replied w (r, db) = (ok (record { status = r.status; body = w.encode_answer r.body }), db)

abbrev pub routed :
    Server → Wire → Moment → HttpRequest → Db → Option (Endpoint × String) → Result Reply × Db
routed s w m r db none = (ok (record { status = 404; body = w.not_found_text }), db)
routed s w m r db (some (e, id)) = replied w (handle s m e (arrived w r id) db)

-- A transport that loses nothing, to a server that handles one request at a time.
abbrev pub connected : Server → Wire → Moment → Transport Db
connected s w m = record {
  marshal = λ body. ok (w.encode body);
  bad_request = λ method url. none;
  exchange = λ r db. routed s w m r db (w.route r.method r.url);
  path_escape = w.escape;
  encode_query = w.encode_query;
  format_time = w.format_time;
  itoa = w.itoa;
  read_envelope = λ text. w.read_envelope text;
  read_operation = λ text. w.read_operation text;
  read_operations = λ text. w.read_operations text;
  read_events = λ text. w.read_events text;
  read_claims = λ text. w.read_claims text;
  read_lease = λ text. w.read_lease text;
}

-- The URL of an endpoint for one operation.
abbrev pub url_of : Wire → String → Endpoint → String → String
url_of w base e text =
    let (method, before, after) = pattern e in
    elim after [
      | none ↦ str_append base before
      | some rest ↦ str_append base (str_append before (str_append (w.escape text) rest))
    ]

-- chi finds an endpoint by its method and path, with the identifier that was escaped.
abbrev pub Routes : Wire → String → String → Endpoint → Type 0
Routes w base text e = w.route (pattern e).0 (url_of w base e text) ≡ some (e, text)

-- The server's JSON decoder reads the two payloads as the client's encoder wrote them: their fields
-- have one name on both sides.
pub record Faithful (f : Formats) (w : Wire) (base text : String) (dispatch : DispatchPayload)
    (retry : VersionReasonPayload) : Type 0 where
  pub routes_dispatch : Routes w base text post_dispatches
  pub routes_retry : Routes w base text post_attempts
  pub routes_get : Routes w base text get_one_operation
  pub reads_dispatch : f.decode_dispatch (w.encode (dispatch_json dispatch)) ≡ single dispatch
  pub reads_retry : f.decode_version_reason (w.encode (version_reason_json retry)) ≡ single retry

-- An error of the store as the client has it.
abbrev pub envelope_of : String → Error → Envelope
envelope_of request_id (domain_error e) = record {
  code = e.code;
  message = e.message;
  request_id = request_id;
  details = e.operation_id;
}
envelope_of request_id (library_error m) = record {
  code = "internal_error";
  message = "internal server error";
  request_id = request_id;
  details = none;
}

abbrev pub status_of : Error → ℕ
status_of (domain_error e) = error_status e.kind e.code
status_of (library_error m) = 500

abbrev pub error_text : Wire → Envelope → String
error_text w e = w.encode_answer (error_body e.code e.message e.request_id e.details)

-- The answer to a call is at most 1 MiB long, and the client's decoder reads it as it was written.
abbrev pub Delivered : Wire → String → Result Operation → Type 0
Delivered w request_id (ok op) =
    (len (w.encode_answer (operation_body op)) ≤ 1_048_576)
    × (w.read_operation (w.encode_answer (operation_body op)) ≡ some op)
Delivered w request_id (err e) =
    (len (error_text w (envelope_of request_id e)) ≤ 1_048_576)
    × (w.read_envelope (error_text w (envelope_of request_id e)) ≡ envelope_of request_id e)

abbrev pub outcome : String → Result Operation → Outcome Operation
outcome request_id (ok op) = got op
outcome request_id (err e) =
    failed (api_failure (api_error (status_of e) (envelope_of request_id e)))

abbrev pub as_called : String → Result Operation × Db → Outcome Operation × Db
as_called request_id (r, db) = (outcome request_id r, db)
