-- ===== src/Client/RoundTrip.antt =====
-- A call of the client, through the server, is the call of the store.
use watchkeeper.Prelude.{
  ◌≤◌, ◌≡◌, refl, ap, ◌∙◌, subst, String, true, false, Option, none, some, ℤ, below_one, magnitude,
  trim_prefix, str_eq, eq_iff, str_append, arith, ltb, leb, ◌||◌,
}
use Prim.Native.String.{len, slice}
use text.Mathlib.TextPositions.{starts_with-append, slice-append_right, len-append}
use watchkeeper.Domain.Types.{
  ErrorKind, conflict, Uuid, domain_error, library_error, Result, ok, err, Operation, validation,
  not_found, unavailable,
}
use watchkeeper.Store.Rows.{Db}
use watchkeeper.Store.Dispatch.{authorize_dispatch}
use watchkeeper.Store.Retry.{begin_retry}
use watchkeeper.Store.Pages.{get_operation}
use watchkeeper.Api.Http.{
  passed, ◌>>=◌, unless, or_answer, decode_json, invalid, single, error_status, write_error,
  write_json, finished, checked,
}
use watchkeeper.Api.Payloads.{
  Formats, Request, VersionReasonPayload, DispatchPayload, operation_with,
}
use watchkeeper.Api.Operations.{dispatch_checks, authorize_dispatch_handler, get_operation_handler}
use watchkeeper.Api.Recovery.{asked_version, begin_retry_handler}
use watchkeeper.Api.Server.{
  Server, Moment, Endpoint, handle, guard, dispatch, authenticate, identified, post_dispatches,
  post_attempts, get_one_operation, pattern,
}
use watchkeeper.Client.{
  dispatch_json, version_reason_json, Client, read_reply, limit_body, call_authorize_dispatch,
  call_begin_retry, call_get_operation, do_request, http_request, operation_path,
}
use watchkeeper.Client.Wire.{Wire, Faithful, Delivered, arrived, replied, connected, as_called}

trim_prefix-append : (p t : String) → trim_prefix (str_append p t) p ≡ t
trim_prefix-append p t =
    rw (starts_with-append p t)
      (ap (slice (str_append p t) (len p)) (len-append p t) ∙ slice-append_right p t)

-- The client's header opens what its token guards.
bearer :
    (token : String) (r : Request)
    → r.authorization ≡ str_append "Bearer " token
    → str_eq token "" ≡ false
    → authenticate token r ≡ true
unfolding authenticate
bearer token r header non_empty =
    rw (header, trim_prefix-append "Bearer " token, non_empty) ((eq_iff token token).1 refl)

error_status-failing :
    (k : ErrorKind) (code : String)
    → (ltb (error_status k code) 200 || leb 300 (error_status k code)) ≡ true
unfolding error_status
error_status-failing validation code = ground arith
error_status-failing not_found code = refl
error_status-failing conflict code = refl
error_status-failing unavailable code = refl

limit_body-short : (text : String) → len text ≤ 1_048_576 → limit_body text ≡ text
unfolding limit_body
limit_body-short text h = ground (arith, h)

finished-outcome :
    (w : Wire) (request_id : String) (x : Result Operation × Db)
    → Delivered w request_id x.0
    → (
      read_reply w.read_envelope w.read_operation
          (replied w (finished request_id (operation_with 200) x)).0,
      (replied w (finished request_id (operation_with 200) x)).1,
    )
      ≡ as_called request_id x
unfolding write_json write_error
finished-outcome w request_id (ok op, db) (short, reads) = rw (limit_body-short _ short, reads) refl
finished-outcome w request_id (err (library_error m), db) (short, reads) =
    rw (limit_body-short _ short, reads) refl
finished-outcome w request_id (err (domain_error e), db) (short, reads) =
    rw (error_status-failing e.kind e.code, limit_body-short _ short, reads) refl

dispatch_checks_pass :
    (f : Formats) (r : Request) (id : Uuid) (p : DispatchPayload)
    → f.parse_uuid r.operation_id ≡ some id
    → f.decode_dispatch r.body ≡ single p
    → below_one p.expected_version ≡ false
    → dispatch_checks f r ≡ passed (id, p)
unfolding ◌>>=◌ or_answer decode_json unless
dispatch_checks_pass f r id p path body version = rw (path, body, version) refl

asked_version_pass :
    (f : Formats) (r : Request) (id : Uuid) (p : VersionReasonPayload) (code message : String)
    → f.parse_uuid r.operation_id ≡ some id
    → f.decode_version_reason r.body ≡ single p
    → (below_one p.expected_version || str_eq p.reason "") ≡ false
    → asked_version f r code message ≡ passed (id, p)
unfolding ◌>>=◌ or_answer decode_json unless
asked_version_pass f r id p code message path body version = rw (path, body, version) refl

handle_open :
    (s : Server) (m : Moment) (e : Endpoint) (r : Request) (db : Db) (token : String)
    → guard s e ≡ some token
    → authenticate token (identified m.fresh_id r) ≡ true
    → handle s m e r db ≡ dispatch s m e (identified m.fresh_id r) db
unfolding handle
handle_open s m e r db token guards opens = rw (guards, opens) refl

-- The payloads of the two calls that have one.
abbrev pub dispatch_payload : ℤ → DispatchPayload
dispatch_payload version = record { expected_version = version }

abbrev pub retry_payload : ℤ → String → VersionReasonPayload
retry_payload version reason = record { expected_version = version; reason = reason; actor = "" }

module _ (s : Server) (w : Wire) (m : Moment) (c : Client) (text : String) (id : Uuid) (db : Db)
    (version : ℤ) (reason : String)
    (faithful : Faithful s.formats w c.base_url text
      (dispatch_payload version)
      (retry_payload version reason))
    (same_token : c.token ≡ s.auth_token) (non_empty : str_eq c.token "" ≡ false)
    (names : s.formats.parse_uuid text ≡ some id) where
  -- The client's request as the handlers have it.
  abbrev sent_request : String → String → Option String → Request
  sent_request method path body =
      record (arrived w (http_request (connected s w m) c method path body) text) {
        request_id = m.fresh_id;
      }

  exchanged :
      (method path : String) (body : Option String) (e : Endpoint) (x : Result Operation × Db)
      → w.route method (str_append c.base_url path) ≡ some (e, text)
      → guard s e ≡ some s.auth_token
      → dispatch s m e
          (identified m.fresh_id
            (arrived w (http_request (connected s w m) c method path body) text))
          db
        ≡ finished m.fresh_id (operation_with 200) x
      → Delivered w m.fresh_id x.0
      → (let (r, u) =
            (connected s w m).exchange (http_request (connected s w m) c method path body) db in
          (read_reply w.read_envelope w.read_operation r, u))
        ≡ as_called m.fresh_id x
  unfolding http_request identified
  exchanged method path body e x routes guards served delivered =
      let r = arrived w (http_request (connected s w m) c method path body) text in
      rw
        (
          routes,
          handle_open s m e r db s.auth_token guards (
              subst (λ t. authenticate t (identified m.fresh_id r) ≡ true) same_token
                (bearer c.token (identified m.fresh_id r) refl non_empty)),
          served,
        )
        (finished-outcome w m.fresh_id x delivered)

  dispatch_call :
      below_one version ≡ false
      → Delivered w m.fresh_id (authorize_dispatch id (magnitude version) m.world db).0
      → call_authorize_dispatch (connected s w m) c text version db
        ≡ as_called m.fresh_id (authorize_dispatch id (magnitude version) m.world db)
  unfolding call_authorize_dispatch do_request operation_path pattern guard dispatch
      authorize_dispatch_handler identified http_request
  dispatch_call positive delivered =
      let p = dispatch_payload version in
      exchanged "POST" (operation_path (connected s w m) c text "/dispatches")
        (some (w.encode (dispatch_json p))) post_dispatches
        (authorize_dispatch id (magnitude version) m.world db) faithful.routes_dispatch refl
        (ap
          (λ k. checked k db λ x.
            finished m.fresh_id (operation_with 200)
              (authorize_dispatch x.0 (magnitude x.1.expected_version) m.world db))
          (dispatch_checks_pass s.formats
            (sent_request "POST" (operation_path (connected s w m) c text "/dispatches")
              (some (w.encode (dispatch_json p))))
            id p names faithful.reads_dispatch positive))
        delivered

  retry_call :
      (below_one version || str_eq reason "") ≡ false
      → Delivered w m.fresh_id (begin_retry id (magnitude version) reason m.world db).0
      → call_begin_retry (connected s w m) c text version reason db
        ≡ as_called m.fresh_id (begin_retry id (magnitude version) reason m.world db)
  unfolding call_begin_retry do_request operation_path pattern guard dispatch begin_retry_handler
      identified http_request
  retry_call good delivered =
      let p = retry_payload version reason in
      exchanged "POST" (operation_path (connected s w m) c text "/attempts")
        (some (w.encode (version_reason_json p))) post_attempts
        (begin_retry id (magnitude version) reason m.world db) faithful.routes_retry refl
        (ap
          (λ k. checked k db λ x.
            finished m.fresh_id (operation_with 200)
              (begin_retry x.0 (magnitude x.1.expected_version) x.1.reason m.world db))
          (asked_version_pass s.formats
            (sent_request "POST" (operation_path (connected s w m) c text "/attempts")
              (some (w.encode (version_reason_json p))))
            id p _ _ names faithful.reads_retry good))
        delivered

  get_call :
      Delivered w m.fresh_id (get_operation id m.world db)
      → call_get_operation (connected s w m) c text db
        ≡ as_called m.fresh_id (get_operation id m.world db, db)
  unfolding call_get_operation do_request operation_path pattern guard dispatch
      get_operation_handler identified http_request or_answer
  get_call delivered =
      exchanged "GET" (operation_path (connected s w m) c text "") none get_one_operation
        (get_operation id m.world db, db) faithful.routes_get refl
        (ap
          (λ o.
            checked
              (or_answer (invalid m.fresh_id "invalid_operation_id" "operation_id must be a UUID")
                o)
              db λ i. finished m.fresh_id (operation_with 200) (get_operation i m.world db, db))
          names)
        delivered

-- Between a client and a server with one token that is not empty, over a wire that is faithful and where
-- each answer is at most 1 MiB of JSON that the client's decoder reads as it was written: a call to dispatch an operation, or to begin a retry with a reason, at a version from 1, and a call to read
-- an operation, answer what the call of the store answers, its value or its error with its status and
-- code, and leave the tables that it leaves.
pub calls-store :
    (s : Server) (w : Wire) (m : Moment) (c : Client) (text : String) (id : Uuid) (db : Db)
    (version : ℤ) (reason : String)
    → Faithful s.formats w c.base_url text (dispatch_payload version) (retry_payload version reason)
    → c.token ≡ s.auth_token
    → str_eq c.token "" ≡ false
    → s.formats.parse_uuid text ≡ some id
    → (below_one version || str_eq reason "") ≡ false
    → Delivered w m.fresh_id (authorize_dispatch id (magnitude version) m.world db).0
    → Delivered w m.fresh_id (begin_retry id (magnitude version) reason m.world db).0
    → Delivered w m.fresh_id (get_operation id m.world db)
    → (call_authorize_dispatch (connected s w m) c text version db
        ≡ as_called m.fresh_id (authorize_dispatch id (magnitude version) m.world db))
      × (call_begin_retry (connected s w m) c text version reason db
          ≡ as_called m.fresh_id (begin_retry id (magnitude version) reason m.world db))
      × (call_get_operation (connected s w m) c text db
          ≡ as_called m.fresh_id (get_operation id m.world db, db))
calls-store s w m c text id db version reason faithful same non_empty names good sent tried got = (
  dispatch_call s w m c text id db version reason faithful same non_empty names (ground arith) sent,
  retry_call s w m c text id db version reason faithful same non_empty names good tried,
  get_call s w m c text id db version reason faithful same non_empty names got,
)
