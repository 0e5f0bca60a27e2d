-- ===== src/Api/Server.antt =====
-- The server of internal/api/server.go: `New`, `SetPreparedGrace`, the routes of `Handler` with the
-- token that guards each, `requestID` and `authenticate`. Matching a path is chi's, and it has given an
-- `Endpoint`; the handler of Prometheus and what is counted and logged are left out.
use watchkeeper.Prelude.{
  ℕ, String, Bool, Option, none, some, ◌&&◌, not, ℤ, below_one, magnitude, trim_prefix, str_eq,
  if◌then◌else◌,
}
use watchkeeper.Domain.Types.{Time}
use watchkeeper.Api.Http.{Response, invalid}
use watchkeeper.Store.Rows.{Db}
use watchkeeper.Store.Tx.{World}
use watchkeeper.Api.Payloads.{Formats, Request}
use watchkeeper.Store.Schema.{Schema}
use watchkeeper.Api.Operations.{
  prepare_handler, confirm_handler, authorize_dispatch_handler, get_operation_handler,
  list_operations_handler, list_events_handler, live_handler, ready_handler,
}
use watchkeeper.Api.Recovery.{
  begin_retry_handler, request_reconciliation_handler, claim_recovery_handler, renew_claim_handler,
  recovery_result_handler, manual_resolution_handler,
}

pub record Server : Type 0 where
  pub formats : Formats
  pub auth_token : String
  pub admin_token : String
  -- in microseconds
  pub prepared_grace : ℕ

unfoldable pub new_server : Formats → String → String → Server
new_server formats auth_token admin_token = record {
  formats = formats;
  auth_token = auth_token;
  admin_token = admin_token;
  prepared_grace = 5000000;
}

unfoldable pub set_prepared_grace : ℤ → Server → Server
set_prepared_grace d s = if below_one d then s else record s { prepared_grace = magnitude d }

pub data Endpoint : Type 0 where
  health_live health_ready : Endpoint
  post_operations get_operations get_one_operation get_events : Endpoint
  post_confirmations post_dispatches post_attempts : Endpoint
  post_reconciliation_requests post_manual_resolutions : Endpoint
  post_claims post_renew post_results : Endpoint

-- The method of an endpoint and its path: the text before the identifier of an operation, and the text
-- after it, where there is one.
unfoldable pub pattern : Endpoint → String × String × Option String
pattern health_live = ("GET", "/health/live", none)
pattern health_ready = ("GET", "/health/ready", none)
pattern post_operations = ("POST", "/v1/operations", none)
pattern get_operations = ("GET", "/v1/operations", none)
pattern get_one_operation = ("GET", "/v1/operations/", some "")
pattern get_events = ("GET", "/v1/operations/", some "/events")
pattern post_confirmations = ("POST", "/v1/operations/", some "/confirmations")
pattern post_dispatches = ("POST", "/v1/operations/", some "/dispatches")
pattern post_attempts = ("POST", "/v1/operations/", some "/attempts")
pattern post_reconciliation_requests = ("POST", "/v1/operations/", some "/reconciliation-requests")
pattern post_manual_resolutions = ("POST", "/v1/operations/", some "/manual-resolutions")
pattern post_claims = ("POST", "/v1/recovery/claims", none)
pattern post_renew = ("POST", "/v1/recovery/claims/", some "/renew")
pattern post_results = ("POST", "/v1/recovery/claims/", some "/results")

-- The token that the middleware of an endpoint's group compares with.
unfoldable pub guard : Server → Endpoint → Option String
guard s health_live = none
guard s health_ready = none
guard s post_operations = some s.auth_token
guard s get_operations = some s.auth_token
guard s get_one_operation = some s.auth_token
guard s get_events = some s.auth_token
guard s post_confirmations = some s.auth_token
guard s post_dispatches = some s.auth_token
guard s post_attempts = some s.auth_token
guard s post_reconciliation_requests = some s.admin_token
guard s post_manual_resolutions = some s.admin_token
guard s post_claims = some s.admin_token
guard s post_renew = some s.admin_token
guard s post_results = some s.admin_token

-- Equal texts have equal lengths, so the comparison in constant time is that of the texts.
unfoldable pub authenticate : String → Request → Bool
authenticate expected r =
    let provided = trim_prefix r.authorization "Bearer " in
    not (str_eq provided "") && str_eq provided expected

-- What the server's process and the database are while a request is handled: the clock, a new
-- request identifier and the schema.
pub record Moment : Type 0 where
  pub clock : Time
  pub fresh_id : String
  pub schema : Schema
  pub world : World

unfoldable pub dispatch : Server → Moment → Endpoint → Request → Db → Response × Db
dispatch s m health_live r db = (live_handler, db)
dispatch s m health_ready r db = (ready_handler m.schema m.world, db)
dispatch s m post_operations r db = prepare_handler s.formats r m.world db
dispatch s m get_operations r db = list_operations_handler s.formats r m.world db
dispatch s m get_one_operation r db = get_operation_handler s.formats r m.world db
dispatch s m get_events r db = list_events_handler s.formats r m.world db
dispatch s m post_confirmations r db = confirm_handler s.formats r m.clock m.world db
dispatch s m post_dispatches r db = authorize_dispatch_handler s.formats r m.world db
dispatch s m post_attempts r db = begin_retry_handler s.formats r m.world db
dispatch s m post_reconciliation_requests r db =
    request_reconciliation_handler s.formats r m.world db
dispatch s m post_manual_resolutions r db = manual_resolution_handler s.formats r m.world db
dispatch s m post_claims r db = claim_recovery_handler s.formats r s.prepared_grace m.world db
dispatch s m post_renew r db = renew_claim_handler s.formats r m.world db
dispatch s m post_results r db = recovery_result_handler s.formats r m.world db

-- `requestID` of the request that goes on.
unfoldable pub identified : String → Request → Request
identified fresh r = if str_eq r.request_id "" then record r { request_id = fresh } else r

unfoldable pub unauthorized : String → Response
unauthorized request_id = invalid request_id "unauthorized" "missing or invalid bearer token"

abbrev pub guarded : Option String → Request → Db → Response × Db → Response × Db
guarded none r db x = x
guarded (some expected) r db x =
    if authenticate expected r then x else (unauthorized r.request_id, db)

-- A request through the middleware to the handler of its endpoint.
unfoldable pub handle : Server → Moment → Endpoint → Request → Db → Response × Db
handle s m e r db =
    let x = identified m.fresh_id r in guarded (guard s e) x db (dispatch s m e x db)
