-- ===== src/Simulator/Handlers.antt =====
-- The rest of the server of internal/simulator/email.go: the routes and their tokens, and the handlers
-- that answer what was committed. A database call that fails is the world's; the store has every
-- interface that a handler asks for.
pub mod Counted
use watchkeeper.Prelude.{
  ℕ, String, Bool, true, false, Option, none, some, not, str_eq, ◌&&◌, ◌||◌, trim_prefix,
  if◌then◌else◌,
}
use watchkeeper.Domain.Types.{Uuid}
use watchkeeper.Domain.Fingerprint.{Codec}
use watchkeeper.Simulator.Email.{EmailEffect, EmailWorld, EmailDb}
use watchkeeper.Simulator.Server.{SendInput, Hooks, Response, send}
use watchkeeper.Simulator.Status.{EmailStatus, status, inspect, dispatch_count}

pub data SimulatorBody : Type 0 where
  text_body : String → SimulatorBody
  effect_body : Option EmailEffect → SimulatorBody
  status_body : EmailStatus → SimulatorBody
  ledger_body : EmailStatus → ℕ → SimulatorBody
  capability_body : String → Bool → SimulatorBody

pub record Answer : Type 0 where
  pub status_code : ℕ
  pub body : SimulatorBody

unfoldable pub write : ℕ → SimulatorBody → Answer
write status_code body = record { status_code = status_code; body = body }

pub data SimulatorEndpoint : Type 0 where
  live_check ready_check post_messages get_status get_inspect : SimulatorEndpoint
  get_capabilities get_admin_status : SimulatorEndpoint

-- The header, `uuid.Parse` of the path's parameter, the request of a send, and the query.
pub record SimulatorRequest : Type 0 where
  pub authorization : String
  pub path_id : Option Uuid
  pub message : SendInput
  pub recipient : String
  pub template : String
  pub logical_message_key : String

pub record EmailServer : Type 0 where
  pub profile : String
  pub token : String
  pub admin_token : String

unfoldable pub new_email_server : String → String → EmailServer
new_email_server token admin_token = record {
  profile = "receipt_status";
  token = token;
  admin_token = admin_token;
}

unfoldable pub ready : EmailWorld → Answer
ready w =
    if w.fails 0
    then write 503 (text_body "database_unavailable")
    else write 200 (text_body "ready")

-- `/admin/` before the path asks the ledger of dispatches too.
abbrev pub status_answer : Bool → EmailWorld → EmailDb → Option Uuid → Answer
status_answer admin w db none = write 422 (text_body "operation ID must be a UUID")
status_answer admin w db (some id) =
    if w.fails 0
    then write 503 (text_body "simulator database unavailable")
    else if not admin
    then write 200 (status_body (status id db))
    else if w.fails 1
    then write 503 (text_body "dispatch ledger unavailable")
    else write 200 (ledger_body (status id db) (dispatch_count id db))

unfoldable pub status_handler : Bool → SimulatorRequest → EmailWorld → EmailDb → Answer
status_handler admin r w db = status_answer admin w db r.path_id

unfoldable pub inspect_handler : SimulatorRequest → EmailWorld → EmailDb → Answer
inspect_handler r w db =
    if str_eq r.recipient "" || str_eq r.template "" || str_eq r.logical_message_key ""
    then write 422 (text_body "all match fields required")
    else if w.fails 0
    then write 503 (text_body "inspection unavailable")
    else write 200 (status_body (inspect r.recipient r.template r.logical_message_key db))

unfoldable pub authorized : String → SimulatorRequest → Bool
authorized expected r =
    let provided = trim_prefix r.authorization "Bearer " in
    not (str_eq provided "") && str_eq provided expected

abbrev pub as_answer : Response × EmailDb → Answer × EmailDb
as_answer (r, db) = (write r.status_code (effect_body r.effect), db)

-- chi's answer to a path that is not registered.
abbrev pub not_registered : Answer
not_registered = write 404 (text_body "404 page not found")

abbrev pub behind : String → SimulatorRequest → EmailDb → Answer × EmailDb → Answer × EmailDb
behind token r db x = if authorized token r then x else (write 401 (text_body "unauthorized"), db)

unfoldable pub answer :
    Codec
    → EmailServer
    → Hooks
    → SimulatorEndpoint
    → SimulatorRequest
    → EmailWorld
    → EmailDb
    → Answer × EmailDb
answer c s h live_check r w db = (write 200 (text_body "live"), db)
answer c s h ready_check r w db = (ready w, db)
answer c s h post_messages r w db =
    behind s.token r db (as_answer (send c s.profile h r.message w db))
answer c s h get_status r w db =
    if str_eq s.profile "receipt_status"
    then behind s.token r db (status_handler false r w db, db)
    else (not_registered, db)
answer c s h get_inspect r w db =
    if str_eq s.profile "indirect_unique"
    then behind s.token r db (inspect_handler r w db, db)
    else (not_registered, db)
answer c s h get_capabilities r w db =
    behind s.token r db
      (write 200 (capability_body s.profile (str_eq s.profile "idempotency_only")), db)
answer c s h get_admin_status r w db = behind s.admin_token r db (status_handler true r w db, db)
