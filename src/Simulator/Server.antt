-- ===== src/Simulator/Server.antt =====
-- The `send` handler of internal/simulator/email.go, with its status codes. Parsing the identifier
-- and the body is a library's; hooks are nil or answer an error, as a world has it.
use watchkeeper.Prelude.{ℕ, String, Bool, Option, none, some, ◌||◌, str_eq, if◌then◌else◌}
use watchkeeper.Domain.Types.{Uuid, Result, ok, err}
use watchkeeper.Domain.Fingerprint.{Codec}
use watchkeeper.Simulator.Email.{EmailRequest, EmailEffect, EmailWorld, EmailDb, commit}

-- `uuid.Parse` of the operation header, the decoded body (`none` where `decode` has answered 400),
-- and the `Idempotency-Key` header.
pub record SendInput : Type 0 where
  pub operation_id : Option Uuid
  pub body : Option EmailRequest
  pub key_header : String

pub record Hooks : Type 0 where
  pub accepted_fails : Bool
  pub after_commit_fails : Bool

pub record Response : Type 0 where
  pub status_code : ℕ
  pub effect : Option EmailEffect

abbrev pub refused_with : ℕ → Response
refused_with n = record { status_code = n; effect = none }

unfoldable pub with_key : String → String → EmailRequest → EmailRequest
with_key profile key r =
    if str_eq profile "idempotency_only" then record r { idempotency_key = key } else r

abbrev pub answered : Hooks → Result EmailEffect × EmailDb → Response × EmailDb
answered h (err e, db) = (refused_with 503, db)
answered h (ok e, db) = (
  (if h.after_commit_fails
      then refused_with 503
      else record { status_code = 201; effect = some e }),
  db,
)

abbrev pub send_valid :
    Codec → Hooks → Uuid → EmailRequest → EmailWorld → EmailDb → Response × EmailDb
send_valid c h id r w db =
    if h.accepted_fails then (refused_with 503, db) else answered h (commit c id r w db)

abbrev pub send_body :
    Codec
    → String
    → Hooks
    → SendInput
    → EmailWorld
    → EmailDb
    → Uuid
    → Option EmailRequest
    → Response × EmailDb
send_body c profile h i w db id none = (refused_with 400, db)
send_body c profile h i w db id (some r) =
    if str_eq r.recipient "" || str_eq r.template "" || str_eq r.logical_message_key ""
    then (refused_with 422, db)
    else send_valid c h id (with_key profile i.key_header r) w db

abbrev pub send_to :
    Codec → String → Hooks → SendInput → EmailWorld → EmailDb → Option Uuid → Response × EmailDb
send_to c profile h i w db none = (refused_with 422, db)
send_to c profile h i w db (some id) = send_body c profile h i w db id i.body

unfoldable pub send : Codec → String → Hooks → SendInput → EmailWorld → EmailDb → Response × EmailDb
send c profile h i w db = send_to c profile h i w db i.operation_id
