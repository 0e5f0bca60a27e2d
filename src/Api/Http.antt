-- ===== src/Api/Http.antt =====
-- What the handlers of internal/api/server.go answer: `writeError`, `errorEnvelope`, `writeJSON` and
-- `decodeJSON`, and the checks that a handler makes before it calls the store.
use watchkeeper.Prelude.{ℕ, String, Bool, Option, none, List, str_eq, if◌then◌else◌}
use watchkeeper.Domain.Types.{
  Uuid, Time, ErrorKind, Error, domain_error, library_error, Result, ok, err, new_error, validation,
  not_found, conflict, unavailable, Operation, OperationPage, EventPage, RecoveryClaim,
}
use watchkeeper.Store.Rows.{Db}

-- The values that `writeJSON` encodes. An error has its code, message, request and details.
pub data Body : Type 0 where
  operation_body : Operation → Body
  operations_body : OperationPage → Body
  events_body : EventPage → Body
  claims_body : List RecoveryClaim → Body
  lease_body : Time → Body
  error_body : String → String → String → Option Uuid → Body
  health_body : String → String → Body

pub record Response : Type 0 where
  pub status : ℕ
  pub body : Body

unfoldable pub write_json : ℕ → Body → Response
write_json status body = record { status = status; body = body }

unfoldable pub error_status : ErrorKind → String → ℕ
error_status validation code = if str_eq code "unauthorized" then 401 else 422
error_status not_found code = 404
error_status conflict code = 409
error_status unavailable code = 503

-- `errors.As` finds the program's own error; any other is logged and not shown.
unfoldable pub write_error : String → Error → Response
unfolding write_json
write_error request_id (domain_error e) =
    write_json (error_status e.kind e.code) (error_body e.code e.message request_id e.operation_id)
write_error request_id (library_error message) =
    write_json 500 (error_body "internal_error" "internal server error" request_id none)

-- What a handler has before the store is called: its answer, or what it read from the request.
pub data Checked (A : Type 0) : Type 0 where
  answered : Response → Checked A
  passed : A → Checked A

module _ {A B : Type 0} where
  infixl 5 ◌>>=◌ ◌>>◌
  unfoldable pub ◌>>=◌ : Checked A → (A → Checked B) → Checked B
  answered r >>= f = answered r
  passed a >>= f = f a

  abbrev pub ◌>>◌ : Checked A → Checked B → Checked B
  m >> n = m >>= λ _. n

-- `if bad { s.writeError(...); return }`
unfoldable pub unless : Bool → Response → Checked (Unit {0})
unless bad r = if bad then answered r else passed tt

unfoldable pub or_answer : {A : Type 0} → Response → Option A → Checked A
or_answer r none = answered r
or_answer r (Option.some a) = passed a

unfoldable pub invalid : String → String → String → Response
unfolding write_error write_json error_status
invalid request_id code message = write_error request_id (new_error validation code message)

-- What the JSON decoder makes of a body of at most 1 MB: its error, a value that something follows, or
-- one value.
pub data Decoded (A : Type 0) : Type 0 where
  malformed : String → Decoded A
  followed : A → Decoded A
  single : A → Decoded A

unfoldable pub decode_json : {A : Type 0} → String → Decoded A → Checked A
decode_json request_id (malformed message) =
    answered (write_json 400 (error_body "invalid_json" message request_id none))
decode_json request_id (followed a) = answered (
    write_json 400
      (error_body "invalid_json" "request body must contain one JSON value" request_id none))
decode_json request_id (single a) = passed a

-- The end of a handler: the store's error, or its value with a status.
module _ {A : Type 0} where
  abbrev pub respond : String → (A → Response) → Result A → Response
  respond request_id f (ok a) = f a
  respond request_id f (err e) = write_error request_id e

  abbrev pub finished : String → (A → Response) → Result A × Db → Response × Db
  finished request_id f (r, db) = (respond request_id f r, db)

  -- A handler calls the store where its checks passed.
  abbrev pub checked : Checked A → Db → (A → Response × Db) → Response × Db
  checked (answered r) db f = (r, db)
  checked (passed a) db f = f a
