-- ===== src/Simulator/Email.antt =====
-- `Commit` of internal/simulator/email.go: an effect, at most one for an idempotency key.
pub mod Replay
use watchkeeper.Prelude.{
  ℕ, String, Bool, true, false, Option, none, some, List, [], ◌∷◌, ◌++◌, ◌==◌, ◌||◌, not, is_some,
  str_eq, if◌then◌else◌,
}
use watchkeeper.Domain.Types.{Uuid, Time, Error, library_error, Result, ok, err}
use watchkeeper.Domain.Fingerprint.{
  Codec, Json, Fields, Encoded, encoded, failed, structure, field, text, end,
}
use watchkeeper.Store.Tx.{CommitOutcome, settle}

pub record EmailRequest : Type 0 where
  pub idempotency_key : String
  pub recipient : String
  pub template : String
  pub logical_message_key : String
  pub experiment_run_id : Option String

pub record EmailEffect : Type 0 where
  pub receipt_id : Uuid
  pub operation_id : Uuid
  pub recipient : String
  pub template : String
  pub logical_message_key : String
  pub committed_at : Time

-- The tables of migrations/simulator.
pub record DispatchRow : Type 0 where
  pub operation_id : Uuid
  pub experiment_run_id : Option String
  pub logical_message_key : String
  pub idempotency_key : String

pub record KeyRow : Type 0 where
  pub key : String
  pub operation_id : Uuid
  pub fingerprint : String
  pub receipt_id : Uuid

pub record EmailDb : Type 0 where
  pub dispatches : List DispatchRow
  pub effects : List EmailEffect
  pub keys : List KeyRow

abbrev pub no_emails : EmailDb
no_emails = record { dispatches = []; effects = []; keys = [] }

-- What a call takes from outside: the transaction's time, the new identifier, which database calls
-- fail, and how the COMMIT ends.
pub record EmailWorld : Type 0 where
  pub now : Time
  pub new_id : Option Uuid
  pub fails : ℕ → Bool
  pub commit : CommitOutcome

unfoldable pub find_key : String → List KeyRow → Option KeyRow
find_key key [] = none
find_key key (k ∷ rows) = if str_eq k.key key then some k else find_key key rows

unfoldable pub find_effect : Uuid → List EmailEffect → Option EmailEffect
find_effect id [] = none
find_effect id (e ∷ rows) = if e.receipt_id == id then some e else find_effect id rows

abbrev run_field : Option String → Fields
run_field none = end
run_field (some run) = field "experiment_run_id" (text run) end

-- The JSON of the request; the idempotency key is no part of it.
unfoldable pub request_json : EmailRequest → Json
request_json r = structure (
    field "recipient" (text r.recipient) (
      field "template" (text r.template)
        (field "logical_message_key" (text r.logical_message_key) (run_field r.experiment_run_id))))

-- `raw, _ := json.Marshal(request)`: no bytes on an error.
abbrev bytes_of : Encoded → String
bytes_of (encoded out) = out
bytes_of (failed m) = ""

unfoldable pub email_fingerprint : Codec → EmailRequest → String
email_fingerprint c r = c.sha256_hex (bytes_of (c.marshal (request_json r)))

unfoldable pub insert_dispatch : Uuid → EmailRequest → EmailDb → EmailDb
insert_dispatch operation_id r db = record db {
  dispatches =
      db.dispatches
      ++ record {
        operation_id = operation_id;
        experiment_run_id = r.experiment_run_id;
        logical_message_key = r.logical_message_key;
        idempotency_key = r.idempotency_key;
      }
        ∷ [];
}

unfoldable pub new_effect : Uuid → Time → Uuid → EmailRequest → EmailEffect
new_effect id time operation_id r = record {
  receipt_id = id;
  operation_id = operation_id;
  recipient = r.recipient;
  template = r.template;
  logical_message_key = r.logical_message_key;
  committed_at = time;
}

unfoldable pub new_key : EmailEffect → String → String → KeyRow
new_key e key fingerprint = record {
  key = key;
  operation_id = e.operation_id;
  fingerprint = fingerprint;
  receipt_id = e.receipt_id;
}

unfoldable pub key_conflict : Error
key_conflict = library_error "idempotency key reused with different request"

abbrev database_error : Error
database_error = library_error "database"

-- The key is there: its effect is answered again, for the same operation and request.
unfoldable pub replay_effect :
    EmailWorld → Uuid → String → KeyRow → EmailDb → Result (EmailEffect × EmailDb)
replay_effect w operation_id fingerprint k db =
    if not (str_eq k.fingerprint fingerprint) || not (k.operation_id == operation_id)
    then err key_conflict
    else if w.fails 4
    then err database_error
    else elim (find_effect k.receipt_id db.effects) [
      | none ↦ err database_error
      | some e ↦ ok (e, db)
    ]

-- `INSERT INTO email_keys`, where the request has a key
unfoldable pub insert_key :
    EmailWorld → String → String → EmailEffect → EmailDb → Result (EmailEffect × EmailDb)
insert_key w key fingerprint e db =
    if str_eq key ""
    then ok (e, db)
    else if w.fails 5 || is_some (find_key key db.keys)
    then err database_error
    else ok (e, record db { keys = db.keys ++ new_key e key fingerprint ∷ [] })

unfoldable pub insert_effect :
    EmailWorld → String → String → EmailEffect → EmailDb → Result (EmailEffect × EmailDb)
insert_effect w key fingerprint e db =
    if w.fails 4 || is_some (find_effect e.receipt_id db.effects)
    then err database_error
    else insert_key w key fingerprint e (record db { effects = db.effects ++ e ∷ [] })

unfoldable pub commit_keyed :
    EmailWorld
    → String
    → String
    → EmailEffect
    → EmailDb
    → Option KeyRow
    → Result (EmailEffect × EmailDb)
commit_keyed w key fingerprint e db (some k) = replay_effect w e.operation_id fingerprint k db
commit_keyed w key fingerprint e db none = insert_effect w key fingerprint e db

-- After the dispatch is written down; the advisory lock is one call, the look for the key another.
unfoldable pub commit_effect :
    EmailWorld → String → String → EmailEffect → EmailDb → Result (EmailEffect × EmailDb)
commit_effect w key fingerprint e db =
    if str_eq key ""
    then insert_effect w key fingerprint e db
    else if w.fails 2 || w.fails 3
    then err database_error
    else commit_keyed w key fingerprint e db (find_key key db.keys)

abbrev settled :
    EmailWorld → EmailDb → Result (EmailEffect × EmailDb) → Result EmailEffect × EmailDb
settled w db (ok (e, new)) = settle w.commit e database_error db new
settled w db (err x) = (err x, db)

abbrev commit_with :
    Codec → Uuid → EmailRequest → EmailWorld → EmailDb → Option Uuid → Result EmailEffect × EmailDb
commit_with c operation_id r w db none = (err (library_error "generate UUIDv7"), db)
commit_with c operation_id r w db (some id) =
    if w.fails 0 || w.fails 1
    then (err database_error, db)
    else settled w db (
        commit_effect w r.idempotency_key (email_fingerprint c r)
          (new_effect id w.now operation_id r) (insert_dispatch operation_id r db))

unfoldable pub commit :
    Codec → Uuid → EmailRequest → EmailWorld → EmailDb → Result EmailEffect × EmailDb
commit c operation_id r w db = commit_with c operation_id r w db w.new_id
