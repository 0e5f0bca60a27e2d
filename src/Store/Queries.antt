-- ===== src/Store/Queries.antt =====
-- The statements on `operations` that the methods of internal/store/postgres.go share.
use watchkeeper.Prelude.{
  ℕ, suc, String, Option, none, some, List, [], ◌∷◌, ◌++◌, ◌==◌, if◌then◌else◌,
}
use watchkeeper.Domain.State.{OperationState}
use watchkeeper.Domain.Types.{
  Uuid, Time, Error, new_error, not_found, Operation, Receipt, Event, EventType, Source, Details,
}
use watchkeeper.Store.Rows.{OperationRow, WorkflowRow, ReceiptRow, Db, row_checks}
use watchkeeper.Store.Tables.{find, put, find_workflow}
use watchkeeper.Store.Tx.{Tx, unavailable_error, pure, throw, statement, exec, query, ◌>>=◌}

-- `scanOperation` over `operationColumns`
unfoldable pub scan_operation : OperationRow → WorkflowRow → Operation
scan_operation r w = record {
  dispatch_authorized = r.dispatch_authorized;
  id = r.id;
  workflow_id = w.external_workflow_id;
  logical_key = r.logical_key;
  target_service = r.target_service;
  action = r.action;
  request_fingerprint = r.request_fingerprint;
  expected_effect = r.expected_effect;
  capability_profile = r.capability_profile;
  state = r.state;
  attempt_count = r.attempt_count;
  version = r.version;
  prepared_at = r.prepared_at;
  confirmed_at = r.confirmed_at;
  resolved_at = r.resolved_at;
  created_at = r.created_at;
  updated_at = r.updated_at;
  receipt = none;
}

-- `operations o JOIN workflows w ON w.id = o.workflow_id WHERE o.id = $1`
unfoldable pub joined : Uuid → Db → Option (OperationRow × WorkflowRow)
joined id db = elim (find id db.operations) [
  | none ↦ none
  | some r ↦ elim (find_workflow r.workflow_id db.workflows) [ none ↦ none | some w ↦ some (r, w) ]
]

unfoldable pub operation_not_found : Error
operation_not_found = new_error not_found "operation_not_found" "operation was not found"

unfoldable pub found_operation : Option (OperationRow × WorkflowRow) → Tx Operation
found_operation none = throw operation_not_found
found_operation (some (r, w)) = pure (scan_operation r w)

unfoldable pub get_operation_tx : Uuid → Tx Operation
get_operation_tx id = query (unavailable_error "read operation") (joined id) >>= found_operation

-- The row lock has no place here: two transactions on one row run one after the other.
unfoldable pub get_operation_for_update : Uuid → Tx Operation
get_operation_for_update id =
    query (unavailable_error "lock operation") (joined id) >>= found_operation

abbrev pub checked_write : Uuid → OperationRow → Db → Option (Unit {0} × Db)
checked_write id new db =
    if row_checks new then some (tt, record db { operations = put id new db.operations }) else none

abbrev pub write_found :
    Uuid → (OperationRow → OperationRow) → Db → Option OperationRow → Option (Unit {0} × Db)
write_found id change db none = some (tt, db)
write_found id change db (some r) = checked_write id (change r) db

-- `UPDATE operations SET ... WHERE id = $1`; a row that breaks a CHECK or a range is an error.
unfoldable pub update_operation : Error → Uuid → (OperationRow → OperationRow) → Tx (Unit {0})
update_operation e id change = statement e (λ db. write_found id change db (find id db.operations))

-- What an `INSERT INTO operation_events` gives; the identifier and the time are defaults.
pub record NewEvent : Type 0 where
  pub operation_id : Uuid
  pub event_type : EventType
  pub from_state : Option OperationState
  pub to_state : Option OperationState
  pub operation_version : ℕ
  pub source : Source
  pub actor : String
  pub reason_code : String
  pub details : Details

unfoldable pub stamp : ℕ → Time → NewEvent → Event
stamp id now e = record {
  id = id;
  operation_id = e.operation_id;
  event_type = e.event_type;
  from_state = e.from_state;
  to_state = e.to_state;
  operation_version = e.operation_version;
  source = e.source;
  actor = e.actor;
  reason_code = e.reason_code;
  details = e.details;
  created_at = now;
}

unfoldable pub with_event : Time → NewEvent → Db → Db
with_event now e db = record db {
  events = db.events ++ stamp db.next_event_id now e ∷ [];
  next_event_id = suc db.next_event_id;
}

unfoldable pub append_event : Error → NewEvent → Tx (Unit {0})
append_event error e = exec error (λ time db. with_event time e db)

unfoldable pub find_receipt : Uuid → List ReceiptRow → Option Receipt
find_receipt id [] = none
find_receipt id (r ∷ rows) = if r.operation_id == id then some r.receipt else find_receipt id rows
