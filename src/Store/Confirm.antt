-- ===== src/Store/Confirm.antt =====
-- `Confirm` of internal/store/postgres.go: persisting the receipt of the normal path.
use watchkeeper.Prelude.{
  ℕ, ◌+◌, String, Option, none, some, [], ◌∷◌, ◌++◌, ◌==◌, ◌||◌, not, is_some, str_eq,
  if◌then◌else◌,
}
use watchkeeper.Domain.State.{prepared, confirmed, state_eq}
use watchkeeper.Domain.Types.{
  Uuid, Time, Error, Result, new_error, conflict, validation, Operation, Receipt, ConfirmRequest,
  receipt_confirmed, api, receipt_details,
}
use watchkeeper.Domain.Fingerprint.{Encoded, encoded, failed, receipt_fingerprint}
use watchkeeper.Store.Rows.{OperationRow, Db}
use watchkeeper.Store.Tables.{find}
use watchkeeper.Store.Tx.{
  required, World, Tx, unavailable_error, pure, query, statement, now, new_id, reject_if, ◌>>=◌,
  ◌>>◌, run,
}
use watchkeeper.Store.Queries.{
  get_operation_tx, get_operation_for_update, update_operation, NewEvent, append_event,
  find_receipt,
}

unfoldable pub confirmed_row : Time → OperationRow → OperationRow
confirmed_row time r = record r {
  state = confirmed;
  version = r.version + 1;
  confirmed_at = some time;
  resolved_at = some time;
  lease = none;
  updated_at = time;
}

unfoldable pub confirm_event : Uuid → ℕ → Uuid → NewEvent
confirm_event id version receipt_id = record {
  operation_id = id;
  event_type = receipt_confirmed;
  from_state = some prepared;
  to_state = some confirmed;
  operation_version = version;
  source = api;
  actor = "watchkeeper-api";
  reason_code = "receipt_persisted";
  details = receipt_details receipt_id;
}

unfoldable pub conflict_error : String → String → Error
conflict_error code message = new_error conflict code message

-- `INSERT INTO receipts`: the operation may have one receipt.
unfoldable pub insert_receipt : Uuid → Receipt → Db → Option (Unit {0} × Db)
insert_receipt id receipt db =
    if is_some (find_receipt id db.receipts)
    then none
    else some (
      tt,
      record db { receipts = db.receipts ++ record { operation_id = id; receipt = receipt } ∷ [] },
    )

unfoldable pub version_of : Uuid → Db → Option ℕ
version_of id db = elim (find id db.operations) [ none ↦ none | some r ↦ some r.version ]

abbrev with_receipt : Operation → Receipt → Operation
with_receipt op receipt = record op { receipt = some receipt }

-- `getOperationTx` and `getReceiptTx`, as they end both branches
unfoldable pub read_confirmed : Uuid → Tx Operation
read_confirmed id = do
  op ← get_operation_tx id
  found ← query (unavailable_error "read receipt") (λ db. find_receipt id db.receipts)
  receipt ← required (Error.library_error "no rows in result set") found
  pure (with_receipt op receipt)

unfoldable pub confirm_replay : Uuid → ConfirmRequest → String → Receipt → Tx Operation
confirm_replay id req fingerprint existing = do
  reject_if
      (not (str_eq existing.receipt_fingerprint fingerprint)
        || not (str_eq existing.service_receipt_id req.service_receipt_id))
      (conflict_error "receipt_conflict" "operation already has a different receipt")
  read_confirmed id

unfoldable pub new_receipt : Uuid → ConfirmRequest → String → Receipt
new_receipt receipt_id req fingerprint = record {
  id = receipt_id;
  service_receipt_id = req.service_receipt_id;
  receipt_fingerprint = fingerprint;
  payload = req.receipt;
  received_at = req.received_at;
}

unfoldable pub confirm_first : Uuid → ConfirmRequest → String → Operation → Tx Operation
confirm_first id req fingerprint op = do
  reject_if (not (state_eq op.state prepared))
      (conflict_error "operation_state_conflict" "only a prepared operation can be confirmed")
  reject_if (not (op.version == req.expected_version)) (
      conflict_error "operation_version_conflict"
        "operation version does not match expected_version")
  receipt_id ← new_id
  statement (unavailable_error "insert receipt")
      (insert_receipt id (new_receipt receipt_id req fingerprint))
  time ← now
  update_operation (unavailable_error "confirm operation") id (confirmed_row time)
  stored ← query (unavailable_error "read confirmed version") (version_of id)
  version ← required (unavailable_error "read confirmed version") stored
  append_event (unavailable_error "append confirmation event") (confirm_event id version receipt_id)
  read_confirmed id

unfoldable pub confirm_found :
    Uuid → ConfirmRequest → String → Operation → Option Receipt → Tx Operation
confirm_found id req fingerprint op (some existing) = confirm_replay id req fingerprint existing
confirm_found id req fingerprint op none = confirm_first id req fingerprint op

unfoldable pub confirm_body : Uuid → ConfirmRequest → String → Tx Operation
confirm_body id req fingerprint = do
  op ← get_operation_for_update id
  existing ← query (unavailable_error "read receipt") (λ db. find_receipt id db.receipts)
  confirm_found id req fingerprint op existing

-- Each branch has a message of its own for its COMMIT.
abbrev commit_confirmation : Uuid → Db → Error
commit_confirmation id db = unavailable_error (
    if is_some (find_receipt id db.receipts)
    then "commit idempotent confirmation"
    else "commit confirmation")

abbrev pub confirm_fingerprinted :
    Uuid → ConfirmRequest → Encoded → World → Db → Result Operation × Db
confirm_fingerprinted id req (failed m) w db =
    (Result.err (new_error validation "invalid_receipt" m), db)
confirm_fingerprinted id req (encoded fingerprint) w db =
    run (unavailable_error "begin confirmation transaction") (commit_confirmation id db)
      (confirm_body id req fingerprint) w db

unfoldable pub confirm : Uuid → ConfirmRequest → World → Db → Result Operation × Db
confirm id req w db = confirm_fingerprinted id req (receipt_fingerprint w.codec req.receipt) w db
