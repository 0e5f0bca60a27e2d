-- ===== src/Store/Dispatch.antt =====
-- internal/store/dispatch.go: the grant of a single send.
pub mod Granted
use watchkeeper.Prelude.{ℕ, ◌+◌, Bool, true, Option, some, ◌==◌, ◌||◌, not, is_some}
use watchkeeper.Domain.State.{prepared, state_eq}
use watchkeeper.Domain.Types.{
  Uuid, Time, Error, Result, new_error, conflict, library_error, Operation, dispatch_authorized,
  worker, no_details,
}
use watchkeeper.Store.Rows.{OperationRow, Db}
use watchkeeper.Store.Tables.{find}
use watchkeeper.Store.Tx.{World, Tx, unavailable_error, query, now, reject_if, ◌>>=◌, ◌>>◌, run}
use watchkeeper.Store.Queries.{
  get_operation_tx, get_operation_for_update, update_operation, NewEvent, append_event,
}

-- `SELECT lease_token_hash IS NOT NULL FROM operations WHERE id = $1`
unfoldable pub is_claimed : Uuid → Db → Bool
is_claimed id db = elim (find id db.operations) [
  | Option.none ↦ Bool.false
  | some r ↦ is_some r.lease
]

unfoldable pub authorized_row : Time → OperationRow → OperationRow
authorized_row time r = record r {
  dispatch_authorized = true;
  version = r.version + 1;
  updated_at = time;
}

unfoldable pub dispatch_not_authorized : Error
dispatch_not_authorized =
    new_error conflict "dispatch_not_authorized"
      "dispatch already issued, recovery claimed, or operation version/state changed"

unfoldable pub dispatch_event : Uuid → ℕ → NewEvent
dispatch_event id version = record {
  operation_id = id;
  event_type = dispatch_authorized;
  from_state = some prepared;
  to_state = some prepared;
  operation_version = version + 1;
  source = worker;
  actor = "workflow-worker";
  reason_code = "single_send_authorized";
  details = no_details;
}

unfoldable pub authorize_dispatch_body : Uuid → ℕ → Tx Operation
authorize_dispatch_body id version = do
  op ← get_operation_for_update id
  claimed ← query (library_error "read lease") (is_claimed id)
  reject_if
      (not (state_eq op.state prepared)
        || not (op.version == version)
        || op.dispatch_authorized
        || claimed)
      dispatch_not_authorized
  time ← now
  update_operation (library_error "authorize dispatch") id (authorized_row time)
  append_event (library_error "append dispatch event") (dispatch_event id version)
  get_operation_tx id

unfoldable pub authorize_dispatch : Uuid → ℕ → World → Db → Result Operation × Db
authorize_dispatch id version =
    run (unavailable_error "begin dispatch") (unavailable_error "commit dispatch")
      (authorize_dispatch_body id version)
