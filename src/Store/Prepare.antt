-- ===== src/Store/Prepare.antt =====
-- `Prepare` and `ensureWorkflow` of internal/store/postgres.go: making an intent durable.
use watchkeeper.Prelude.{
  String, Bool, true, false, Option, none, some, List, [], ◌∷◌, ◌++◌, ◌==◌, ◌&&◌, ◌||◌, not,
  is_some, str_eq, if◌then◌else◌,
}
use watchkeeper.Domain.State.{
  Strategy, blind_retry, idempotency_key, checkpoint, watchkeeper_strategy, prepared,
}
use watchkeeper.Domain.Types.{
  Uuid, Time, Error, domain_error, Result, conflict, Operation, PrepareRequest, intent_prepared,
  api, no_details,
}
use watchkeeper.Store.Rows.{OperationRow, WorkflowRow, Db}
use watchkeeper.Store.Tables.{find}
use watchkeeper.Store.Tx.{
  required, World, Tx, unavailable_error, pure, query, statement, exec, now, new_id, reject_if,
  ◌>>=◌, ◌>>◌, run,
}
use watchkeeper.Store.Queries.{get_operation_tx, NewEvent, append_event}
use watchkeeper.Store.Confirm.{conflict_error}

unfoldable pub strategy_eq : Strategy → Strategy → Bool
strategy_eq blind_retry blind_retry = true
strategy_eq idempotency_key idempotency_key = true
strategy_eq checkpoint checkpoint = true
strategy_eq watchkeeper_strategy watchkeeper_strategy = true
strategy_eq (Strategy.unlisted s) (Strategy.unlisted t) = str_eq s t
strategy_eq _ _ = false

unfoldable pub find_external : String → List WorkflowRow → Option WorkflowRow
find_external name [] = none
find_external name (w ∷ rows) =
    if str_eq w.external_workflow_id name then some w else find_external name rows

abbrev text_or_empty : Option String → String
text_or_empty none = ""
text_or_empty (some s) = s

-- `INSERT INTO workflows ... ON CONFLICT (external_workflow_id) DO NOTHING`
unfoldable pub insert_workflow : Uuid → PrepareRequest → Db → Db
insert_workflow id req db =
    if is_some (find_external req.workflow_id db.workflows) then db else record db {
      workflows =
          db.workflows
          ++ record {
            id = id;
            external_workflow_id = req.workflow_id;
            strategy = req.strategy;
            experiment_run_id = req.experiment_run_id;
          }
            ∷ [];
    }

unfoldable pub ensure_workflow : PrepareRequest → Tx Uuid
ensure_workflow req = do
  fresh ← new_id
  exec (unavailable_error "insert workflow") (λ time db. insert_workflow fresh req db)
  found ←
      query (unavailable_error "read workflow") (λ db. find_external req.workflow_id db.workflows)
  w ← required (unavailable_error "read workflow") found
  reject_if
      (not (strategy_eq w.strategy req.strategy)
        || not (str_eq (text_or_empty w.experiment_run_id) (text_or_empty req.experiment_run_id)))
      (conflict_error "workflow_metadata_conflict"
        "workflow already exists with different strategy or experiment run")
  pure w.id

-- The row of a natural key.
unfoldable pub find_natural : Uuid → String → List OperationRow → Option OperationRow
find_natural workflow_id key [] = none
find_natural workflow_id key (r ∷ rows) =
    if r.workflow_id == workflow_id && str_eq r.logical_key key
    then some r
    else find_natural workflow_id key rows

unfoldable pub trace_or_empty : String → String
trace_or_empty trace = if str_eq trace "" then "{}" else trace

-- The columns that the INSERT leaves out have the defaults of the schema.
unfoldable pub prepared_row : Time → Uuid → Uuid → PrepareRequest → OperationRow
prepared_row time id workflow_id req = record {
  id = id;
  workflow_id = workflow_id;
  logical_key = req.logical_key;
  target_service = req.target_service;
  action = req.action;
  request_fingerprint = req.request_fingerprint;
  expected_effect = req.expected_effect;
  capability_profile = req.capability_profile;
  state = prepared;
  attempt_count = 1;
  version = 1;
  prepared_at = time;
  confirmed_at = none;
  resolved_at = none;
  next_reconcile_at = none;
  lease = none;
  trace_context = trace_or_empty req.trace_context;
  created_at = time;
  updated_at = time;
  dispatch_authorized = false;
}

abbrev inserted_or_taken :
    Uuid → OperationRow → Db → Option OperationRow → Option OperationRow → Option (Option Uuid × Db)
inserted_or_taken id row db (some taken) same_id = some (none, db)
inserted_or_taken id row db none (some clash) = none
inserted_or_taken id row db none none =
    some (some id, record db { operations = db.operations ++ row ∷ [] })

-- `INSERT INTO operations ... ON CONFLICT (workflow_id, logical_key) DO NOTHING RETURNING id`: no row
-- comes back where the natural key is taken, and a taken primary key is an error.
unfoldable pub insert_operation : OperationRow → Db → Option (Option Uuid × Db)
insert_operation row db =
    inserted_or_taken row.id row db (find_natural row.workflow_id row.logical_key db.operations)
      (find row.id db.operations)

unfoldable pub fingerprint_conflict : Uuid → Error
fingerprint_conflict id = domain_error (record {
  kind = conflict;
  code = "operation_fingerprint_conflict";
  message = "logical operation already exists with a different fingerprint";
  operation_id = some id;
})

unfoldable pub intent_event : Uuid → NewEvent
intent_event id = record {
  operation_id = id;
  event_type = intent_prepared;
  from_state = none;
  to_state = some prepared;
  operation_version = 1;
  source = api;
  actor = "watchkeeper-api";
  reason_code = "intent_persisted";
  details = no_details;
}

-- After the INSERT: the operation's identifier, and whether it is new.
unfoldable pub prepare_inserted : Uuid → PrepareRequest → Option Uuid → Tx (Uuid × Bool)
prepare_inserted workflow_id req (some id) = do
  append_event (unavailable_error "append intent event") (intent_event id)
  pure (id, true)
prepare_inserted workflow_id req none = do
  found ←
      query (unavailable_error "read existing operation")
        (λ db. find_natural workflow_id req.logical_key db.operations)
  existing ← required (unavailable_error "read existing operation") found
  reject_if (not (str_eq existing.request_fingerprint req.request_fingerprint))
      (fingerprint_conflict existing.id)
  pure (existing.id, false)

unfoldable pub prepare_insert : Uuid → Uuid → PrepareRequest → Time → Tx (Option Uuid)
prepare_insert id workflow_id req time =
    statement (unavailable_error "insert operation")
      (insert_operation (prepared_row time id workflow_id req))

unfoldable pub prepare_body : PrepareRequest → Tx (Operation × Bool)
prepare_body req = do
  workflow_id ← ensure_workflow req
  id ← new_id
  time ← now
  inserted ← prepare_insert id workflow_id req time
  target ← prepare_inserted workflow_id req inserted
  op ← get_operation_tx target.0
  pure (op, target.1)

unfoldable pub prepare : PrepareRequest → World → Db → Result (Operation × Bool) × Db
prepare req =
    run (unavailable_error "begin prepare transaction") (unavailable_error "commit prepare")
      (prepare_body req)
