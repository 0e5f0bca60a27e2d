-- ===== src/Workflow/Tests.antt =====
-- A run of the worker against a service in memory, and its theorem at it.
use watchkeeper.Prelude.{Option, ◌≡◌, refl, false, none, some, sym, ap, ◌∙◌}
use watchkeeper.Domain.Types.{Operation, PrepareRequest, Uuid, Result, ok, err}
use watchkeeper.Workflow.Worker.Permission.{execute-closed, Guarded}
use watchkeeper.Domain.State.{confirmed, prepared, OperationState, watchkeeper_strategy}
use watchkeeper.Workflow.Worker.{
  finished, key_header, read_answer, send, confirm_rounds, answer, confirm, round_in, round, rounds,
  Service, execute,
}

abbrev toy_operation : Uuid → OperationState → Operation
toy_operation id state = record {
  dispatch_authorized = false;
  id = id;
  workflow_id = "wf";
  logical_key = "k";
  target_service = "email";
  action = "send";
  request_fingerprint = "f";
  expected_effect = "{}";
  capability_profile = "receipt_status";
  state = state;
  attempt_count = 1;
  version = 1;
  prepared_at = 0;
  confirmed_at = none;
  resolved_at = none;
  created_at = 0;
  updated_at = 0;
  receipt = none;
}

-- The state is the operation whose send is allowed, if there is one.
abbrev toy_service : Service (Option Uuid)
toy_service = record {
  prepare = λ req s. (ok (toy_operation 5 prepared), s);
  begin_retry = λ id n s. (ok (toy_operation id prepared), s);
  authorize_dispatch = λ id n s. (ok (toy_operation id prepared), some id);
  get_operation = λ id s. (ok (toy_operation id confirmed), s);
  confirm = λ id req s. (ok (toy_operation id confirmed), s);
  post_message = λ id key payload s. (
    answer 201 (
        some
          (record { receipt_id = "r"; operation_id = id; status = "committed"; committed_at = 9 })),
    none,
  );
  barrier = λ name op s. (none, s);
  pause = λ s. (none, s);
  context_error = λ s. none;
  marshal_receipt = λ r. r.receipt_id;
}

abbrev toy_request : PrepareRequest
toy_request = record {
  workflow_id = "wf";
  strategy = watchkeeper_strategy;
  experiment_run_id = none;
  logical_key = "k";
  target_service = "email";
  action = "send";
  request_fingerprint = "f";
  expected_effect = "{}";
  capability_profile = "receipt_status";
  trace_context = "";
}

-- The run sends, confirms and ends.
toy_run :
    execute toy_service "{}" 1 toy_request none
    ≡ (finished (record { operation = toy_operation 5 confirmed; error = none }), none)
unfolding execute rounds round round_in confirm confirm_rounds send read_answer key_header
toy_run = refl

abbrev id_of : Result Operation → Uuid
id_of (ok op) = op.id
id_of (err e) = 0

toy_service-Guarded : Guarded toy_service (λ s. s ≡ none) (λ op s. s ≡ some op.id)
toy_service-Guarded = record {
  prepare = λ req s h. h;
  begin_retry = λ id n s h. h;
  get_operation = λ id s h. h;
  confirm = λ id req s h. h;
  barrier = λ name op s h. h;
  pause = λ s h. h;
  grant = λ id n s t op h eq. sym (ap (λ r. r.1) eq) ∙ ap (λ r. some (id_of r.0)) eq;
  refusal = λ id n s t e h eq. cc;
  message = λ op key payload s h. refl;
}

execute-closed_example : (execute toy_service "{}" 3 toy_request none).1 ≡ none
execute-closed_example =
    execute-closed toy_service "{}" (λ s. s ≡ none) (λ op s. s ≡ some op.id) toy_service-Guarded 3
      toy_request none refl
