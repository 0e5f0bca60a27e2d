-- ===== src/Workflow/Worker.antt =====
-- internal/workflow/worker.go: `Execute`, `send` and `confirm`. The client of the API, the email
-- service, the hook and the context are not the worker's: they are the fields of `Service`, over a
-- state `S` of everything outside of the worker.
pub mod Permission
use watchkeeper.Prelude.{
  ℕ, zero, suc, String, Bool, true, false, Option, none, some, ◌==◌, ◌||◌, not, str_eq,
  if◌then◌else◌,
}
use watchkeeper.Domain.State.{
  OperationState, prepared, confirmed, reconciled, retryable, uncertain, state_eq,
}
use watchkeeper.Domain.Types.{
  Uuid, Time, Error, library_error, Result, ok, err, Operation, Receipt, ConfirmRequest,
  PrepareRequest,
}

-- The JSON that the email service answers a send with.
pub record SendReceipt : Type 0 where
  pub receipt_id : String
  pub operation_id : Uuid
  pub status : String
  pub committed_at : Time

-- What one HTTP request of `send` gives: no answer, or a status code and the body, if it decodes.
pub data HttpAnswer : Type 0 where
  no_answer : Error → HttpAnswer
  answer : ℕ → Option SendReceipt → HttpAnswer

pub record Service (S : Type 0) : Type 0 where
  pub prepare : PrepareRequest → S → Result Operation × S
  pub begin_retry : Uuid → ℕ → S → Result Operation × S
  pub authorize_dispatch : Uuid → ℕ → S → Result Operation × S
  pub get_operation : Uuid → S → Result Operation × S
  pub confirm : Uuid → ConfirmRequest → S → Result Operation × S
  -- `POST /email/messages` for an operation, with the `Idempotency-Key` header where it is set
  pub post_message : Uuid → Option Uuid → String → S → HttpAnswer × S
  -- the hook at a named point; `none` is Go's nil error, also for a nil hook
  pub barrier : String → Operation → S → Option Error × S
  -- a wait of 100 ms: the context's error if it is done before
  pub pause : S → Option Error × S
  pub context_error : S → Option Error
  pub marshal_receipt : SendReceipt → String

pub data WorkerError : Type 0 where
  err_uncertain : WorkerError
  invalid_state : OperationState → WorkerError
  conflicting_receipt : WorkerError
  not_persisted : WorkerError
  passed_on : Error → WorkerError

-- An operation with a Go error; `none` is nil.
pub record Ended : Type 0 where
  pub operation : Operation
  pub error : Option WorkerError

abbrev ended : Operation → Ended
ended op = record { operation = op; error = none }

abbrev ended_with : Operation → WorkerError → Ended
ended_with op e = record { operation = op; error = some e }

-- The bare operation that goes with an error before there is one.
abbrev zero_operation : String → Operation
zero_operation logical_key = record {
  dispatch_authorized = false;
  id = 0;
  workflow_id = "";
  logical_key = logical_key;
  target_service = "";
  action = "";
  request_fingerprint = "";
  expected_effect = "";
  capability_profile = "";
  state = OperationState.unlisted "";
  attempt_count = 0;
  version = 0;
  prepared_at = 0;
  confirmed_at = none;
  resolved_at = none;
  created_at = 0;
  updated_at = 0;
  receipt = none;
}

unfoldable pub key_header : Operation → Option Uuid
key_header op = if str_eq op.capability_profile "idempotency_only" then some op.id else none

-- The checks of `send` on the answer.
unfoldable pub read_answer : Operation → HttpAnswer → Result SendReceipt
read_answer op (no_answer e) = err e
read_answer op (answer code none) =
    if code == 201
    then err (library_error "decode receipt")
    else err (library_error "dispatch status")
read_answer op (answer code (some receipt)) =
    if not (code == 201)
    then err (library_error "dispatch status")
    else if not (receipt.operation_id == op.id)
        || str_eq receipt.receipt_id ""
        || not (str_eq receipt.status "committed")
    then err (library_error "receipt identity mismatch")
    else ok receipt

abbrev receipt_is : String → Option Receipt → Bool
receipt_is id none = false
receipt_is id (some r) = str_eq r.service_receipt_id id

-- What `confirm` makes of the operation after a confirmation that failed with `e`; `none` is another
-- round of its loop.
unfoldable pub after_refusal : SendReceipt → Error → Operation → Option Ended
after_refusal receipt e current =
    if state_eq current.state confirmed
    then some (
        if receipt_is receipt.receipt_id current.receipt
        then ended current
        else ended_with current conflicting_receipt)
    else if state_eq current.state reconciled
    then some (ended current)
    else if not (state_eq current.state prepared)
    then some (ended_with current (passed_on e))
    else none

-- A round of `Execute` ends it, or goes on with an operation.
pub data Round : Type 0 where
  finished : Ended → Round
  goes_on : Operation → Round

module _ {S : Type 0} (v : Service S) (payload : String) where
  unfoldable pub send : Operation → S → Result SendReceipt × S
  send op s =
      let (response, t) = v.post_message op.id (key_header op) payload s in
      (read_answer op response, t)

  unfoldable pub confirm_request : Operation → SendReceipt → ConfirmRequest
  confirm_request op receipt = record {
    expected_version = op.version;
    service_receipt_id = receipt.receipt_id;
    receipt = v.marshal_receipt receipt;
    received_at = receipt.committed_at;
  }

  -- Each takes the next round of its loop as `again`.
  abbrev confirm_next : (Operation → S → Ended × S) → Operation → Option Ended → S → Ended × S
  confirm_next again current (some e) s = (e, s)
  confirm_next again current none s = again current s

  abbrev confirm_read :
      (Operation → S → Ended × S)
      → Operation
      → SendReceipt
      → Error
      → Result Operation × S
      → Ended × S
  confirm_read again op receipt e (err e2, s) = (ended_with op (passed_on e), s)
  confirm_read again op receipt e (ok current, s) =
      confirm_next again current (after_refusal receipt e current) s

  abbrev confirm_answered :
      (Operation → S → Ended × S) → Operation → SendReceipt → Result Operation × S → Ended × S
  confirm_answered again op receipt (ok done, s) = (ended done, s)
  confirm_answered again op receipt (err e, s) =
      confirm_read again op receipt e (v.get_operation op.id s)

  -- `confirm` has five rounds.
  unfoldable pub confirm_rounds : ℕ → Operation → SendReceipt → S → Ended × S
  confirm_rounds zero op receipt s = (ended_with op not_persisted, s)
  confirm_rounds (suc n) op receipt s =
      confirm_answered (λ current t. confirm_rounds n current receipt t) op receipt
        (v.confirm op.id (confirm_request op receipt) s)

  unfoldable pub confirm : Operation → SendReceipt → S → Ended × S
  unfolding confirm_rounds
  confirm op receipt s = confirm_rounds 5 op receipt s

  abbrev hooked : String → Operation → S → (S → Round × S) → Option Error × S → Round × S
  hooked name op s next (none, t) = next t
  hooked name op s next (some e, t) = (finished (ended_with op (passed_on e)), t)

  abbrev at_barrier : String → Operation → (S → Round × S) → S → Round × S
  at_barrier name op next s = hooked name op s next (v.barrier name op s)

  abbrev persisted_or : Operation → Operation → S → Option WorkerError → Round × S
  persisted_or op done s none =
      at_barrier "after_persistence" done (λ t. (finished (ended done), t)) s
  persisted_or op done s (some e) = (goes_on op, s)

  abbrev persisted : Operation → Ended × S → Round × S
  persisted op (e, s) = persisted_or op e.operation s e.error

  abbrev sent : Operation → Result SendReceipt × S → Round × S
  sent op (err e, s) = (goes_on op, s)
  sent op (ok receipt, s) =
      at_barrier "after_response" op (λ t. persisted op (confirm op receipt t)) s

  abbrev granted : Operation → Result Operation × S → Round × S
  granted op (err e, s) = (goes_on op, s)
  granted op (ok grant, s) = sent grant (send grant s)

  abbrev retried : Result Operation × S → Round × S
  retried (ok op, s) = (goes_on op, s)
  retried (err e, s) = (finished (ended_with (zero_operation "") (passed_on e)), s)

  abbrev prepared_round : Operation → S → Round × S
  prepared_round op s =
      if op.dispatch_authorized
      then (goes_on op, s)
      else at_barrier "before_dispatch" op
          (λ t. granted op (v.authorize_dispatch op.id op.version t)) s

  -- The `switch` on the state.
  unfoldable pub round_in : OperationState → Operation → S → Round × S
  round_in confirmed op s = (finished (ended op), s)
  round_in reconciled op s = (finished (ended op), s)
  round_in uncertain op s = (finished (ended_with op err_uncertain), s)
  round_in retryable op s = retried (v.begin_retry op.id op.version s)
  round_in prepared op s = prepared_round op s
  round_in (OperationState.unlisted x) op s =
      (finished (ended_with op (invalid_state (OperationState.unlisted x))), s)

  unfoldable pub round : Operation → S → Round × S
  unfolding round_in
  round op s = round_in op.state op s

  abbrev unread : (Operation → S → Round × S) → Operation → Option Error → S → Round × S
  unread again op (some e) s = (finished (ended_with op (passed_on e)), s)
  unread again op none s = again op s

  abbrev reread : (Operation → S → Round × S) → Operation → Result Operation × S → Round × S
  reread again op (ok current, s) = again current s
  reread again op (err e, s) = unread again op (v.context_error s) s

  abbrev paused : (Operation → S → Round × S) → Operation → Option Error × S → Round × S
  paused again op (some e, s) = (finished (ended_with op (passed_on e)), s)
  paused again op (none, s) = reread again op (v.get_operation op.id s)

  abbrev after_round : (Operation → S → Round × S) → Round × S → Round × S
  after_round again (finished e, s) = (finished e, s)
  after_round again (goes_on op, s) = paused again op (v.pause s)

  -- The loop: a round, the wait, and the operation read again; where the read fails the operation
  -- stays as it was. Fuel counts the rounds; `goes_on` is a loop that has not ended within them.
  unfoldable pub rounds : ℕ → Operation → S → Round × S
  rounds zero op s = (goes_on op, s)
  rounds (suc n) op s = after_round (λ current t. rounds n current t) (round op s)

  abbrev started : ℕ → Result Operation × S → Round × S
  started n (ok op, s) = rounds n op s
  started n (err e, s) = (finished (ended_with (zero_operation "") (passed_on e)), s)

  -- A hook that fails ends it before there is an operation.
  abbrev intended : ℕ → PrepareRequest → Option Error × S → Round × S
  intended n req (none, t) = started n (v.prepare req t)
  intended n req (some e, t) = (finished (ended_with (zero_operation "") (passed_on e)), t)

  unfoldable pub execute : ℕ → PrepareRequest → S → Round × S
  unfolding rounds
  execute n req s = intended n req (v.barrier "before_intent" (zero_operation req.logical_key) s)
