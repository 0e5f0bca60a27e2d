-- ===== src/Workflow/Worker/Permission.antt =====
-- The worker sends only with a permission that it has just been given.
use watchkeeper.Prelude.{
  none, some, zero, suc, true, false, if◌then◌else◌, ◌≡◌, Bool, Option, ℕ, String, refl,
}
use watchkeeper.Domain.State.{confirmed, reconciled, uncertain, retryable, prepared}
use watchkeeper.Workflow.Worker.{
  after_refusal, persisted_or, round_in, paused, after_round, reread, confirm_answered,
  confirm_read, finished, unread, confirm_next, goes_on, zero_operation, OperationState, key_header,
  hooked, err, sent, WorkerError, ok, Error, retried, ConfirmRequest, SendReceipt, started, granted,
  at_barrier, intended, Result, Uuid, prepared_round, rounds, confirm, Ended, send, confirm_rounds,
  round, PrepareRequest, execute, Round, Operation, Service,
}

-- What the outside of the worker keeps: `Closed` where no send is allowed, `Open op` where one send
-- of `op` is. Only a grant opens, and a send closes; nothing is asked of a send that is not allowed.
pub record Guarded {S : Type 0} (v : Service S) (Closed : S → Type 0)
    (Open : Operation → S → Type 0) : Type 0 where
  pub prepare : (req : PrepareRequest) (s : S) → Closed s → Closed (v.prepare req s).1
  pub begin_retry : (id : Uuid) (n : ℕ) (s : S) → Closed s → Closed (v.begin_retry id n s).1
  pub get_operation : (id : Uuid) (s : S) → Closed s → Closed (v.get_operation id s).1
  pub confirm :
      (id : Uuid) (req : ConfirmRequest) (s : S) → Closed s → Closed (v.confirm id req s).1
  pub barrier : (name : String) (op : Operation) (s : S) → Closed s → Closed (v.barrier name op s).1
  pub pause : (s : S) → Closed s → Closed (v.pause s).1
  pub grant :
      (id : Uuid) (n : ℕ) (s t : S) (op : Operation)
      → Closed s
      → v.authorize_dispatch id n s ≡ (ok op, t)
      → Open op t
  pub refusal :
      (id : Uuid) (n : ℕ) (s t : S) (e : Error)
      → Closed s
      → v.authorize_dispatch id n s ≡ (err e, t)
      → Closed t
  pub message :
      (op : Operation) (key : Option Uuid) (payload : String) (s : S)
      → Open op s
      → Closed (v.post_message op.id key payload s).1

module _ {S : Type 0} (v : Service S) (payload : String) (Closed : S → Type 0)
    (Open : Operation → S → Type 0) (g : Guarded v Closed Open) where
  at_barrier-closed :
      (name : String) (op : Operation) (next : S → Round × S) (s : S)
      → ((t : S) → Closed t → Closed (next t).1)
      → Closed s
      → Closed (at_barrier v payload name op next s).1
  at_barrier-closed name op next s f h = answered (v.barrier name op s) (g.barrier name op s h)
    where
      answered : (r : Option Error × S) → Closed r.1 → Closed (hooked v payload name op s next r).1
      answered (none, t) k = f t k
      answered (some e, t) k = k

  confirm_next-closed :
      (again : Operation → S → Ended × S) (current : Operation) (o : Option Ended) (t : S)
      → ((x : Operation) (u : S) → Closed u → Closed (again x u).1)
      → Closed t
      → Closed (confirm_next v payload again current o t).1
  confirm_next-closed again current none t f k = f current t k
  confirm_next-closed again current (some e) t f k = k

  confirm_read-closed :
      (again : Operation → S → Ended × S) (op : Operation) (receipt : SendReceipt) (e : Error)
      (r : Result Operation × S)
      → ((x : Operation) (u : S) → Closed u → Closed (again x u).1)
      → Closed r.1
      → Closed (confirm_read v payload again op receipt e r).1
  confirm_read-closed again op receipt e (err e2, t) f k = k
  confirm_read-closed again op receipt e (ok current, t) f k =
      confirm_next-closed again current (after_refusal receipt e current) t f k

  confirm_answered-closed :
      (again : Operation → S → Ended × S) (op : Operation) (receipt : SendReceipt)
      (r : Result Operation × S)
      → ((x : Operation) (u : S) → Closed u → Closed (again x u).1)
      → Closed r.1
      → Closed (confirm_answered v payload again op receipt r).1
  confirm_answered-closed again op receipt (ok done, t) f k = k
  confirm_answered-closed again op receipt (err e, t) f k =
      confirm_read-closed again op receipt e (v.get_operation op.id t) f (g.get_operation op.id t k)

  confirm_rounds-closed :
      (n : ℕ) (op : Operation) (receipt : SendReceipt) (s : S)
      → Closed s
      → Closed (confirm_rounds v payload n op receipt s).1
  unfolding confirm_rounds
  confirm_rounds-closed zero op receipt s h = h
  confirm_rounds-closed (suc n) op receipt s h =
      confirm_answered-closed _ op receipt (v.confirm op.id _ s)
        (λ x u k. confirm_rounds-closed n x receipt u k) (g.confirm op.id _ s h)

  persisted_or-closed :
      (op done : Operation) (s : S) (o : Option WorkerError)
      → Closed s
      → Closed (persisted_or v payload op done s o).1
  persisted_or-closed op done s none h = at_barrier-closed "after_persistence" done _ s (λ t k. k) h
  persisted_or-closed op done s (some x) h = h

  sent-closed :
      (op : Operation) (r : Result SendReceipt × S) → Closed r.1 → Closed (sent v payload op r).1
  unfolding confirm
  sent-closed op (err e, s) h = h
  sent-closed op (ok receipt, s) h =
      at_barrier-closed "after_response" op _ s
        (λ t k. persisted_or-closed op _ _ _ (confirm_rounds-closed 5 op receipt t k)) h

  granted-closed :
      (op : Operation) (s : S) (r : Result Operation × S)
      → Closed s
      → v.authorize_dispatch op.id op.version s ≡ r
      → Closed (granted v payload op r).1
  unfolding send
  granted-closed op s (err e, t) h eq = g.refusal op.id op.version s t e h eq
  granted-closed op s (ok grant, t) h eq =
      sent-closed grant _
        (g.message grant (key_header grant) payload t (g.grant op.id op.version s t grant h eq))

  prepared_round-closed :
      (op : Operation) (s : S) → Closed s → Closed (prepared_round v payload op s).1
  prepared_round-closed op s h = by_flag op.dispatch_authorized
    where
      ask : S → Round × S
      ask t = granted v payload op (v.authorize_dispatch op.id op.version t)

      by_flag :
          (b : Bool)
          → Closed
              (if b then (goes_on op, s) else at_barrier v payload "before_dispatch" op ask s).1
      by_flag true = h
      by_flag false =
          at_barrier-closed "before_dispatch" op ask s (λ t k. granted-closed op t _ k refl) h

  retried-closed : (r : Result Operation × S) → Closed r.1 → Closed (retried v payload r).1
  retried-closed (ok x, t) k = k
  retried-closed (err e, t) k = k

  round_in-closed :
      (o : OperationState) (op : Operation) (s : S)
      → Closed s
      → Closed (round_in v payload o op s).1
  unfolding round_in
  round_in-closed confirmed op s h = h
  round_in-closed reconciled op s h = h
  round_in-closed uncertain op s h = h
  round_in-closed retryable op s h = retried-closed _ (g.begin_retry op.id op.version s h)
  round_in-closed prepared op s h = prepared_round-closed op s h
  round_in-closed (OperationState.unlisted x) op s h = h

  unread-closed :
      (again : Operation → S → Round × S) (op : Operation) (o : Option Error) (t : S)
      → ((x : Operation) (u : S) → Closed u → Closed (again x u).1)
      → Closed t
      → Closed (unread v payload again op o t).1
  unread-closed again op none t f k = f op t k
  unread-closed again op (some e) t f k = k

  reread-closed :
      (again : Operation → S → Round × S) (op : Operation) (r : Result Operation × S)
      → ((x : Operation) (u : S) → Closed u → Closed (again x u).1)
      → Closed r.1
      → Closed (reread v payload again op r).1
  reread-closed again op (ok current, t) f k = f current t k
  reread-closed again op (err e, t) f k = unread-closed again op (v.context_error t) t f k

  paused-closed :
      (again : Operation → S → Round × S) (op : Operation) (r : Option Error × S)
      → ((x : Operation) (u : S) → Closed u → Closed (again x u).1)
      → Closed r.1
      → Closed (paused v payload again op r).1
  paused-closed again op (none, t) f k =
      reread-closed again op (v.get_operation op.id t) f (g.get_operation op.id t k)
  paused-closed again op (some e, t) f k = k

  after_round-closed :
      (again : Operation → S → Round × S) (r : Round × S)
      → ((x : Operation) (u : S) → Closed u → Closed (again x u).1)
      → Closed r.1
      → Closed (after_round v payload again r).1
  after_round-closed again (finished e, t) f k = k
  after_round-closed again (goes_on op, t) f k = paused-closed again op (v.pause t) f (g.pause t k)

  rounds-closed : (n : ℕ) (op : Operation) (s : S) → Closed s → Closed (rounds v payload n op s).1
  unfolding rounds round
  rounds-closed zero op s h = h
  rounds-closed (suc n) op s h =
      after_round-closed _ (round v payload op s) (λ x u k. rounds-closed n x u k)
        (round_in-closed op.state op s h)

  -- However many rounds Execute has, whatever the service answers, it sends a message only where the
  -- service has just granted it that operation, and once for a grant: if a grant is all that opens a
  -- state where sends are closed, and a send of the granted operation closes it, then a state that is
  -- closed before Execute is closed after it, though nothing is known of a send in a closed state.
  pub execute-closed :
      (n : ℕ) (req : PrepareRequest) (s : S) → Closed s → Closed (execute v payload n req s).1
  unfolding execute
  execute-closed n req s h =
      after_hook (v.barrier "before_intent" (zero_operation req.logical_key) s)
        (g.barrier "before_intent" (zero_operation req.logical_key) s h)
    where
      begun : (r : Result Operation × S) → Closed r.1 → Closed (started v payload n r).1
      begun (ok op, t) k = rounds-closed n op t k
      begun (err e, t) k = k

      after_hook : (r : Option Error × S) → Closed r.1 → Closed (intended v payload n req r).1
      after_hook (none, t) k = begun (v.prepare req t) (g.prepare req t k)
      after_hook (some e, t) k = k
