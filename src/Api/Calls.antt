-- ===== src/Api/Calls.antt =====
-- A request does nothing to the tables but what one call of the store does, so that a history of
-- requests is a history of calls, and the theorems of the audit hold for what the server serves.
use watchkeeper.Prelude.{
  ℕ, ◌≡◌, refl, inl, inr, ◌⊎◌, Bool-cases, String, Option, none, some, List, [], ◌∷◌, magnitude,
}
use watchkeeper.Domain.Types.{Time}
use watchkeeper.Api.Http.{Response, Checked, answered, passed, checked}
use watchkeeper.Store.Rows.{Db}
use watchkeeper.Store.Tx.{World}
use watchkeeper.Api.Payloads.{Formats, Request}
use watchkeeper.Api.Server.{
  Server, Moment, Endpoint, guard, authenticate, dispatch, identified, guarded, handle, health_live,
  health_ready, post_operations, get_operations, get_one_operation, get_events, post_confirmations,
  post_dispatches, post_attempts, post_reconciliation_requests, post_manual_resolutions,
  post_claims, post_renew, post_results,
}
use watchkeeper.Api.Operations.{
  prepare_handler, confirm_handler, authorize_dispatch_handler, get_operation_handler,
  list_operations_handler, list_events_handler,
}
use watchkeeper.Api.Recovery.{
  actor_or_operator, or_default, lease_micros, begin_retry_handler, request_reconciliation_handler,
  claim_recovery_handler, renew_claim_handler, recovery_result_handler, manual_resolution_handler,
}
use watchkeeper.Prelude.{ap, ◌∙◌}
use watchkeeper.Store.Claims.{claim_recovery}
use watchkeeper.Store.Calls.{
  Call, prepares, authorizes, confirms, retries, requests, claims, renews, submits, resolves,
  perform, serve,
}

-- The tables are as before, or as one call leaves them.
abbrev Served : World → Db → Response × Db → Type 0
Served w db x = (x.1 ≡ db) ⊎ ((c : Call) × (x.1 ≡ perform c w db))

checked-Served :
    {A : Type 0} (k : Checked A) (w : World) (db : Db) (f : A → Response × Db)
    → ((a : A) → Served w db (f a))
    → Served w db (checked k db f)
checked-Served (answered r) w db f h = inl refl
checked-Served (passed a) w db f h = h a

guarded-Served :
    (g : Option String) (r : Request) (w : World) (db : Db) (x : Response × Db)
    → Served w db x
    → Served w db (guarded g r db x)
guarded-Served none r w db x h = h
guarded-Served (some t) r w db x h = elim (Bool-cases (authenticate t r)) [
  | inl same ↦ rw same h
  | inr other ↦ rw other (inl refl)
]

module _ (f : Formats) (r : Request) (w : World) (db : Db) where
  begin_retry_handler-Served : Served w db (begin_retry_handler f r w db)
  unfolding begin_retry_handler perform
  begin_retry_handler-Served =
      checked-Served _ w db _
        λ x. inr (retries x.0 (magnitude x.1.expected_version) x.1.reason, refl)

  request_reconciliation_handler-Served : Served w db (request_reconciliation_handler f r w db)
  unfolding request_reconciliation_handler perform
  request_reconciliation_handler-Served = checked-Served _ w db _ λ x.
      inr (
        requests x.0 (magnitude x.1.expected_version) (actor_or_operator x.1.actor) x.1.reason,
        refl,
      )

  renew_claim_handler-Served : Served w db (renew_claim_handler f r w db)
  unfolding renew_claim_handler perform
  renew_claim_handler-Served =
      checked-Served _ w db _
        λ x. inr (renews x.0 x.1.claim_token (lease_micros x.1.lease_duration_ms), refl)

  recovery_result_handler-Served : Served w db (recovery_result_handler f r w db)
  unfolding recovery_result_handler perform
  recovery_result_handler-Served = checked-Served _ w db _ λ x. inr (submits x.0 x.1, refl)

  manual_resolution_handler-Served : Served w db (manual_resolution_handler f r w db)
  unfolding manual_resolution_handler perform
  manual_resolution_handler-Served = checked-Served _ w db _ λ x. inr (resolves x.0 x.1, refl)

  authorize_dispatch_handler-Served : Served w db (authorize_dispatch_handler f r w db)
  unfolding authorize_dispatch_handler perform
  authorize_dispatch_handler-Served =
      checked-Served _ w db _ λ x. inr (authorizes x.0 (magnitude x.1.expected_version), refl)

  prepare_handler-Served : Served w db (prepare_handler f r w db)
  unfolding prepare_handler perform
  prepare_handler-Served = checked-Served _ w db _ λ x. inr (prepares x, refl)

  confirm_handler-Served : (clock : Time) → Served w db (confirm_handler f r clock w db)
  unfolding confirm_handler perform
  confirm_handler-Served clock = checked-Served _ w db _ λ x. inr (confirms x.0 x.1, refl)

  claim_recovery_handler-Served : (grace : ℕ) → Served w db (claim_recovery_handler f r grace w db)
  unfolding claim_recovery_handler claim_recovery perform
  claim_recovery_handler-Served grace = checked-Served _ w db _ λ x. inr (
    claims x.worker_id (magnitude (or_default 20 x.limit)) (lease_micros x.lease_duration_ms) grace
        "",
    refl,
  )

  get_operation_handler-Served : Served w db (get_operation_handler f r w db)
  unfolding get_operation_handler
  get_operation_handler-Served = checked-Served _ w db _ λ x. inl refl

  list_operations_handler-Served : Served w db (list_operations_handler f r w db)
  unfolding list_operations_handler
  list_operations_handler-Served = checked-Served _ w db _ λ x. inl refl

  list_events_handler-Served : Served w db (list_events_handler f r w db)
  unfolding list_events_handler
  list_events_handler-Served = checked-Served _ w db _ λ x. inl refl

dispatch-Served :
    (s : Server) (m : Moment) (e : Endpoint) (r : Request) (db : Db)
    → Served m.world db (dispatch s m e r db)
unfolding dispatch
dispatch-Served s m health_live r db = inl refl
dispatch-Served s m health_ready r db = inl refl
dispatch-Served s m post_operations r db = prepare_handler-Served s.formats r m.world db
dispatch-Served s m get_operations r db = list_operations_handler-Served s.formats r m.world db
dispatch-Served s m get_one_operation r db = get_operation_handler-Served s.formats r m.world db
dispatch-Served s m get_events r db = list_events_handler-Served s.formats r m.world db
dispatch-Served s m post_confirmations r db = confirm_handler-Served s.formats r m.world db m.clock
dispatch-Served s m post_dispatches r db = authorize_dispatch_handler-Served s.formats r m.world db
dispatch-Served s m post_attempts r db = begin_retry_handler-Served s.formats r m.world db
dispatch-Served s m post_reconciliation_requests r db =
    request_reconciliation_handler-Served s.formats r m.world db
dispatch-Served s m post_manual_resolutions r db =
    manual_resolution_handler-Served s.formats r m.world db
dispatch-Served s m post_claims r db =
    claim_recovery_handler-Served s.formats r m.world db s.prepared_grace
dispatch-Served s m post_renew r db = renew_claim_handler-Served s.formats r m.world db
dispatch-Served s m post_results r db = recovery_result_handler-Served s.formats r m.world db

pub handle-Served :
    (s : Server) (m : Moment) (e : Endpoint) (r : Request) (db : Db)
    → Served m.world db (handle s m e r db)
unfolding handle
handle-Served s m e r db =
    guarded-Served (guard s e) (identified m.fresh_id r) m.world db _
      (dispatch-Served s m e (identified m.fresh_id r) db)

-- A request as it comes to the server.
pub record Visit : Type 0 where
  pub moment : Moment
  pub endpoint : Endpoint
  pub request : Request

-- The tables after a list of requests.
unfoldable pub visited : Server → Db → List Visit → Db
visited s db [] = db
visited s db (v ∷ rest) = visited s (handle s v.moment v.endpoint v.request db).1 rest

served_by :
    (db new : Db) (w : World) (last : Db)
    → (new ≡ db) ⊎ ((c : Call) × (new ≡ perform c w db))
    → ((calls : List (World × Call)) × (last ≡ serve new calls))
    → ((calls : List (World × Call)) × (last ≡ serve db calls))
unfolding serve
served_by db new w last (inl same) (calls, h) = (calls, h ∙ ap (λ d. serve d calls) same)
served_by db new w last (inr (c, same)) (calls, h) =
    ((w, c) ∷ calls, h ∙ ap (λ d. serve d calls) same)

-- The tables after any requests are those that some calls of the store leave.
pub visited-serve :
    (s : Server) (db : Db) (visits : List Visit)
    → (calls : List (World × Call)) × (visited s db visits ≡ serve db calls)
unfolding visited serve
visited-serve s db [] = ([], refl)
visited-serve s db (v ∷ rest) =
    served_by db (handle s v.moment v.endpoint v.request db).1 v.moment.world _
      (handle-Served s v.moment v.endpoint v.request db)
      (visited-serve s (handle s v.moment v.endpoint v.request db).1 rest)
