-- ===== src/Api/Refusals.antt =====
-- An answer of 400 to 499 left the tables as they were.
use watchkeeper.Prelude.{
  ℕ, ◌≤◌, ◌<◌, ◌≡◌, refl, arith, inl, inr, Bool-cases, String, Bool, true, false, Option, none,
  some, magnitude,
}
use watchkeeper.Domain.Types.{Time, Error, Result, ok, err, domain_error, library_error, Operation}
use watchkeeper.Api.Http.{
  error_status, Response, Checked, answered, passed, finished, checked, write_json, write_error,
}
use watchkeeper.Store.Rows.{Db}
use watchkeeper.Store.Tx.{World}
use watchkeeper.Api.Payloads.{Formats, Request}
use watchkeeper.Api.Server.{
  Server, Moment, Endpoint, guard, authenticate, dispatch, identified, guarded, handle, health_live,
  health_ready, post_operations, get_operations, get_one_operation, get_events, post_confirmations,
  post_dispatches, post_attempts, post_reconciliation_requests, post_manual_resolutions,
  post_claims, post_renew, post_results,
}
use watchkeeper.Api.Operations.{
  prepare_handler, confirm_handler, authorize_dispatch_handler, get_operation_handler,
  list_operations_handler, list_events_handler, prepared_with,
}
use watchkeeper.Api.Recovery.{
  begin_retry_handler, request_reconciliation_handler, claim_recovery_handler, renew_claim_handler,
  recovery_result_handler, manual_resolution_handler,
}
use watchkeeper.Store.Refusals.{
  Kept, refuses, prepare-Kept, confirm-Kept, authorize_dispatch-Kept, begin_retry-Kept,
  request_reconciliation-Kept, claim_recovery-Kept, renew_claim-Kept, submit_recovery_result-Kept,
  manual_resolve-Kept,
}

abbrev Refused : Db → Response × Db → Type 0
Refused db x = 400 ≤ x.0.status → x.0.status < 500 → x.1 ≡ db

write_error-refuses :
    (request_id : String) (e : Error) → (write_error request_id e).status < 500 → refuses e ≡ true
unfolding write_error write_json error_status
write_error-refuses request_id (library_error m) h = ground arith
write_error-refuses request_id (domain_error e) h = ground arith

finished-Refused :
    {A : Type 0} (request_id : String) (f : A → Response) (x : Result A × Db) (db : Db)
    → ((a : A) → (f a).status < 400)
    → Kept db x
    → Refused db (finished request_id f x)
finished-Refused request_id f (ok a, new) db good kept low high = ground (arith, good a)
finished-Refused request_id f (err e, new) db good kept low high =
    kept (write_error-refuses request_id e high)

checked-Refused :
    {A : Type 0} (k : Checked A) (db : Db) (f : A → Response × Db)
    → ((a : A) → Refused db (f a))
    → Refused db (checked k db f)
checked-Refused (answered r) db f h = λ _ _. refl
checked-Refused (passed a) db f h = h a

prepared_with_low : (x : Operation × Bool) → (prepared_with x).status < 400
unfolding write_json
prepared_with_low (op, true) = omega arith
prepared_with_low (op, false) = omega arith

module _ (f : Formats) (r : Request) (w : World) (db : Db) where
  begin_retry_handler-Refused : Refused db (begin_retry_handler f r w db)
  unfolding begin_retry_handler write_json
  begin_retry_handler-Refused = checked-Refused _ db _ λ x.
      finished-Refused _ _ _ db (λ a. omega arith)
        (begin_retry-Kept x.0 (magnitude x.1.expected_version) x.1.reason w db)

  request_reconciliation_handler-Refused : Refused db (request_reconciliation_handler f r w db)
  unfolding request_reconciliation_handler write_json
  request_reconciliation_handler-Refused =
      checked-Refused _ db _ λ x.
        finished-Refused _ _ _ db (λ a. omega arith) (request_reconciliation-Kept x.0 _ _ _ w db)

  renew_claim_handler-Refused : Refused db (renew_claim_handler f r w db)
  unfolding renew_claim_handler write_json
  renew_claim_handler-Refused =
      checked-Refused _ db _
        λ x. finished-Refused _ _ _ db (λ a. omega arith) (renew_claim-Kept x.0 _ _ w db)

  recovery_result_handler-Refused : Refused db (recovery_result_handler f r w db)
  unfolding recovery_result_handler write_json
  recovery_result_handler-Refused =
      checked-Refused _ db _
        λ x. finished-Refused _ _ _ db (λ a. omega arith) (submit_recovery_result-Kept x.0 x.1 w db)

  manual_resolution_handler-Refused : Refused db (manual_resolution_handler f r w db)
  unfolding manual_resolution_handler write_json
  manual_resolution_handler-Refused =
      checked-Refused _ db _
        λ x. finished-Refused _ _ _ db (λ a. omega arith) (manual_resolve-Kept x.0 x.1 w db)

  authorize_dispatch_handler-Refused : Refused db (authorize_dispatch_handler f r w db)
  unfolding authorize_dispatch_handler write_json
  authorize_dispatch_handler-Refused =
      checked-Refused _ db _
        λ x. finished-Refused _ _ _ db (λ a. omega arith) (authorize_dispatch-Kept x.0 _ w db)

  claim_recovery_handler-Refused : (grace : ℕ) → Refused db (claim_recovery_handler f r grace w db)
  unfolding claim_recovery_handler write_json
  claim_recovery_handler-Refused grace = checked-Refused _ db _ λ x.
      finished-Refused _ _ _ db (λ a. omega arith) (claim_recovery-Kept x.worker_id _ _ grace w db)

  confirm_handler-Refused : (clock : Time) → Refused db (confirm_handler f r clock w db)
  unfolding confirm_handler write_json
  confirm_handler-Refused clock =
      checked-Refused _ db _
        λ x. finished-Refused _ _ _ db (λ a. omega arith) (confirm-Kept x.0 x.1 w db)

  prepare_handler-Refused : Refused db (prepare_handler f r w db)
  unfolding prepare_handler write_json
  prepare_handler-Refused =
      checked-Refused _ db _ λ x. finished-Refused _ _ _ db prepared_with_low (prepare-Kept x w db)

  get_operation_handler-Refused : Refused db (get_operation_handler f r w db)
  unfolding get_operation_handler write_json
  get_operation_handler-Refused = checked-Refused _ db _ λ x. λ _ _. refl

  list_operations_handler-Refused : Refused db (list_operations_handler f r w db)
  unfolding list_operations_handler write_json
  list_operations_handler-Refused = checked-Refused _ db _ λ x. λ _ _. refl

  list_events_handler-Refused : Refused db (list_events_handler f r w db)
  unfolding list_events_handler write_json
  list_events_handler-Refused = checked-Refused _ db _ λ x. λ _ _. refl

dispatch-Refused :
    (s : Server) (m : Moment) (e : Endpoint) (r : Request) (db : Db)
    → Refused db (dispatch s m e r db)
unfolding dispatch
dispatch-Refused s m health_live r db = λ _ _. refl
dispatch-Refused s m health_ready r db = λ _ _. refl
dispatch-Refused s m post_operations r db = prepare_handler-Refused s.formats r m.world db
dispatch-Refused s m get_operations r db = list_operations_handler-Refused s.formats r m.world db
dispatch-Refused s m get_one_operation r db = get_operation_handler-Refused s.formats r m.world db
dispatch-Refused s m get_events r db = list_events_handler-Refused s.formats r m.world db
dispatch-Refused s m post_confirmations r db =
    confirm_handler-Refused s.formats r m.world db m.clock
dispatch-Refused s m post_dispatches r db =
    authorize_dispatch_handler-Refused s.formats r m.world db
dispatch-Refused s m post_attempts r db = begin_retry_handler-Refused s.formats r m.world db
dispatch-Refused s m post_reconciliation_requests r db =
    request_reconciliation_handler-Refused s.formats r m.world db
dispatch-Refused s m post_manual_resolutions r db =
    manual_resolution_handler-Refused s.formats r m.world db
dispatch-Refused s m post_claims r db =
    claim_recovery_handler-Refused s.formats r m.world db s.prepared_grace
dispatch-Refused s m post_renew r db = renew_claim_handler-Refused s.formats r m.world db
dispatch-Refused s m post_results r db = recovery_result_handler-Refused s.formats r m.world db

guarded-Refused :
    (g : Option String) (r : Request) (db : Db) (x : Response × Db)
    → Refused db x
    → Refused db (guarded g r db x)
guarded-Refused none r db x h = h
guarded-Refused (some t) r db x h = elim (Bool-cases (authenticate t r)) [
  | inl same ↦ rw same h
  | inr other ↦ rw other (λ _ _. refl)
]

-- A request that is answered with a status from 400 to 499 leaves the tables as they were.
pub handle-refused :
    (s : Server) (m : Moment) (e : Endpoint) (r : Request) (db : Db)
    → 400 ≤ (handle s m e r db).0.status
    → (handle s m e r db).0.status < 500
    → (handle s m e r db).1 ≡ db
unfolding handle
handle-refused s m e r db =
    guarded-Refused (guard s e) (identified m.fresh_id r) db _
      (dispatch-Refused s m e (identified m.fresh_id r) db)
