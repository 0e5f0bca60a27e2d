-- ===== src/Store/Changes/Retry.antt =====
-- `BeginRetry` and `RequestReconciliation` make one write of their kind, or none.
use watchkeeper.Prelude.{
  inl, inr, Bool-cases, Bool, ◌+◌, ◌&&◌, ℕ, String, ◌≡◌, refl, true, false, not, arith,
}
use watchkeeper.Domain.State.{OperationState, prepared, uncertain, state_eq, state_eq→eq}
use watchkeeper.Domain.Types.{Uuid}
use watchkeeper.Store.Rows.{Db}
use watchkeeper.Store.Tx.{World, Session}
use watchkeeper.Store.Queries.{scan_operation, with_event}
use watchkeeper.Store.Ensures.{
  Ensures, Ensures-bind, Ensures-now, Ensures-reject_if, Ensures-update_operation,
  Ensures-append_event, Ensures-get_operation_tx, Ensures-get_operation_for_update, run-db,
}
use watchkeeper.Store.Retry.{
  retried_row, retry_event, begin_retry_body, begin_retry, requested_row, request_event,
  request_reconciliation_body, request_reconciliation,
}
use watchkeeper.Store.Changes.{IsOpen, Changes, done, more, writes, retries, requests}

not-false : (b : Bool) → not b ≡ false → b ≡ true
not-false b h = ground arith

begin_retry_body-Changes :
    (id : Uuid) (version : ℕ) (reason : String) (w : World) (s : Session)
    → Ensures (begin_retry_body id version reason) w s (λ a t. Changes s.db t.db)
unfolding begin_retry_body with_event scan_operation
begin_retry_body-Changes id version reason w s = Ensures-bind _ _ (
    Ensures-get_operation_for_update id λ r x _ found. Ensures-bind _ _ (
      Ensures-reject_if _ _ λ in_state. Ensures-bind _ _ (
        Ensures-reject_if _ _ λ _. Ensures-bind _ _ (
          Ensures-now (
            Ensures-bind _ _ (
              Ensures-update_operation _ id _ found λ _. Ensures-bind _ _ (
                Ensures-append_event _ _ (
                  Ensures-get_operation_tx id λ _ _ _ _. more done (
                    writes w.now id r (retried_row w.now (r.version + 1) r)
                      (retry_event id (r.version + 1) reason) s.db.next_event_id found
                      (retries reason (state_eq→eq _ _ (not-false _ in_state)) refl refl) refl
                      refl)))))))))

pub begin_retry-Changes :
    (id : Uuid) (version : ℕ) (reason : String) (w : World) (db : Db)
    → Changes db (begin_retry id version reason w db).1
unfolding begin_retry
begin_retry-Changes id version reason w db =
    run-db (Changes db) _ _ _ w db done (begin_retry_body-Changes id version reason w _)

pub IsOpen-tests :
    (s : OperationState)
    → (not (state_eq s prepared) && not (state_eq s uncertain)) ≡ false
    → IsOpen s
IsOpen-tests s h = elim (Bool-cases (state_eq s prepared)) [
  | inl yes_prepared ↦ inl (state_eq→eq s prepared yes_prepared)
  | inr other ↦ inr (state_eq→eq s uncertain (ground arith))
]

request_reconciliation_body-Changes :
    (id : Uuid) (version : ℕ) (actor reason : String) (w : World) (s : Session)
    → Ensures (request_reconciliation_body id version actor reason) w s (λ a t. Changes s.db t.db)
unfolding request_reconciliation_body with_event scan_operation
request_reconciliation_body-Changes id version actor reason w s = Ensures-bind _ _ (
    Ensures-get_operation_for_update id λ r x _ found. Ensures-bind _ _ (
      Ensures-reject_if _ _ λ in_state. Ensures-bind _ _ (
        Ensures-reject_if _ _ λ _. Ensures-bind _ _ (
          Ensures-now (
            Ensures-bind _ _ (
              Ensures-update_operation _ id _ found λ _. Ensures-bind _ _ (
                Ensures-append_event _ _ (
                  Ensures-get_operation_tx id λ _ _ _ _. more done (
                    writes w.now id r (requested_row w.now (r.version + 1) r)
                      (request_event id r.state (r.version + 1) actor reason) s.db.next_event_id
                      found (requests actor reason (IsOpen-tests r.state in_state) refl refl) refl
                      refl)))))))))

pub request_reconciliation-Changes :
    (id : Uuid) (version : ℕ) (actor reason : String) (w : World) (db : Db)
    → Changes db (request_reconciliation id version actor reason w db).1
unfolding request_reconciliation
request_reconciliation-Changes id version actor reason w db =
    run-db (Changes db) _ _ _ w db done
      (request_reconciliation_body-Changes id version actor reason w _)
