-- ===== src/Store/Changes/Dispatch.antt =====
-- `AuthorizeDispatch` makes one write of the kind `authorizes`, or none.
use watchkeeper.Prelude.{ℕ, ◌≡◌, refl, false, some, ◌==◌, ◌||◌, not, arith, ap}
use watchkeeper.Domain.State.{prepared, state_eq, state_eq→eq}
use watchkeeper.Domain.Types.{Uuid}
use watchkeeper.Store.Rows.{OperationRow, WorkflowRow, Db}
use watchkeeper.Store.Tx.{World, Session}
use watchkeeper.Store.Queries.{scan_operation, with_event}
use watchkeeper.Store.Ensures.{
  Ensures, Ensures-bind, Ensures-query, Ensures-now, Ensures-reject_if, Ensures-update_operation,
  Ensures-append_event, Ensures-get_operation_tx, Ensures-get_operation_for_update, run-db,
}
use watchkeeper.Store.Dispatch.{
  is_claimed, authorized_row, dispatch_event, authorize_dispatch_body, authorize_dispatch,
}
use watchkeeper.Store.Changes.{find, Write, Changes, done, more, writes, authorizes}

grant_allowed :
    (id : Uuid) (version : ℕ) (time : ℕ) (db : Db) (r : OperationRow) (x : WorkflowRow)
    → find id db.operations ≡ some r
    → (not (state_eq (scan_operation r x).state prepared)
        || not ((scan_operation r x).version == version)
        || (scan_operation r x).dispatch_authorized
        || is_claimed id db)
      ≡ false
    → Write time id r (authorized_row time r) (dispatch_event id version)
unfolding scan_operation is_claimed
grant_allowed id version time db r x found allowed =
    authorizes (state_eq→eq r.state prepared (ground arith)) (ground arith) (ground arith) refl
      (ap (dispatch_event id) (ground arith))

authorize_dispatch_body-Changes :
    (id : Uuid) (version : ℕ) (w : World) (s : Session)
    → Ensures (authorize_dispatch_body id version) w s (λ a t. Changes s.db t.db)
unfolding authorize_dispatch_body with_event
authorize_dispatch_body-Changes id version w s = Ensures-bind _ _ (
    Ensures-get_operation_for_update id λ r x _ found. Ensures-bind _ _ (
      Ensures-query _ _ (
        Ensures-bind _ _ (
          Ensures-reject_if _ _ λ allowed. Ensures-bind _ _ (
            Ensures-now (
              Ensures-bind _ _ (
                Ensures-update_operation _ id _ found λ _. Ensures-bind _ _ (
                  Ensures-append_event _ _ (
                    Ensures-get_operation_tx id λ _ _ _ _. more done (
                      writes w.now id r (authorized_row w.now r) (dispatch_event id version)
                        s.db.next_event_id found
                        (grant_allowed id version w.now s.db r x found allowed) refl refl))))))))))

pub authorize_dispatch-Changes :
    (id : Uuid) (version : ℕ) (w : World) (db : Db)
    → Changes db (authorize_dispatch id version w db).1
unfolding authorize_dispatch
authorize_dispatch-Changes id version w db =
    run-db (Changes db) _ _ _ w db done (authorize_dispatch_body-Changes id version w _)
