-- ===== src/Store/Progress/Dispatch.antt =====
-- `AuthorizeDispatch` where its guards hold.
use watchkeeper.Prelude.{
  ◌+◌, ◌<◌, ◌≡◌, refl, true, false, none, some, ◌==◌, ==_self, ◌||◌, not, arith, lt→ltb,
}
use watchkeeper.Domain.State.{prepared, state_eq}
use watchkeeper.Domain.Types.{Uuid, Time}
use watchkeeper.Store.Rows.{OperationRow, WorkflowRow, Db, row_checks, bigint_limit, integer_limit}
use watchkeeper.Store.Tables.{find, put, find_workflow, find-put_self, id-find}
use watchkeeper.Store.Tx.{World}
use watchkeeper.Store.Queries.{scan_operation, with_event}
use watchkeeper.Store.Dispatch.{
  is_claimed, authorized_row, dispatch_event, authorize_dispatch, authorize_dispatch_body,
}
use watchkeeper.Store.Progress.{
  Quiet, Completes-bind, Completes-now, Completes-query, Completes-reject_if,
  Completes-update_operation, Completes-append_event, Completes-get_operation_tx,
  Completes-get_operation_for_update, joined_of, Answers, run-Answers,
}

-- A row that a dispatch is granted, with its workflow; its numbers have not run out.
pub record Grantable (id : Uuid) (r : OperationRow) (x : WorkflowRow) (db : Db) : Type 0 where
  pub found : find id db.operations ≡ some r
  pub of_workflow : find_workflow r.workflow_id db.workflows ≡ some x
  pub state : r.state ≡ prepared
  pub unsent : r.dispatch_authorized ≡ false
  pub unclaimed : r.lease ≡ none
  pub version_fits : r.version + 1 < bigint_limit
  pub attempts_fit : r.attempt_count < integer_limit

authorized_row_checks :
    (time : Time) (r : OperationRow)
    → r.state ≡ prepared
    → r.version + 1 < bigint_limit
    → r.attempt_count < integer_limit
    → row_checks (authorized_row time r) ≡ true
unfolding row_checks authorized_row
authorized_row_checks time r state version attempts =
    rw (state, lt→ltb _ _ version, lt→ltb _ _ attempts) refl

not_claimed :
    (id : Uuid) (r : OperationRow) (db : Db)
    → find id db.operations ≡ some r
    → r.lease ≡ none
    → is_claimed id db ≡ false
unfolding is_claimed
not_claimed id r db found free = ground arith

grant_allowed :
    (id : Uuid) (r : OperationRow) (x : WorkflowRow) (db : Db)
    → Grantable id r x db
    → (not (state_eq (scan_operation r x).state prepared)
        || not ((scan_operation r x).version == r.version)
        || (scan_operation r x).dispatch_authorized
        || is_claimed id db)
      ≡ false
unfolding scan_operation state_eq
grant_allowed id r x db g =
    rw (g.state, ==_self r.version, g.unsent, not_claimed id r db g.found g.unclaimed) refl

pub authorize-Answers :
    (id : Uuid) (r : OperationRow) (x : WorkflowRow) (w : World) (db : Db)
    → Quiet w
    → Grantable id r x db
    → Answers (authorize_dispatch id r.version w db) (λ op new.
      (new.workflows ≡ db.workflows)
      × (new.receipts ≡ db.receipts)
      × (find id new.operations ≡ some (authorized_row w.now r))
      × (op ≡ scan_operation (authorized_row w.now r) x))
unfolding authorize_dispatch authorize_dispatch_body with_event authorized_row
authorize-Answers id r x w db quiet g =
    run-Answers _ _ _ (authorize_dispatch_body id r.version) w db quiet (
      Completes-bind _ _ (
        Completes-get_operation_for_update id r x quiet (joined_of id db r x g.found g.of_workflow)
          (Completes-bind _ _ (
            Completes-query _ (is_claimed id) quiet (
              Completes-bind _ _ (
                Completes-reject_if _ _ (grant_allowed id r x db g) (
                  Completes-bind _ _ (
                    Completes-now (
                      Completes-bind _ _ (
                        Completes-update_operation _ id (authorized_row w.now) r quiet g.found
                          (authorized_row_checks w.now r g.state g.version_fits g.attempts_fit)
                          (Completes-bind _ _ (
                            Completes-append_event _ (dispatch_event id r.version) quiet (
                              Completes-get_operation_tx id (authorized_row w.now r) x quiet
                                (joined_of id _ (authorized_row w.now r) x
                                  (row_found id r w db g.found) g.of_workflow)
                                (refl, refl, row_found id r w db g.found, refl))))))))))))))
  where
    row_found :
        (id : Uuid) (r : OperationRow) (w : World) (db : Db)
        → find id db.operations ≡ some r
        → find id (put id (authorized_row w.now r) db.operations) ≡ some (authorized_row w.now r)
    row_found id r w db found =
        find-put_self id (authorized_row w.now r) db.operations (id-find id db.operations r found)
          found
