-- ===== src/Store/Dispatch/Granted.antt =====
-- What an AuthorizeDispatch that answers without an error has checked and done.
use watchkeeper.Store.Dispatch.{
  state_eq, prepared, find, OperationRow, Db, World, is_claimed, authorized_row, dispatch_event,
  authorize_dispatch, authorize_dispatch_body,
}
use watchkeeper.Store.Queries.{stamp, with_event, scan_operation}
use watchkeeper.Domain.Types.{ok, Operation, Uuid}
use watchkeeper.Store.Tx.{Session}
use watchkeeper.Store.Ensures.{
  Ensures-get_operation_tx, Ensures-append_event, Ensures-update_operation, Ensures-now,
  Ensures-reject_if, Ensures-query, Ensures-get_operation_for_update, Ensures-bind, run-ok, Ensures,
}
use watchkeeper.Store.Rows.{WorkflowRow}
use watchkeeper.Store.Tables.{id-find, find-put_self, put}
use watchkeeper.Domain.State.{state_eq→eq}
use watchkeeper.Prelude.{
  [], ◌∷◌, ◌++◌, refl, arith, ◌==◌, ◌||◌, ◌+◌, sym, true, some-equal, ◌∙◌, not, ◌≢◌, false, ap, ℕ,
  ◌≡◌, none, some,
}

pub record Granted (id : Uuid) (version : ℕ) (w : World) (a b : Db) : Type 0 where
  pub old : OperationRow
  pub found : find id a.operations ≡ some old
  pub state : old.state ≡ prepared
  pub unsent : old.dispatch_authorized ≡ false
  pub unclaimed : old.lease ≡ none
  pub version_is : old.version ≡ version
  pub written : b.operations ≡ put id (authorized_row w.now old) a.operations
  pub appended : b.events ≡ a.events ++ stamp a.next_event_id w.now (dispatch_event id version) ∷ []

grant_guard :
    (id : Uuid) (version : ℕ) (db : Db) (r : OperationRow) (x : WorkflowRow)
    → find id db.operations ≡ some r
    → (not (state_eq (scan_operation r x).state prepared)
        || not ((scan_operation r x).version == version)
        || (scan_operation r x).dispatch_authorized
        || is_claimed id db)
      ≡ false
    → (r.state ≡ prepared)
      × (r.dispatch_authorized ≡ false)
      × (r.lease ≡ none)
      × (r.version ≡ version)
unfolding scan_operation is_claimed
grant_guard id version db r x found allowed =
    (state_eq→eq r.state prepared (ground arith), ground arith, ground arith, ground arith)

authorize_dispatch_body-Granted :
    (id : Uuid) (version : ℕ) (w : World) (s : Session)
    → Ensures (authorize_dispatch_body id version) w s (λ a t. Granted id version w s.db t.db)
unfolding authorize_dispatch_body with_event
authorize_dispatch_body-Granted id version w s = Ensures-bind _ _ (
    Ensures-get_operation_for_update id λ r x _ found. Ensures-bind _ _ (
      Ensures-query _ _ (
        Ensures-bind _ _ (
          Ensures-reject_if _ _ λ allowed.
            let (prep, off, free, same) = grant_guard id version s.db r x found allowed in
            Ensures-bind _ _ (
              Ensures-now (
                Ensures-bind _ _ (
                  Ensures-update_operation _ id _ found λ _. Ensures-bind _ _ (
                    Ensures-append_event _ _ (
                      Ensures-get_operation_tx id λ _ _ _ _. record {
                        old = r;
                        found = found;
                        state = prep;
                        unsent = off;
                        unclaimed = free;
                        version_is = same;
                        written = refl;
                        appended = refl;
                      })))))))))

pub authorize-Granted :
    (id : Uuid) (version : ℕ) (w : World) (db : Db) (op : Operation)
    → (authorize_dispatch id version w db).0 ≡ ok op
    → Granted id version w db (authorize_dispatch id version w db).1
unfolding authorize_dispatch
authorize-Granted id version w db op h =
    run-ok (λ a t. Granted id version w db t) _ _ _ w db op
      (authorize_dispatch_body-Granted id version w _) h

grant_row :
    (id : Uuid) (version : ℕ) (w : World) (a b : Db) (h : Granted id version w a b)
    → find id b.operations ≡ some (authorized_row w.now h.old)
unfolding authorized_row
grant_row id version w a b h =
    ap (find id) h.written
    ∙ find-put_self id _ a.operations (id-find id a.operations h.old h.found) h.found

-- A grant is given only for a row that is `prepared`, under no lease, at the version that was asked
-- for and with no grant out; it leaves the row with the grant out and the next version, and it
-- changes nothing else of the row but the time of its update.
pub authorize-grant :
    (id : Uuid) (version : ℕ) (w : World) (db : Db) (op : Operation)
    → (authorize_dispatch id version w db).0 ≡ ok op
    → (old : OperationRow) × (find id db.operations ≡ some old)
      × (old.state ≡ prepared)
      × (old.lease ≡ none)
      × (old.version ≡ version)
      × (old.dispatch_authorized ≡ false)
      × (find id (authorize_dispatch id version w db).1.operations
          ≡ some (record old {
            dispatch_authorized = true;
            version = version + 1;
            updated_at = w.now;
          }))
unfolding authorized_row
authorize-grant id version w db op h =
    let g = authorize-Granted id version w db op h in
    (
      g.old,
      g.found,
      g.state,
      g.unclaimed,
      g.version_is,
      g.unsent,
      grant_row id version w db _ g
          ∙ ap
              (λ v.
                some (record g.old {
                  dispatch_authorized = true;
                  version = v + 1;
                  updated_at = w.now;
                }))
              g.version_is,
    )

-- After a grant a second one is refused on the tables the first left, at any time and version.
pub authorize-once :
    (id : Uuid) (version later : ℕ) (w v : World) (db : Db) (op again : Operation)
    → (authorize_dispatch id version w db).0 ≡ ok op
    → (authorize_dispatch id later v (authorize_dispatch id version w db).1).0 ≢ ok again
unfolding authorized_row
authorize-once id version later w v db op again h k =
    let one = authorize-Granted id version w db op h in
    let two = authorize-Granted id later v _ again k in
    let same = some-equal (sym (grant_row id version w db _ one) ∙ two.found) in
    cc (ap (λ r. r.dispatch_authorized) same, two.unsent)
