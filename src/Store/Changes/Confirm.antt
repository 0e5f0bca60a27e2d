-- ===== src/Store/Changes/Confirm.antt =====
-- `Confirm` makes one write of the kind `confirms`, or none.
use watchkeeper.Prelude.{◌∙◌, ◌+◌, ap, ℕ, String, ◌≡◌, refl, arith, Option, some, none}
use watchkeeper.Domain.State.{state_eq→eq}
use watchkeeper.Domain.Types.{Uuid, ConfirmRequest, Receipt}
use watchkeeper.Store.Rows.{OperationRow, WorkflowRow, Db}
use watchkeeper.Store.Tables.{find, put, find-put_self, id-find}
use watchkeeper.Store.Tx.{World, Session}
use watchkeeper.Store.Queries.{scan_operation, with_event}
use watchkeeper.Store.Ensures.{
  Ensures, Ensures-bind, Ensures-now, Ensures-reject_if, Ensures-update_operation, Ensures-new_id,
  Ensures-append_event, Ensures-get_operation_tx, Ensures-get_operation_for_update, run-db,
  Ensures-query, Ensures-required, Ensures-statement, Ensures-pure,
}
use watchkeeper.Store.Confirm.{
  confirmed_row, confirm_event, confirm_body, confirm, confirm_found, confirm_first, confirm_replay,
  read_confirmed, insert_receipt, new_receipt, version_of, confirm_fingerprinted,
}
use watchkeeper.Domain.Fingerprint.{Encoded, encoded, failed}
use watchkeeper.Store.Changes.{Changes, done, more, writes, confirms, keeps}

-- The reads at the end leave the tables alone.
read_confirmed-db :
    (P : Db → Type 0) (id : Uuid) (w : World) (s : Session)
    → P s.db
    → Ensures (read_confirmed id) w s (λ a t. P t.db)
unfolding read_confirmed
read_confirmed-db P id w s h = Ensures-bind _ _ (
    Ensures-get_operation_tx id λ r x _ _.
      Ensures-bind _ _
        (Ensures-query _ _ (Ensures-bind _ _ (Ensures-required _ _ λ receipt _. Ensures-pure _ h))))

pub insert_receipt-keeps :
    (id : Uuid) (receipt : Receipt) (db new : Db) {u : Unit {0}}
    → insert_receipt id receipt db ≡ some (u, new)
    → (new.operations ≡ db.operations)
      × (new.events ≡ db.events)
      × (new.next_event_id ≡ db.next_event_id)
unfolding insert_receipt
insert_receipt-keeps id receipt db new h = ground arith

confirm_replay-Changes :
    (id : Uuid) (req : ConfirmRequest) (fingerprint : String) (existing : Receipt) (w : World)
    (s : Session)
    → Ensures (confirm_replay id req fingerprint existing) w s (λ a t. Changes s.db t.db)
unfolding confirm_replay
confirm_replay-Changes id req fingerprint existing w s =
    Ensures-bind _ _ (Ensures-reject_if _ _ λ _. read_confirmed-db (Changes s.db) id w s done)

stored_version :
    (id : Uuid) (time version : ℕ) (r : OperationRow) (db : Db)
    → find id db.operations ≡ some r
    → version_of id (record db { operations = put id (confirmed_row time r) db.operations })
      ≡ some version
    → version ≡ r.version + 1
unfolding version_of confirmed_row
stored_version id time version r db found h = ground (
  arith,
  find-put_self id (confirmed_row time r) db.operations (id-find id db.operations r found) found,
)

confirm_first-Changes :
    (id : Uuid) (req : ConfirmRequest) (fingerprint : String) (r : OperationRow) (x : WorkflowRow)
    (w : World) (s : Session)
    → find id s.db.operations ≡ some r
    → Ensures (confirm_first id req fingerprint (scan_operation r x)) w s (λ a t. Changes s.db t.db)
unfolding confirm_first with_event scan_operation
confirm_first-Changes id req fingerprint r x w s found = Ensures-bind _ _ (
    Ensures-reject_if _ _ λ in_state. Ensures-bind _ _ (
      Ensures-reject_if _ _ λ _. Ensures-bind _ _ (
        Ensures-new_id λ receipt_id. Ensures-bind _ _ (
          Ensures-statement _ _ λ _ db inserted.
            let kept =
              insert_receipt-keeps id (new_receipt receipt_id req fingerprint) s.db db inserted in
            let still = ap (find id) kept.0 ∙ found in
            Ensures-bind _ _ (
              Ensures-now (
                Ensures-bind _ _ (
                  Ensures-update_operation _ id _ still λ _. Ensures-bind _ _ (
                    Ensures-query _ _ (
                      Ensures-bind _ _ (
                        Ensures-required _ _ λ version stored. Ensures-bind _ _ (
                          Ensures-append_event _ _ (
                            read_confirmed-db (Changes s.db) id w _ (
                              more (more {c = db} done (keeps kept.0 kept.1)) (
                                writes w.now id r (confirmed_row w.now r)
                                  (confirm_event id version receipt_id) db.next_event_id still
                                  (confirms receipt_id (state_eq→eq _ _ (ground arith)) refl (
                                    ap (λ v. confirm_event id v receipt_id)
                                      (stored_version id w.now version r db still stored)))
                                  refl refl))))))))))))))

confirm_found-Changes :
    (id : Uuid) (req : ConfirmRequest) (fingerprint : String) (r : OperationRow) (x : WorkflowRow)
    (w : World) (s : Session) (o : Option Receipt)
    → find id s.db.operations ≡ some r
    → Ensures
        (confirm_found id req fingerprint (scan_operation r x) o)
        w
        s
        (λ a t. Changes s.db t.db)
unfolding confirm_found
confirm_found-Changes id req fingerprint r x w s none found =
    confirm_first-Changes id req fingerprint r x w s found
confirm_found-Changes id req fingerprint r x w s (some existing) found =
    confirm_replay-Changes id req fingerprint existing w s

confirm_body-Changes :
    (id : Uuid) (req : ConfirmRequest) (fingerprint : String) (w : World) (s : Session)
    → Ensures (confirm_body id req fingerprint) w s (λ a t. Changes s.db t.db)
unfolding confirm_body
confirm_body-Changes id req fingerprint w s = Ensures-bind _ _ (
    Ensures-get_operation_for_update id λ r x _ found.
      Ensures-bind _ _
        (Ensures-query _ _ (confirm_found-Changes id req fingerprint r x w _ _ found)))

confirm_fingerprinted-Changes :
    (id : Uuid) (req : ConfirmRequest) (e : Encoded) (w : World) (db : Db)
    → Changes db (confirm_fingerprinted id req e w db).1
confirm_fingerprinted-Changes id req (failed e) w db = done
confirm_fingerprinted-Changes id req (encoded fingerprint) w db =
    run-db (Changes db) _ _ _ w db done (confirm_body-Changes id req fingerprint w _)

pub confirm-Changes :
    (id : Uuid) (req : ConfirmRequest) (w : World) (db : Db) → Changes db (confirm id req w db).1
unfolding confirm
confirm-Changes id req w db = confirm_fingerprinted-Changes id req _ w db
