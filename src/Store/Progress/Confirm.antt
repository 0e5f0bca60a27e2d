-- ===== src/Store/Progress/Confirm.antt =====
-- `Confirm` where its guards hold, and `Confirm` again after it answered.
use watchkeeper.Prelude.{
  ◌+◌, ◌<◌, ◌≡◌, refl, sym, subst, String, true, false, none, some, List, [], ◌∷◌, ◌++◌, ◌==◌,
  ==_self, not, arith, lt→ltb, str_eq,
}
use watchkeeper.Domain.State.{prepared, confirmed, state_eq}
use watchkeeper.Domain.Types.{Uuid, Time, Operation, Receipt, ConfirmRequest}
use watchkeeper.Domain.Fingerprint.{encoded, receipt_fingerprint}
use watchkeeper.Store.Rows.{
  OperationRow, WorkflowRow, ReceiptRow, Db, row_checks, bigint_limit, integer_limit,
}
use watchkeeper.Store.Tables.{find, put, find_workflow, find-put_self, id-find}
use watchkeeper.Store.Tx.{World, Session}
use watchkeeper.Store.Queries.{scan_operation, joined, with_event, find_receipt}
use watchkeeper.Store.Confirm.{
  confirm, confirm_fingerprinted, confirm_body, confirm_found, confirm_first, confirm_replay,
  read_confirmed, new_receipt, insert_receipt, version_of, confirmed_row, confirm_event,
}
use watchkeeper.Store.Ensures.{after_call}
use watchkeeper.Store.Progress.{
  Quiet, Completes, Completes-bind, Completes-pure, Completes-now, Completes-new_id,
  Completes-required, Completes-statement, Completes-query, Completes-reject_if,
  Completes-update_operation, Completes-append_event, Completes-get_operation_tx,
  Completes-get_operation_for_update, joined_of, Answers, run-Answers,
}

abbrev pub with_stored : OperationRow → WorkflowRow → Receipt → Operation
with_stored r x k = record (scan_operation r x) { receipt = some k }

Completes-read_confirmed :
    (id : Uuid) (r : OperationRow) (x : WorkflowRow) (k : Receipt) {w : World} {s : Session}
    {Q : Operation → Session → Type 0}
    → Quiet w
    → joined id s.db ≡ some (r, x)
    → find_receipt id s.db.receipts ≡ some k
    → Q (with_stored r x k) (after_call s.db (after_call s.db s))
    → Completes (read_confirmed id) w s Q
unfolding read_confirmed
Completes-read_confirmed id r x k quiet row receipt q = Completes-bind _ _ (
    Completes-get_operation_tx id r x quiet row (
      Completes-bind _ _ (
        Completes-query _ (λ db. find_receipt id db.receipts) quiet
          (Completes-bind _ _ (Completes-required _ _ k receipt (Completes-pure _ q))))))

-- The tables hold the confirmation that a request asks for.
pub record Confirmed (id : Uuid) (req : ConfirmRequest) (fingerprint : String) (db : Db)
    : Type 0 where
  pub row : OperationRow
  pub workflow : WorkflowRow
  pub receipt : Receipt
  pub joins : joined id db ≡ some (row, workflow)
  pub stored : find_receipt id db.receipts ≡ some receipt
  pub same_fingerprint : str_eq receipt.receipt_fingerprint fingerprint ≡ true
  pub same_service : str_eq receipt.service_receipt_id req.service_receipt_id ≡ true

module _ (id : Uuid) (req : ConfirmRequest) (fingerprint : String) (w : World) (s : Session)
    (quiet : Quiet w) (c : Confirmed id req fingerprint s.db) where
  abbrev Repeated : Operation → Session → Type 0
  Repeated op t = (op ≡ with_stored c.row c.workflow c.receipt) × (t.db ≡ s.db)

  confirm_replay-Repeated :
      Completes
        (confirm_replay id req fingerprint c.receipt)
        w
        (after_call s.db (after_call s.db s))
        Repeated
  unfolding confirm_replay
  confirm_replay-Repeated = Completes-bind _ _ (
      Completes-reject_if _ _ (rw (c.same_fingerprint, c.same_service) refl) (
        Completes-read_confirmed id c.row c.workflow c.receipt quiet c.joins c.stored (refl, refl)))

  confirm_found-Repeated :
      Completes
        (confirm_found id req fingerprint
          (scan_operation c.row c.workflow)
          (find_receipt id s.db.receipts))
        w
        (after_call s.db (after_call s.db s))
        Repeated
  unfolding confirm_found
  confirm_found-Repeated =
      subst
        (λ o.
          Completes (confirm_found id req fingerprint (scan_operation c.row c.workflow) o) w
            (after_call s.db (after_call s.db s)) Repeated)
        (sym c.stored) confirm_replay-Repeated

  confirm_body-Repeated : Completes (confirm_body id req fingerprint) w s Repeated
  unfolding confirm_body
  confirm_body-Repeated = Completes-bind _ _ (
      Completes-get_operation_for_update id c.row c.workflow quiet c.joins (
        Completes-bind _ _
          (Completes-query _ (λ db. find_receipt id db.receipts) quiet confirm_found-Repeated)))

-- A row that can be confirmed at its version, with its workflow; its numbers have not run out.
pub record Confirmable (id : Uuid) (r : OperationRow) (x : WorkflowRow) (db : Db) : Type 0 where
  pub found : find id db.operations ≡ some r
  pub of_workflow : find_workflow r.workflow_id db.workflows ≡ some x
  pub state : r.state ≡ prepared
  pub no_receipt : find_receipt id db.receipts ≡ none
  pub version_fits : r.version + 1 < bigint_limit
  pub attempts_fit : r.attempt_count < integer_limit

confirmed_row_checks :
    (time : Time) (r : OperationRow)
    → r.version + 1 < bigint_limit
    → r.attempt_count < integer_limit
    → row_checks (confirmed_row time r) ≡ true
unfolding row_checks confirmed_row
confirmed_row_checks time r version attempts = rw (lt→ltb _ _ version, lt→ltb _ _ attempts) refl

pub find_receipt-append :
    (id : Uuid) (k : Receipt) (rows : List ReceiptRow)
    → find_receipt id rows ≡ none
    → find_receipt id (rows ++ record { operation_id = id; receipt = k } ∷ []) ≡ some k
unfolding find_receipt
find_receipt-append id k [] h = rw (==_self id) refl
find_receipt-append id k (r ∷ rows) h = ground (arith, find_receipt-append id k rows)

version_of_found :
    (id : Uuid) (db : Db) (r : OperationRow)
    → find id db.operations ≡ some r
    → version_of id db ≡ some r.version
unfolding version_of
version_of_found id db r h = ground arith

module _ (id : Uuid) (req : ConfirmRequest) (fingerprint : String) (r : OperationRow)
    (x : WorkflowRow) (w : World) (s : Session) (quiet : Quiet w) (c : Confirmable id r x s.db)
    (version : req.expected_version ≡ r.version) where
  row_found :
      find id (put id (confirmed_row w.now r) s.db.operations) ≡ some (confirmed_row w.now r)
  unfolding confirmed_row
  row_found =
      find-put_self id (confirmed_row w.now r) s.db.operations
        (id-find id s.db.operations r c.found) c.found

  abbrev First : Operation → Session → Type 0
  First op t = (op.state ≡ confirmed) × (find id t.db.operations ≡ some (confirmed_row w.now r))

  not_prepared_or_other :
      (not (state_eq (scan_operation r x).state prepared) ≡ false)
      × (not ((scan_operation r x).version == req.expected_version) ≡ false)
  unfolding scan_operation state_eq
  not_prepared_or_other = (rw c.state refl, rw (version, ==_self r.version) refl)

  inserted :
      (k : Receipt)
      → insert_receipt id k s.db
        ≡ some (
          tt,
          record s.db {
            receipts = s.db.receipts ++ record { operation_id = id; receipt = k } ∷ [];
          },
        )
  unfolding insert_receipt
  inserted k = rw c.no_receipt refl

  confirm_first-First :
      Completes
        (confirm_first id req fingerprint (scan_operation r x))
        w
        (after_call s.db (after_call s.db s))
        First
  unfolding confirm_first with_event confirmed_row scan_operation
  confirm_first-First = Completes-bind _ _ (
      Completes-reject_if _ _ not_prepared_or_other.0 (
        Completes-bind _ _ (
          Completes-reject_if _ _ not_prepared_or_other.1 (
            Completes-bind _ _ (
              Completes-new_id quiet λ receipt_id. Completes-bind _ _ (
                Completes-statement _ (insert_receipt id (new_receipt receipt_id req fingerprint))
                  tt _ quiet (inserted (new_receipt receipt_id req fingerprint))
                  (Completes-bind _ _ (
                    Completes-now (
                      Completes-bind _ _ (
                        Completes-update_operation _ id (confirmed_row w.now) r quiet c.found
                          (confirmed_row_checks w.now r c.version_fits c.attempts_fit)
                          (Completes-bind _ _ (
                            Completes-query _ (version_of id) quiet (
                              Completes-bind _ _ (
                                Completes-required _ _ (confirmed_row w.now r).version
                                  (version_of_found id _ (confirmed_row w.now r) row_found)
                                  (Completes-bind _ _ (
                                    Completes-append_event _
                                      (confirm_event id (confirmed_row w.now r).version receipt_id)
                                      quiet
                                      (Completes-read_confirmed id (confirmed_row w.now r) x
                                        (new_receipt receipt_id req fingerprint) quiet
                                        (joined_of id _ (confirmed_row w.now r) x row_found
                                          c.of_workflow)
                                        (find_receipt-append id _ s.db.receipts c.no_receipt)
                                        (refl, row_found))))))))))))))))))

  confirm_body-First : Completes (confirm_body id req fingerprint) w s First
  unfolding confirm_body confirm_found
  confirm_body-First = Completes-bind _ _ (
      Completes-get_operation_for_update id r x quiet (joined_of id s.db r x c.found c.of_workflow)
        (Completes-bind _ _ (
          Completes-query _ (λ db. find_receipt id db.receipts) quiet
            (subst
              (λ o.
                Completes (confirm_found id req fingerprint (scan_operation r x) o) w
                  (after_call s.db (after_call s.db s)) First)
              (sym c.no_receipt) confirm_first-First))))

-- A confirmation of the prepared row.
pub confirm-First :
    (id : Uuid) (req : ConfirmRequest) (fingerprint : String) (r : OperationRow) (x : WorkflowRow)
    (w : World) (db : Db)
    → Quiet w
    → Confirmable id r x db
    → req.expected_version ≡ r.version
    → receipt_fingerprint w.codec req.receipt ≡ encoded fingerprint
    → Answers
        (confirm id req w db)
        (λ op new. (op.state ≡ confirmed) × (find id new.operations ≡ some (confirmed_row w.now r)))
unfolding confirm
confirm-First id req fingerprint r x w db quiet c version printed =
    subst
      (λ e. Answers (confirm_fingerprinted id req e w db) (λ op new.
        (op.state ≡ confirmed) × (find id new.operations ≡ some (confirmed_row w.now r))))
      (sym printed)
      (run-Answers _ _ _ (confirm_body id req fingerprint) w db quiet
        (confirm_body-First id req fingerprint r x w _ quiet c version))

-- A confirmation that the tables hold.
pub confirm-Repeated :
    (id : Uuid) (req : ConfirmRequest) (fingerprint : String) (w : World) (db : Db)
    → Quiet w
    → (c : Confirmed id req fingerprint db)
    → receipt_fingerprint w.codec req.receipt ≡ encoded fingerprint
    → Answers
        (confirm id req w db)
        (λ op new. (op ≡ with_stored c.row c.workflow c.receipt) × (new ≡ db))
unfolding confirm
confirm-Repeated id req fingerprint w db quiet c printed =
    subst
      (λ e.
        Answers (confirm_fingerprinted id req e w db)
          (λ op new. (op ≡ with_stored c.row c.workflow c.receipt) × (new ≡ db)))
      (sym printed)
      (run-Answers _ _ _ (confirm_body id req fingerprint) w db quiet
        (confirm_body-Repeated id req fingerprint w _ quiet c))
