-- ===== src/Store/Progress/Repeat.antt =====
-- A confirmation after which the tables have changed, however its commit was answered, can be repeated.
use watchkeeper.Prelude.{
  ◌≡◌, refl, sym, ap, ◌∙◌, subst, ◌⊎◌, inl, inr, String, true, Option, none, some, arith, str_eq,
  eq_iff,
}
use watchkeeper.Domain.Types.{Uuid, Operation, Receipt, ConfirmRequest}
use watchkeeper.Domain.Fingerprint.{encoded, receipt_fingerprint}
use watchkeeper.Store.Rows.{OperationRow, Db}
use watchkeeper.Store.Tables.{find}
use watchkeeper.Store.Tx.{World, Session}
use watchkeeper.Store.Queries.{with_event, find_receipt}
use watchkeeper.Store.Confirm.{
  confirm, confirm_fingerprinted, confirm_body, confirm_found, confirm_first, confirm_replay,
  read_confirmed, new_receipt, insert_receipt,
}
use watchkeeper.Store.Ensures.{
  Ensures, Ensures-bind, Ensures-now, Ensures-reject_if, Ensures-update_operation, Ensures-new_id,
  Ensures-append_event, Ensures-get_operation_tx, Ensures-get_operation_for_update, run-db,
  Ensures-query, Ensures-required, Ensures-statement, Ensures-pure, Ensures-mono,
}
use watchkeeper.Store.Changes.Confirm.{insert_receipt-keeps}
use watchkeeper.Store.Progress.{Quiet, Answers}
use watchkeeper.Store.Progress.Confirm.{Confirmed, confirm-Repeated, find_receipt-append}

-- The last reads of a confirmation show what the tables hold.
read_confirmed-Confirmed :
    (id : Uuid) (req : ConfirmRequest) (fingerprint : String) (k : Receipt) (w : World)
    (s : Session)
    → find_receipt id s.db.receipts ≡ some k
    → str_eq k.receipt_fingerprint fingerprint ≡ true
    → str_eq k.service_receipt_id req.service_receipt_id ≡ true
    → Ensures (read_confirmed id) w s (λ a t. Confirmed id req fingerprint t.db)
unfolding read_confirmed
read_confirmed-Confirmed id req fingerprint k w s stored printed service = Ensures-bind _ _ (
    Ensures-get_operation_tx id λ r x joins _. Ensures-bind _ _ (
      Ensures-query _ _ (
        Ensures-bind _ _ (
          Ensures-required _ _ λ _ _. Ensures-pure _ (record {
            row = r;
            workflow = x;
            receipt = k;
            joins = joins;
            stored = stored;
            same_fingerprint = printed;
            same_service = service;
          })))))

inserted-found :
    (id : Uuid) (k : Receipt) (db new : Db) {u : Unit {0}}
    → insert_receipt id k db ≡ some (u, new)
    → find_receipt id new.receipts ≡ some k
unfolding insert_receipt
inserted-found id k db new h = ground (arith, find_receipt-append id k db.receipts)

same_text : (s : String) → str_eq s s ≡ true
same_text s = (eq_iff s s).1 refl

confirm_replay-Confirmed :
    (id : Uuid) (req : ConfirmRequest) (fingerprint : String) (k : Receipt) (w : World)
    (s : Session)
    → find_receipt id s.db.receipts ≡ some k
    → Ensures (confirm_replay id req fingerprint k) w s (λ a t. Confirmed id req fingerprint t.db)
unfolding confirm_replay
confirm_replay-Confirmed id req fingerprint k w s stored = Ensures-bind _ _ (
    Ensures-reject_if _ _ λ same.
      read_confirmed-Confirmed id req fingerprint k w s stored (ground arith) (ground arith))

confirm_first-Confirmed :
    (id : Uuid) (req : ConfirmRequest) (fingerprint : String) (op : Operation) (r : OperationRow)
    (w : World) (s : Session)
    → find id s.db.operations ≡ some r
    → Ensures (confirm_first id req fingerprint op) w s (λ a t. Confirmed id req fingerprint t.db)
unfolding confirm_first with_event new_receipt
confirm_first-Confirmed id req fingerprint op r w s found = Ensures-bind _ _ (
    Ensures-reject_if _ _ λ _. Ensures-bind _ _ (
      Ensures-reject_if _ _ λ _. Ensures-bind _ _ (
        Ensures-new_id λ receipt_id. Ensures-bind _ _ (
          Ensures-statement _ _ λ _ db inserted.
            let k = new_receipt receipt_id req fingerprint in
            let kept = insert_receipt-keeps id k s.db db inserted in
            Ensures-bind _ _ (
              Ensures-now (
                Ensures-bind _ _ (
                  Ensures-update_operation _ id _ (ap (find id) kept.0 ∙ found) λ _.
                    Ensures-bind _ _ (
                      Ensures-query _ _ (
                        Ensures-bind _ _ (
                          Ensures-required _ _ λ _ _. Ensures-bind _ _ (
                            Ensures-append_event _ _ (
                              read_confirmed-Confirmed id req fingerprint k w _
                                (inserted-found id k s.db db inserted) (same_text fingerprint)
                                (same_text req.service_receipt_id)))))))))))))

confirm_found-Confirmed :
    (id : Uuid) (req : ConfirmRequest) (fingerprint : String) (op : Operation) (r : OperationRow)
    (o : Option Receipt) (w : World) (s : Session)
    → find id s.db.operations ≡ some r
    → find_receipt id s.db.receipts ≡ o
    → Ensures (confirm_found id req fingerprint op o) w s (λ a t. Confirmed id req fingerprint t.db)
unfolding confirm_found
confirm_found-Confirmed id req fingerprint op r (some k) w s found stored =
    confirm_replay-Confirmed id req fingerprint k w s stored
confirm_found-Confirmed id req fingerprint op r none w s found stored =
    confirm_first-Confirmed id req fingerprint op r w s found

confirm_body-Confirmed :
    (id : Uuid) (req : ConfirmRequest) (fingerprint : String) (w : World) (s : Session)
    → Ensures (confirm_body id req fingerprint) w s (λ a t. Confirmed id req fingerprint t.db)
unfolding confirm_body
confirm_body-Confirmed id req fingerprint w s = Ensures-bind _ _ (
    Ensures-get_operation_for_update id λ r x _ found.
      Ensures-bind _ _
        (Ensures-query _ _ (confirm_found-Confirmed id req fingerprint _ r _ w _ found refl)))

confirm-Confirmed :
    (id : Uuid) (req : ConfirmRequest) (fingerprint : String) (w : World) (db : Db)
    → receipt_fingerprint w.codec req.receipt ≡ encoded fingerprint
    → ((confirm id req w db).1 ≡ db) ⊎ Confirmed id req fingerprint (confirm id req w db).1
unfolding confirm
confirm-Confirmed id req fingerprint w db printed =
    subst
      (λ e.
        ((confirm_fingerprinted id req e w db).1 ≡ db)
        ⊎ Confirmed id req fingerprint (confirm_fingerprinted id req e w db).1)
      (sym printed)
      (run-db (λ new. (new ≡ db) ⊎ Confirmed id req fingerprint new) _ _
        (confirm_body id req fingerprint) w db (inl refl)
        (Ensures-mono (λ a t. Confirmed id req fingerprint t.db) _
          (confirm_body-Confirmed id req fingerprint w _) λ a t c. inr c))

-- However a confirmation ends, with a failure or a lost answer too: it has left the tables as they
-- were, or, where no call fails, the same request is answered the next time, and changes nothing.
pub confirm-repeat :
    (id : Uuid) (req : ConfirmRequest) (fingerprint : String) (w later : World) (db : Db)
    → receipt_fingerprint w.codec req.receipt ≡ encoded fingerprint
    → receipt_fingerprint later.codec req.receipt ≡ encoded fingerprint
    → Quiet later
    → ((confirm id req w db).1 ≡ db)
      ⊎ Answers
          (confirm id req later (confirm id req w db).1)
          (λ op new. new ≡ (confirm id req w db).1)
confirm-repeat id req fingerprint w later db printed again quiet =
    elim (confirm-Confirmed id req fingerprint w db printed) [
      | inl same ↦ inl same
      | inr c ↦ inr (
          let a = confirm-Repeated id req fingerprint later (confirm id req w db).1 quiet c again in
          record { value = a.value; answers = a.answers; meets = a.meets.1 })
    ]
