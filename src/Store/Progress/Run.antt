-- ===== src/Store/Progress/Run.antt =====
-- A run without faults: the dispatch of a prepared operation is granted, and its confirmation taken.
use watchkeeper.Prelude.{◌+◌, ◌<◌, ◌≡◌, sym, ap, ◌∙◌, String, none, some, arith}
use watchkeeper.Domain.State.{confirmed}
use watchkeeper.Domain.Types.{Uuid, ConfirmRequest}
use watchkeeper.Domain.Fingerprint.{encoded, receipt_fingerprint}
use watchkeeper.Store.Rows.{OperationRow, WorkflowRow, Db, bigint_limit}
use watchkeeper.Store.Tables.{find, find_workflow}
use watchkeeper.Store.Tx.{World}
use watchkeeper.Store.Queries.{scan_operation, find_receipt}
use watchkeeper.Store.Dispatch.{authorize_dispatch, authorized_row}
use watchkeeper.Store.Confirm.{confirm}
use watchkeeper.Store.Progress.{Quiet, Answers}
use watchkeeper.Store.Progress.Dispatch.{Grantable, authorize-Answers}
use watchkeeper.Store.Progress.Confirm.{Confirmable, confirm-First}

granted_Confirmable :
    (id : Uuid) (r : OperationRow) (x : WorkflowRow) (w : World) (db new : Db)
    → Grantable id r x db
    → find_receipt id db.receipts ≡ none
    → r.version + 2 < bigint_limit
    → new.workflows ≡ db.workflows
    → new.receipts ≡ db.receipts
    → find id new.operations ≡ some (authorized_row w.now r)
    → Confirmable id (authorized_row w.now r) x new
unfolding authorized_row
granted_Confirmable id r x w db new g none_yet fits workflows receipts row = record {
  found = row;
  of_workflow = ap (find_workflow r.workflow_id) workflows ∙ g.of_workflow;
  state = g.state;
  no_receipt = ap (find_receipt id) receipts ∙ none_yet;
  version_fits = omega arith;
  attempts_fit = g.attempts_fit;
}

-- Where no call fails, a prepared operation under no lease and with no receipt, whose dispatch was not
-- granted before and whose numbers have not run out, is granted its dispatch, and the confirmation
-- that is sent at the version of the grant is then answered with a `confirmed` operation.
pub grant-confirm :
    (id : Uuid) (req : ConfirmRequest) (fingerprint : String) (r : OperationRow) (x : WorkflowRow)
    (w later : World) (db : Db)
    → Quiet w
    → Quiet later
    → Grantable id r x db
    → find_receipt id db.receipts ≡ none
    → r.version + 2 < bigint_limit
    → req.expected_version ≡ r.version + 1
    → receipt_fingerprint later.codec req.receipt ≡ encoded fingerprint
    → Answers (authorize_dispatch id r.version w db) (λ grant new.
      Answers
        (confirm id req later new)
        (λ op last. (grant.version ≡ req.expected_version) × (op.state ≡ confirmed)))
unfolding scan_operation authorized_row
grant-confirm id req fingerprint r x w later db quiet quiet_later g none_yet fits version printed =
    let a = authorize-Answers id r x w db quiet g in
    let (workflows, receipts, row, op) = a.meets in
    let c = granted_Confirmable id r x w db _ g none_yet fits workflows receipts row in
    let b =
      confirm-First id req fingerprint (authorized_row w.now r) x later _ quiet_later c version
        printed in
    record {
      value = a.value;
      answers = a.answers;
      meets = record {
        value = b.value;
        answers = b.answers;
        meets = (ap (λ o. o.version) op ∙ sym version, b.meets.0);
      };
    }
