-- ===== src/Store/Calls/Steps.antt =====
-- Every call makes steps of `Changes` only.
use watchkeeper.Store.Rows.{Db}
use watchkeeper.Store.Tables.{Distinct}
use watchkeeper.Store.Tx.{World}
use watchkeeper.Store.Calls.{
  Call, prepares, authorizes, confirms, retries, requests, claims, renews, submits, resolves,
  perform,
}
use watchkeeper.Store.Changes.{Changes}
use watchkeeper.Store.Changes.Dispatch.{authorize_dispatch-Changes}
use watchkeeper.Store.Changes.Confirm.{confirm-Changes}
use watchkeeper.Store.Changes.Retry.{begin_retry-Changes, request_reconciliation-Changes}
use watchkeeper.Store.Changes.Manual.{manual_resolve-Changes}
use watchkeeper.Store.Changes.Prepare.{prepare-Changes}
use watchkeeper.Store.Changes.Results.{submit_recovery_result-Changes}
use watchkeeper.Store.Changes.Claims.{claim_recovery_for_workflow-Changes, renew_claim-Changes}

pub perform-Changes :
    (c : Call) (w : World) (db : Db) → Distinct db.operations → Changes db (perform c w db)
unfolding perform
perform-Changes (prepares req) w db d = prepare-Changes req w db
perform-Changes (authorizes id version) w db d = authorize_dispatch-Changes id version w db
perform-Changes (confirms id req) w db d = confirm-Changes id req w db
perform-Changes (retries id version reason) w db d = begin_retry-Changes id version reason w db
perform-Changes (requests id version actor reason) w db d =
    request_reconciliation-Changes id version actor reason w db
perform-Changes (claims worker limit lease grace only) w db d =
    claim_recovery_for_workflow-Changes worker limit lease grace only w db d
perform-Changes (renews id token duration) w db d = renew_claim-Changes id token duration w db
perform-Changes (submits id result) w db d = submit_recovery_result-Changes id result w db
perform-Changes (resolves id resolution) w db d = manual_resolve-Changes id resolution w db
