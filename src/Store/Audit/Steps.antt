-- ===== src/Store/Audit/Steps.antt =====
-- Each write of the store is an event that the auditor accepts, and that takes him to the new row.
use watchkeeper.Prelude.{ℕ, ◌≡◌, arith}
use watchkeeper.Domain.State.{state_eq, state_eq_refl}
use watchkeeper.Domain.Types.{Uuid}
use watchkeeper.Store.Rows.{OperationRow}
use watchkeeper.Store.Queries.{NewEvent, stamp}
use watchkeeper.Store.Dispatch.{authorized_row, dispatch_event}
use watchkeeper.Store.Confirm.{confirmed_row, confirm_event}
use watchkeeper.Store.Retry.{retried_row, retry_event, requested_row, request_event}
use watchkeeper.Store.Manual.{manual_row, manual_event}
use watchkeeper.Store.Results.{result_row, result_event}
use watchkeeper.Store.Claims.{claimed_row, claim_event}
use watchkeeper.Store.Changes.{
  Write, authorizes, confirms, retries, requests, claims, results, resolves,
}
use watchkeeper.Store.Audit.{follows, observe, advance, progress}

-- The new row continues the trail of the old one.
Continues : ℕ → ℕ → OperationRow → OperationRow → NewEvent → Type 0
Continues n time old new e =
    observe (follows (progress old)) (stamp n time e) ≡ follows (progress new)

pub Write-observed :
    (n time : ℕ) (id : Uuid) (old new : OperationRow) (e : NewEvent)
    → Write time id old new e
    → observe (follows (progress old)) (stamp n time e) ≡ follows (progress new)
unfolding state_eq observe advance progress stamp authorized_row dispatch_event confirmed_row
    confirm_event retried_row retry_event requested_row request_event claimed_row claim_event
    result_row result_event manual_row manual_event
Write-observed n time id old new e (authorizes prep off free row ev) =
    rw (row, ev) (ground (arith, state_eq_refl old.state))
Write-observed n time id old new e (confirms receipt_id prep row ev) =
    rw (row, ev) (ground (arith, state_eq_refl old.state))
Write-observed n time id old new e (retries reason was row ev) =
    rw (row, ev) (ground (arith, state_eq_refl old.state))
Write-observed n time id old new e (requests actor reason is_open row ev) =
    rw (row, ev) (ground (arith, state_eq_refl old.state))
Write-observed n time id old new e (claims worker hash lease attempt_id expires is_open row ev) =
    rw (row, ev) (ground (arith, state_eq_refl old.state))
Write-observed n time id old new e (results v l attempt_id observation_id leased verdict row ev) =
    rw (row, ev) (ground (arith, state_eq_refl old.state))
Write-observed n time id old new e (resolves resolution to was target row ev) =
    rw (row, ev) (ground (arith, state_eq_refl old.state))
