-- ===== src/Store/Calls.antt =====
-- The calls of the `Store` interface that change the tables (internal/store/store.go), and what a
-- sequence of them, each in a world of its own, leaves behind. Calls that fail are part of the
-- sequence, and so are those whose COMMIT was done and not answered.
pub mod Steps
use watchkeeper.Prelude.{ℕ, String, List, [], ◌∷◌}
use watchkeeper.Domain.Types.{
  Uuid, PrepareRequest, ConfirmRequest, RecoveryResult, ManualResolution,
}
use watchkeeper.Store.Rows.{Db}
use watchkeeper.Store.Tx.{World}
use watchkeeper.Store.Dispatch.{authorize_dispatch}
use watchkeeper.Store.Confirm.{confirm}
use watchkeeper.Store.Retry.{begin_retry, request_reconciliation}
use watchkeeper.Store.Manual.{manual_resolve}
use watchkeeper.Store.Prepare.{prepare}
use watchkeeper.Store.Results.{submit_recovery_result}
use watchkeeper.Store.Claims.{claim_recovery_for_workflow, renew_claim}

pub data Call : Type 0 where
  prepares : PrepareRequest → Call
  authorizes : Uuid → ℕ → Call
  confirms : Uuid → ConfirmRequest → Call
  retries : Uuid → ℕ → String → Call
  requests : Uuid → ℕ → String → String → Call
  claims : String → ℕ → ℕ → ℕ → String → Call
  renews : Uuid → String → ℕ → Call
  submits : Uuid → RecoveryResult → Call
  resolves : Uuid → ManualResolution → Call

unfoldable pub perform : Call → World → Db → Db
perform (prepares req) w db = (prepare req w db).1
perform (authorizes id version) w db = (authorize_dispatch id version w db).1
perform (confirms id req) w db = (confirm id req w db).1
perform (retries id version reason) w db = (begin_retry id version reason w db).1
perform (requests id version actor reason) w db =
    (request_reconciliation id version actor reason w db).1
perform (claims worker limit lease grace only) w db =
    (claim_recovery_for_workflow worker limit lease grace only w db).1
perform (renews id token duration) w db = (renew_claim id token duration w db).1
perform (submits id result) w db = (submit_recovery_result id result w db).1
perform (resolves id resolution) w db = (manual_resolve id resolution w db).1

unfoldable pub serve : Db → List (World × Call) → Db
serve db [] = db
serve db ((w, c) ∷ rest) = serve (perform c w db) rest
