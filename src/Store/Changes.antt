-- ===== src/Store/Changes.antt =====
-- The writes that the store makes to `operations` and `operation_events`, one for each kind of call:
-- the row is written over by the call's row function, and one event is appended. `Changes` is what a
-- call may do; a method may also do nothing, and a claim makes one write for each row it takes.
pub mod Dispatch
pub mod Retry
pub mod Confirm
pub mod Manual
pub mod Results
pub mod Prepare
pub mod Claims
pub mod Lifecycle
use watchkeeper.Prelude.{[], ◌∷◌, ◌++◌, true, String, ℕ, ◌+◌, ◌≡◌, ◌⊎◌, false, none, some}
use watchkeeper.Domain.State.{state_eq, OperationState, prepared, reconciled, retryable, uncertain}
use watchkeeper.Domain.Types.{PrepareRequest, Uuid, Time, ManualResolution}
use watchkeeper.Store.Rows.{Db, OperationRow, Lease}
use watchkeeper.Store.Queries.{stamp, NewEvent}
use watchkeeper.Store.Dispatch.{authorized_row, dispatch_event}
use watchkeeper.Store.Confirm.{confirmed_row, confirm_event}
use watchkeeper.Store.Retry.{retried_row, retry_event, requested_row, request_event}
use watchkeeper.Store.Manual.{manual_row, manual_event}
use watchkeeper.Store.Results.{Verdict, result_row, result_event}
use watchkeeper.Store.Tables.{put, find}
use watchkeeper.Store.Prepare.{intent_event, prepared_row}
use watchkeeper.Store.Claims.{renewed_lease, claimed_row, claim_event}

abbrev pub IsOpen : OperationState → Type 0
IsOpen s = (s ≡ prepared) ⊎ (s ≡ uncertain)

-- The states that a manual resolution can leave.
abbrev pub IsManualTarget : OperationState → Type 0
IsManualTarget s = (s ≡ reconciled) ⊎ (s ≡ retryable) ⊎ (s ≡ uncertain)

-- The states that a result can leave: those, or the state that was.
abbrev pub IsVerdict : OperationState → OperationState → Type 0
IsVerdict from to = (to ≡ from) ⊎ IsManualTarget to

-- `Write time id old new e`: a call at `time` writes the row `new` over `old` and appends `e`.
pub data Write (time : Time) (id : Uuid) (old new : OperationRow) (e : NewEvent) : Type 0 where
  authorizes :
      old.state ≡ prepared
      → old.dispatch_authorized ≡ false
      → old.lease ≡ none
      → new ≡ authorized_row time old
      → e ≡ dispatch_event id old.version
      → Write time id old new e
  confirms :
      (receipt_id : Uuid)
      → old.state ≡ prepared
      → new ≡ confirmed_row time old
      → e ≡ confirm_event id (old.version + 1) receipt_id
      → Write time id old new e
  retries :
      (reason : String)
      → old.state ≡ retryable
      → new ≡ retried_row time (old.version + 1) old
      → e ≡ retry_event id (old.version + 1) reason
      → Write time id old new e
  requests :
      (actor reason : String)
      → IsOpen old.state
      → new ≡ requested_row time (old.version + 1) old
      → e ≡ request_event id old.state (old.version + 1) actor reason
      → Write time id old new e
  claims :
      (worker hash : String) (lease : ℕ) (attempt_id : Uuid) (expires : Time)
      → IsOpen old.state
      → new ≡ claimed_row time worker hash lease old
      → e ≡ claim_event id old.state (old.version + 1) worker attempt_id expires
      → Write time id old new e
  results :
      (v : Verdict) (l : Lease) (attempt_id observation_id : Uuid)
      → old.lease ≡ some l
      → IsVerdict old.state v.to_state
      → new ≡ result_row time v (old.version + 1) old
      → e ≡ result_event id attempt_id observation_id v old.state (old.version + 1)
      → Write time id old new e
  resolves :
      (resolution : ManualResolution) (to : OperationState)
      → old.state ≡ uncertain
      → IsManualTarget to
      → new ≡ manual_row time to (old.version + 1) old
      → e ≡ manual_event id resolution old.state to (old.version + 1)
      → Write time id old new e

-- One step of the tables, as far as `operations` and `operation_events` go.
pub data Change (a b : Db) : Type 0 where
  keeps : b.operations ≡ a.operations → b.events ≡ a.events → Change a b
  creates :
      (time : Time) (id workflow_id : Uuid) (req : PrepareRequest) (n : ℕ)
      → find id a.operations ≡ none
      → b.operations ≡ a.operations ++ prepared_row time id workflow_id req ∷ []
      → b.events ≡ a.events ++ stamp n time (intent_event id) ∷ []
      → Change a b
  writes :
      (time : Time) (id : Uuid) (old new : OperationRow) (e : NewEvent) (n : ℕ)
      → find id a.operations ≡ some old
      → Write time id old new e
      → b.operations ≡ put id new a.operations
      → b.events ≡ a.events ++ stamp n time e ∷ []
      → Change a b
  renews :
      (time expires : Time) (id : Uuid) (old : OperationRow) (l : Lease)
      → find id a.operations ≡ some old
      → old.lease ≡ some l
      → b.operations ≡ put id (renewed_lease expires time old) a.operations
      → b.events ≡ a.events
      → Change a b

pub data Changes (a : Db) : Db → Type 0 where
  done : Changes a a
  more : {b c : Db} → Changes a b → Change b c → Changes a c

pub Changes-append : {a b c : Db} → Changes a b → Changes b c → Changes a c
Changes-append p done = p
Changes-append p (more q s) = more (Changes-append p q) s
