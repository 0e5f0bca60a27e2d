-- ===== src/Store/Changes/Lifecycle.antt =====
-- The lifecycle of an operation: what a step of the tables does to the state of each row, and when
-- the map `allowedTransitions` of internal/domain/state.go bounds it.
use watchkeeper.Domain.Types.{EventType, manual_resolution}
use watchkeeper.Store.Dispatch.{dispatch_event}
use watchkeeper.Store.Confirm.{confirm_event}
use watchkeeper.Store.Retry.{retry_event, request_event}
use watchkeeper.Store.Claims.{claim_event}
use watchkeeper.Store.Results.{result_event}
use watchkeeper.Store.Manual.{manual_event}
use watchkeeper.Prelude.{true, false, Bool}
use watchkeeper.Store.Confirm.{confirmed_row}
use watchkeeper.Store.Retry.{retried_row, requested_row}
use watchkeeper.Store.Claims.{claimed_row}
use watchkeeper.Store.Results.{result_row}
use watchkeeper.Store.Manual.{manual_row}
use watchkeeper.Store.Dispatch.{authorized_row}
use watchkeeper.Domain.State.{OperationState, can_transition}
use watchkeeper.Store.Rows.{Lease, OperationRow}
use watchkeeper.Store.Changes.{
  authorizes, confirms, retries, requests, claims, results, resolves, Write, NewEvent, Uuid,
  IsVerdict, IsOpen,
}
use watchkeeper.Prelude.{ap, ℕ, sym, ◌∙◌, inl, inr, true, ◌⊎◌, some, ◌≡◌, refl}

-- A row under a lease is one that the coordinator may claim.
unfoldable pub LeasedOpen : OperationRow → Type 0
LeasedOpen r = (l : Lease) → r.lease ≡ some l → IsOpen r.state

-- The row stays in its state or moves as `allowedTransitions` has it.
unfoldable pub Moves : OperationState → OperationState → Type 0
Moves from to = (to ≡ from) ⊎ (can_transition from to ≡ true)

verdict-Moves : (from to : OperationState) → IsOpen from → IsVerdict from to → Moves from to
unfolding Moves can_transition
verdict-Moves from to is_open (inl same) = inl same
verdict-Moves from to (inl p) (inr (inl q)) = inr (rw (p, q) refl)
verdict-Moves from to (inl p) (inr (inr (inl q))) = inr (rw (p, q) refl)
verdict-Moves from to (inl p) (inr (inr (inr q))) = inr (rw (p, q) refl)
verdict-Moves from to (inr p) (inr (inl q)) = inr (rw (p, q) refl)
verdict-Moves from to (inr p) (inr (inr (inl q))) = inr (rw (p, q) refl)
verdict-Moves from to (inr p) (inr (inr (inr q))) = inl (q ∙ sym p)

-- Every write moves the row as the map has it, if the row under it is open when it has a lease.
pub Write-Moves :
    (time : ℕ) (id : Uuid) (old new : OperationRow) (e : NewEvent)
    → LeasedOpen old
    → Write time id old new e
    → Moves old.state new.state
unfolding Moves LeasedOpen can_transition authorized_row confirmed_row retried_row requested_row
    claimed_row result_row manual_row
Write-Moves time id old new e h (authorizes prep off free row ev) = inl (ap (λ r. r.state) row)
Write-Moves time id old new e h (confirms receipt_id prep row ev) = inr (rw (row, prep) refl)
Write-Moves time id old new e h (retries reason was row ev) = inr (rw (row, was) refl)
Write-Moves time id old new e h (requests actor reason is_open row ev) = inl (ap (λ r. r.state) row)
Write-Moves time id old new e h (claims worker hash lease attempt_id expires is_open row ev) =
    inl (ap (λ r. r.state) row)
Write-Moves time id old new e h (results v l attempt_id observation_id leased verdict row ev) =
    rw row (verdict-Moves old.state v.to_state (h l leased) verdict)
Write-Moves time id old new e h (resolves resolution to was target row ev) =
    rw row (verdict-Moves old.state to (inr was) (inr target))

abbrev pub is_manual : EventType → Bool
is_manual manual_resolution = true
is_manual _ = false

-- A write other than a manual resolution leaves a row that is open when it has a lease.
pub Write-LeasedOpen :
    (time : ℕ) (id : Uuid) (old new : OperationRow) (e : NewEvent)
    → is_manual e.event_type ≡ false
    → LeasedOpen old
    → Write time id old new e
    → LeasedOpen new
unfolding LeasedOpen authorized_row confirmed_row retried_row requested_row claimed_row result_row
    manual_event
Write-LeasedOpen time id old new e m h (authorizes prep off free row ev) =
    rw row (λ l leased. cc (leased, free))
Write-LeasedOpen time id old new e m h (confirms receipt_id prep row ev) = rw row (λ l leased. cc)
Write-LeasedOpen time id old new e m h (retries reason was row ev) = rw row (λ l leased. inl refl)
Write-LeasedOpen time id old new e m h (requests actor reason is_open row ev) =
    rw row (λ l leased. is_open)
Write-LeasedOpen time id old new e m h
      (claims worker hash lease attempt_id expires is_open row ev) =
    rw row (λ l leased. is_open)
Write-LeasedOpen time id old new e m h
      (results v l attempt_id observation_id leased verdict row ev) =
    rw row (λ l leased. cc)
Write-LeasedOpen time id old new e m h (resolves resolution to was target row ev) =
    elim (touched (ap (λ x. is_manual x.event_type) ev ∙ refl)) [ ]
  where
    touched : is_manual e.event_type ≡ true → ⊥
    touched k = cc (k, m)

-- The event of a write names the state of the row before and after it.
pub Write-states :
    (time : ℕ) (id : Uuid) (old new : OperationRow) (e : NewEvent)
    → Write time id old new e
    → (e.from_state ≡ some old.state) × (e.to_state ≡ some new.state)
unfolding authorized_row confirmed_row retried_row requested_row claimed_row result_row manual_row
    dispatch_event confirm_event retry_event request_event claim_event result_event manual_event
Write-states time id old new e (authorizes prep off free row ev) =
    rw (row, ev) (ap some (sym prep), ap some (sym prep))
Write-states time id old new e (confirms receipt_id prep row ev) =
    rw (row, ev) (ap some (sym prep), refl)
Write-states time id old new e (retries reason was row ev) = rw (row, ev) (ap some (sym was), refl)
Write-states time id old new e (requests actor reason is_open row ev) = rw (row, ev) (refl, refl)
Write-states time id old new e (claims worker hash lease attempt_id expires is_open row ev) =
    rw (row, ev) (refl, refl)
Write-states time id old new e (results v l attempt_id observation_id leased verdict row ev) =
    rw (row, ev) (refl, refl)
Write-states time id old new e (resolves resolution to was target row ev) =
    rw (row, ev) (refl, refl)
