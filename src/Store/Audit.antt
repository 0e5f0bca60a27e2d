-- ===== src/Store/Audit.antt =====
-- What `operation_events` promises: an auditor who reads the events of one operation in order, and
-- nothing else, follows its version, its state, its attempts and its permission to send.
pub mod Steps
pub mod Invariant
pub mod Replay
pub mod Attempts
pub mod Grown
pub mod Theorems
pub mod Lifecycle
use watchkeeper.Prelude.{
  ℕ, suc, Bool, true, false, Option, none, some, List, [], ◌∷◌, ◌==◌, ◌&&◌, ◌||◌, not, select,
  if◌then◌else◌,
}
use watchkeeper.Domain.State.{
  OperationState, prepared, confirmed, reconciled, retryable, uncertain, state_eq,
}
use watchkeeper.Domain.Types.{
  Uuid, Event, EventType, intent_prepared, receipt_confirmed, dispatch_authorized, retry_started,
  reconciliation_requested, recovery_claimed, recovery_result, manual_resolution,
}
use watchkeeper.Store.Rows.{OperationRow, Db}

pub record Progress : Type 0 where
  pub version : ℕ
  pub state : OperationState
  pub attempts : ℕ
  pub may_have_sent : Bool

pub data Trail : Type 0 where
  unopened : Trail
  follows : Progress → Trail
  broken : Trail

abbrev is_state : Option OperationState → OperationState → Bool
is_state none s = false
is_state (some t) s = state_eq t s

abbrev unless : Bool → Progress → Trail
unless true p = follows p
unless false p = broken

-- What an event says of the operation that it follows. A grant wants a prepared operation for which
-- none is out; a retry wants a retryable one, and takes the grant back.
unfoldable pub advance : EventType → Option OperationState → Progress → Trail
advance intent_prepared to p = broken
advance dispatch_authorized to p =
    unless (state_eq p.state prepared && is_state to prepared && not p.may_have_sent)
      (record p { version = suc p.version; may_have_sent = true })
advance retry_started to p = unless (state_eq p.state retryable && is_state to prepared) (record {
  version = suc p.version;
  state = prepared;
  attempts = suc p.attempts;
  may_have_sent = false;
})
advance receipt_confirmed to p =
    unless (state_eq p.state prepared && is_state to confirmed)
      (record p { version = suc p.version; state = confirmed })
advance reconciliation_requested to p =
    unless ((state_eq p.state prepared || state_eq p.state uncertain) && is_state to p.state)
      (record p { version = suc p.version })
advance recovery_claimed to p =
    unless ((state_eq p.state prepared || state_eq p.state uncertain) && is_state to p.state)
      (record p { version = suc p.version })
advance recovery_result none p = broken
advance recovery_result (some to) p =
    unless
      (state_eq to p.state
        || state_eq to reconciled
        || state_eq to retryable
        || state_eq to uncertain)
      (record p { version = suc p.version; state = to })
advance manual_resolution none p = broken
advance manual_resolution (some to) p =
    unless
      (state_eq p.state uncertain
        && (state_eq to reconciled || state_eq to retryable || state_eq to uncertain))
      (record p { version = suc p.version; state = to })

abbrev opens : Event → Bool
opens e = elim e.event_type [
  | intent_prepared ↦ e.operation_version == 1 && is_state e.to_state prepared
  | _ ↦ false
]

-- Each event carries the version after the last and starts in the state where that one ended.
unfoldable pub observe : Trail → Event → Trail
observe unopened e =
    unless (opens e) (record { version = 1; state = prepared; attempts = 1; may_have_sent = false })
observe (follows p) e =
    if e.operation_version == suc p.version && is_state e.from_state p.state
    then advance e.event_type e.to_state p
    else broken
observe broken e = broken

unfoldable pub replay : Trail → List Event → Trail
replay t [] = t
replay t (e ∷ events) = replay (observe t e) events

unfoldable pub about : Uuid → Event → Bool
about id e = e.operation_id == id

-- The events of one operation, in order.
unfoldable pub history : Uuid → Db → List Event
history id db = select (about id) db.events

unfoldable pub progress : OperationRow → Progress
progress r = record {
  version = r.version;
  state = r.state;
  attempts = r.attempt_count;
  may_have_sent = r.dispatch_authorized;
}

unfoldable pub trail : Option OperationRow → Trail
trail none = unopened
trail (some r) = follows (progress r)

unfoldable pub is_grant : Event → Bool
is_grant e = elim e.event_type [ dispatch_authorized ↦ true | _ ↦ false ]

unfoldable pub grants : List Event → ℕ
grants [] = 0
grants (e ∷ events) = let rest = grants events in if is_grant e then suc rest else rest
