-- ===== src/Domain/State.antt =====
-- internal/domain/state.go, with the text types of types.go and errors.go that it tests. A Go text
-- type with a list of constants is a data type with one constructor for each constant and one,
-- `unlisted`, for any other text; `parse_state` and `state_text` go between it and the text.
use watchkeeper.Prelude.{
  ap, String, Bool, true, false, ◌≡◌, refl, Option, none, some, str_eq, eq_iff, if◌then◌else◌, ◌||◌,
  not,
}

pub data OperationState : Type 0 where
  prepared confirmed reconciled retryable uncertain : OperationState
  unlisted : String → OperationState

pub data Strategy : Type 0 where
  blind_retry idempotency_key checkpoint watchkeeper_strategy : Strategy
  unlisted : String → Strategy

unfoldable pub state_text : OperationState → String
state_text prepared = "prepared"
state_text confirmed = "confirmed"
state_text reconciled = "reconciled"
state_text retryable = "retryable"
state_text uncertain = "uncertain"
state_text (OperationState.unlisted s) = s

unfoldable pub parse_state : String → OperationState
parse_state s =
    if str_eq s "prepared"
    then prepared
    else if str_eq s "confirmed"
    then confirmed
    else if str_eq s "reconciled"
    then reconciled
    else if str_eq s "retryable"
    then retryable
    else if str_eq s "uncertain"
    then uncertain
    else OperationState.unlisted s

-- `allowedTransitions`: a missing key of the map reads as false.
unfoldable pub can_transition : OperationState → OperationState → Bool
can_transition prepared confirmed = true
can_transition prepared reconciled = true
can_transition prepared retryable = true
can_transition prepared uncertain = true
can_transition retryable prepared = true
can_transition uncertain reconciled = true
can_transition uncertain retryable = true
can_transition _ _ = false

unfoldable pub valid_state : OperationState → Bool
valid_state (OperationState.unlisted s) = false
valid_state _ = true

pub data TransitionError : Type 0 where
  unknown_transition not_allowed : OperationState → OperationState → TransitionError

-- `none` is Go's nil error.
unfoldable pub validate_transition : OperationState → OperationState → Option TransitionError
unfolding can_transition valid_state
validate_transition from to =
    if not (valid_state from) || not (valid_state to)
    then some (unknown_transition from to)
    else if not (can_transition from to)
    then some (not_allowed from to)
    else none

unfoldable pub valid_strategy : Strategy → Bool
valid_strategy (Strategy.unlisted s) = false
valid_strategy _ = true

-- Equality of states, as Go's `==` on the texts.
unfoldable pub state_eq : OperationState → OperationState → Bool
state_eq prepared prepared = true
state_eq confirmed confirmed = true
state_eq reconciled reconciled = true
state_eq retryable retryable = true
state_eq uncertain uncertain = true
state_eq (OperationState.unlisted s) (OperationState.unlisted t) = str_eq s t
state_eq _ _ = false

pub state_eq_refl : (s : OperationState) → state_eq s s ≡ true
unfolding state_eq
state_eq_refl (OperationState.unlisted s) = (eq_iff s s).1 refl
state_eq_refl _ = refl

pub state_eq→eq : (s t : OperationState) → state_eq s t ≡ true → s ≡ t
unfolding state_eq
state_eq→eq prepared prepared h = refl
state_eq→eq confirmed confirmed h = refl
state_eq→eq reconciled reconciled h = refl
state_eq→eq retryable retryable h = refl
state_eq→eq uncertain uncertain h = refl
state_eq→eq (OperationState.unlisted s) (OperationState.unlisted t) h =
    ap OperationState.unlisted ((eq_iff s t).0 h)
state_eq→eq _ _ h = cc
