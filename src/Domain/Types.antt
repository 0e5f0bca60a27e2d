-- ===== src/Domain/Types.antt =====
-- internal/domain/types.go and errors.go. An identifier is a UUID, a number of 128 bits. A time is a
-- number of microseconds, PostgreSQL's resolution. JSON that the program carries and does not read
-- is its text.
use watchkeeper.Prelude.{ℕ, String, Bool, Option, List}
use watchkeeper.Domain.State.{OperationState, Strategy}

abbrev pub Uuid : Type 0
Uuid = ℕ

abbrev pub Time : Type 0
Time = ℕ

pub data ErrorKind : Type 0 where
  validation not_found conflict unavailable : ErrorKind

-- The kind, the code, the message, and the operation that `Details` may name.
pub record DomainError : Type 0 where
  pub kind : ErrorKind
  pub code : String
  pub message : String
  pub operation_id : Option Uuid

-- An error that a caller sees: the program's own, or one of a library that is passed on.
pub data Error : Type 0 where
  domain_error : DomainError → Error
  library_error : String → Error

pub data Result {ℓ} (A : Type ℓ) : Type ℓ where
  ok : A → Result A
  err : Error → Result A

abbrev pub new_error : ErrorKind → String → String → Error
new_error kind code message =
    domain_error
      (record { kind = kind; code = code; message = message; operation_id = Option.none })

pub record Receipt : Type 0 where
  pub id : Uuid
  pub service_receipt_id : String
  pub receipt_fingerprint : String
  pub payload : String
  pub received_at : Time

pub record Operation : Type 0 where
  pub dispatch_authorized : Bool
  pub id : Uuid
  pub workflow_id : String
  pub logical_key : String
  pub target_service : String
  pub action : String
  pub request_fingerprint : String
  pub expected_effect : String
  pub capability_profile : String
  pub state : OperationState
  pub attempt_count : ℕ
  pub version : ℕ
  pub prepared_at : Time
  pub confirmed_at : Option Time
  pub resolved_at : Option Time
  pub created_at : Time
  pub updated_at : Time
  pub receipt : Option Receipt

pub data Source : Type 0 where
  api coordinator worker manual : Source

-- The texts that the store writes into `event_type`.
pub data EventType : Type 0 where
  intent_prepared receipt_confirmed dispatch_authorized retry_started : EventType
  reconciliation_requested recovery_claimed recovery_result manual_resolution : EventType

pub data Details : Type 0 where
  no_details : Details
  receipt_details : Uuid → Details
  claim_details : Uuid → Time → Details
  result_details : Uuid → Uuid → Details
  evidence_details : String → Details

pub record Event : Type 0 where
  pub id : ℕ
  pub operation_id : Uuid
  pub event_type : EventType
  pub from_state : Option OperationState
  pub to_state : Option OperationState
  pub operation_version : ℕ
  pub source : Source
  pub actor : String
  pub reason_code : String
  pub details : Details
  pub created_at : Time

pub record PrepareRequest : Type 0 where
  pub workflow_id : String
  pub strategy : Strategy
  pub experiment_run_id : Option String
  pub logical_key : String
  pub target_service : String
  pub action : String
  pub request_fingerprint : String
  pub expected_effect : String
  pub capability_profile : String
  pub trace_context : String

pub record ConfirmRequest : Type 0 where
  pub expected_version : ℕ
  pub service_receipt_id : String
  pub receipt : String
  pub received_at : Time

pub record OperationFilter : Type 0 where
  pub workflow_id : String
  pub state : OperationState
  pub target_service : String
  pub created_after : Option Time
  pub limit : ℕ
  pub cursor : String

pub data ObservationOutcome : Type 0 where
  completed absent unknown transient_error contradictory : ObservationOutcome
  unlisted : String → ObservationOutcome

pub data VerificationMechanism : Type 0 where
  receipt_lookup status_lookup indirect_lookup idempotent_repeat none : VerificationMechanism
  unlisted : String → VerificationMechanism

pub record Observation : Type 0 where
  pub mechanism : VerificationMechanism
  pub outcome : ObservationOutcome
  pub authoritative : Bool
  pub external_reference : String
  pub evidence : String

pub record RecoveryClaim : Type 0 where
  pub operation : Operation
  pub claim_token : String
  pub attempt_id : Uuid
  pub lease_expires_at : Time
  pub version : ℕ

pub record RecoveryResult : Type 0 where
  pub claim_token : String
  pub expected_version : ℕ
  pub attempt_id : Uuid
  pub observation : Observation

pub record ManualResolution : Type 0 where
  pub expected_version : ℕ
  pub actor : String
  pub outcome : String
  pub reason : String
  pub evidence_reference : String

pub record OperationPage : Type 0 where
  pub items : List Operation
  pub next_cursor : String

pub record EventPage : Type 0 where
  pub items : List Event
  pub next_cursor : String
