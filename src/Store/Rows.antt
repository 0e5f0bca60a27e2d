-- ===== src/Store/Rows.antt =====
-- The tables of migrations/watchkeeper that the store reads and writes, a record for a row. The three
-- lease columns are set and cleared together (a CHECK of the schema), so they are one option.
use watchkeeper.Prelude.{ℕ, String, Bool, true, Option, List, ltb, ◌&&◌, is_some}
use watchkeeper.Domain.State.{OperationState, Strategy, confirmed, reconciled}
use watchkeeper.Domain.Types.{
  Uuid, Time, Receipt, Event, Source, ObservationOutcome, VerificationMechanism,
}

pub record Lease : Type 0 where
  pub owner : String
  pub token_hash : String
  pub expires_at : Time

pub record OperationRow : Type 0 where
  pub id : Uuid
  pub workflow_id : Uuid
  pub logical_key : String
  pub target_service : String
  pub action : String
  pub request_fingerprint : String
  pub expected_effect : String
  pub capability_profile : String
  pub state : OperationState
  pub attempt_count : ℕ
  pub version : ℕ
  pub prepared_at : Time
  pub confirmed_at : Option Time
  pub resolved_at : Option Time
  pub next_reconcile_at : Option Time
  pub lease : Option Lease
  pub trace_context : String
  pub created_at : Time
  pub updated_at : Time
  pub dispatch_authorized : Bool

pub record WorkflowRow : Type 0 where
  pub id : Uuid
  pub external_workflow_id : String
  pub strategy : Strategy
  pub experiment_run_id : Option String

pub record ReceiptRow : Type 0 where
  pub operation_id : Uuid
  pub receipt : Receipt

pub record AttemptRow : Type 0 where
  pub id : Uuid
  pub operation_id : Uuid
  pub attempt_number : ℕ
  pub claim_owner : String
  pub finished_at : Option Time
  pub result_class : Option ObservationOutcome

pub record ObservationRow : Type 0 where
  pub id : Uuid
  pub reconciliation_attempt_id : Uuid
  pub mechanism : VerificationMechanism
  pub outcome : ObservationOutcome
  pub authoritative : Bool
  pub external_reference : String
  pub evidence : String

pub data Decision : Type 0 where
  no_decision reconcile retry mark_uncertain compensate_recorded : Decision

-- `evidence_references` holds the identifiers of observations or what an operator wrote.
pub data Reference : Type 0 where
  observation_reference : Uuid → Reference
  written_reference : String → Reference

pub record DecisionRow : Type 0 where
  pub id : Uuid
  pub operation_id : Uuid
  pub reconciliation_attempt_id : Option Uuid
  pub decision : Decision
  pub source : Source
  pub actor : String
  pub reason_code : String
  pub evidence_references : List Reference
  pub from_state : OperationState
  pub to_state : OperationState
  pub operation_version : ℕ

pub record Db : Type 0 where
  pub workflows : List WorkflowRow
  pub operations : List OperationRow
  pub receipts : List ReceiptRow
  pub attempts : List AttemptRow
  pub observations : List ObservationRow
  pub decisions : List DecisionRow
  pub events : List Event
  -- the sequence behind `operation_events.id`
  pub next_event_id : ℕ

abbrev pub empty_db : Db
empty_db = record {
  workflows = List.[];
  operations = List.[];
  receipts = List.[];
  attempts = List.[];
  observations = List.[];
  decisions = List.[];
  events = List.[];
  next_event_id = 1;
}

-- 2^63 and 2^31, past which a `bigint` and an `integer` are out of range.
abbrev pub bigint_limit : ℕ
bigint_limit = 9223372036854775808

abbrev pub integer_limit : ℕ
integer_limit = 2147483648

abbrev times_recorded : OperationState → Option Time → Option Time → Bool
times_recorded confirmed confirmed_at resolved_at = is_some confirmed_at && is_some resolved_at
times_recorded reconciled confirmed_at resolved_at = is_some resolved_at
times_recorded _ confirmed_at resolved_at = true

-- The ranges and the CHECK constraints of `operations` that an UPDATE can violate.
unfoldable pub row_checks : OperationRow → Bool
row_checks r =
    ltb r.version bigint_limit
    && ltb r.attempt_count integer_limit
    && times_recorded r.state r.confirmed_at r.resolved_at
