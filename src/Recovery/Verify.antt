-- ===== src/Recovery/Verify.antt =====
-- `EmailVerifier.Verify` of internal/recovery/coordinator.go. The HTTP exchange and the decoding of
-- JSON are libraries': they are the fields of `Lookup`.
pub mod Evidence
use watchkeeper.Prelude.{
  ℕ, String, Bool, true, false, Option, none, some, ◌==◌, ◌||◌, ◌&&◌, not, ltb, leb, str_eq,
  is_some, if◌then◌else◌,
}
use watchkeeper.Domain.Types.{
  Uuid, Error, library_error, Result, ok, err, Operation, Observation, ObservationOutcome,
  VerificationMechanism, completed, unknown, transient_error, contradictory, status_lookup,
  indirect_lookup, idempotent_repeat,
}

-- The requests of Verify: the capabilities, the status of an operation, the inspection by three
-- fields.
pub data Question : Type 0 where
  capabilities : Question
  status_of : Uuid → Question
  inspection : String → String → String → Question

pub record Capability : Type 0 where
  pub profile : String
  pub guaranteed : Bool

pub record Latest : Type 0 where
  pub receipt_id : String
  pub operation_id : String
  pub recipient : String
  pub template : String
  pub logical_message_key : String

pub record StatusBody : Type 0 where
  pub operation_id : String
  pub committed_count : ℕ
  pub authoritative : Bool
  pub latest : Option Latest

-- The request that cannot be built, no answer to it, or a status code and the body, if it decodes.
pub data Reply {ℓ} (A : Type ℓ) : Type ℓ where
  not_built : Error → Reply A
  not_answered : Reply A
  replied : ℕ → Option A → Reply A

pub record Expected : Type 0 where
  pub recipient : String
  pub template : String
  pub logical_message_key : String

pub record Lookup : Type 0 where
  pub ask_capabilities : Reply Capability
  pub ask_status : Question → Reply StatusBody
  -- `json.Unmarshal` of the expected effect into a map of texts, where a missing key is "", and into
  -- the three fields
  pub effect_map : String → Option (String → String)
  pub effect_fields : String → Option Expected
  pub marshal_status : StatusBody → String
  pub id_text : Uuid → String

unfoldable pub observed :
    VerificationMechanism → ObservationOutcome → Bool → String → String → Observation
observed mechanism outcome authoritative reference evidence = record {
  mechanism = mechanism;
  outcome = outcome;
  authoritative = authoritative;
  external_reference = reference;
  evidence = evidence;
}

unfoldable pub unreached : VerificationMechanism → Observation
unreached mechanism = observed mechanism transient_error false "" "{}"

unfoldable pub read_capability : Reply Capability → Result Observation
read_capability (not_built e) = err e
read_capability not_answered = ok (unreached idempotent_repeat)
read_capability (replied code none) = ok (unreached idempotent_repeat)
read_capability (replied code (some c)) =
    if not (code == 200)
    then ok (unreached idempotent_repeat)
    else ok (
        observed idempotent_repeat unknown (str_eq c.profile "idempotency_only" && c.guaranteed) ""
          "{\"contract\":\"durable_key_payload_binding\"}")

abbrev mechanism_of : Operation → VerificationMechanism
mechanism_of op =
    if str_eq op.capability_profile "indirect_unique" then indirect_lookup else status_lookup

-- `valid`, once the expected effect and the latest effect are there
unfoldable pub fields_match : Lookup → Operation → StatusBody → Expected → Latest → Bool
fields_match v op s e l =
    not (str_eq e.recipient "")
    && not (str_eq e.template "")
    && not (str_eq e.logical_message_key "")
    && not (str_eq l.receipt_id "")
    && str_eq l.recipient e.recipient
    && str_eq l.template e.template
    && str_eq l.logical_message_key e.logical_message_key
    && (str_eq op.capability_profile "indirect_unique"
        || (str_eq s.operation_id (v.id_text op.id) && str_eq l.operation_id (v.id_text op.id)))

abbrev matching : Lookup → Operation → StatusBody → Option Expected → Option Latest → Option Latest
matching v op s none l = none
matching v op s (some e) none = none
matching v op s (some e) (some l) = if fields_match v op s e l then some l else none

abbrev judged : Lookup → Operation → StatusBody → Option Latest → Observation
judged v op s none = observed (mechanism_of op) contradictory false "" (v.marshal_status s)
judged v op s (some l) =
    observed (mechanism_of op) completed s.authoritative l.receipt_id (v.marshal_status s)

unfoldable pub judge_status : Lookup → Operation → StatusBody → Observation
judge_status v op s =
    if ltb 1 s.committed_count
    then observed (mechanism_of op) contradictory false "" (v.marshal_status s)
    else if s.committed_count == 1
    then judged v op s (matching v op s (v.effect_fields op.expected_effect) s.latest)
    else observed (mechanism_of op) unknown false "" (v.marshal_status s)

unfoldable pub read_status : Lookup → Operation → Reply StatusBody → Result Observation
read_status v op (not_built e) = err e
read_status v op not_answered = ok (unreached status_lookup)
read_status v op (replied code body) =
    if leb 500 code
    then ok (unreached status_lookup)
    else if not (code == 200)
    then err (library_error "status lookup returned another status")
    else elim body [
      | none ↦ err (library_error "decode status")
      | some s ↦ ok (judge_status v op s)
    ]

unfoldable pub question : Lookup → Operation → Result Question
question v op =
    if str_eq op.capability_profile "indirect_unique"
    then elim (v.effect_map op.expected_effect) [
      | none ↦ err (library_error "parse expected effect")
      | some f ↦ ok (inspection (f "recipient") (f "template") (f "logical_message_key"))
    ]
    else ok (status_of op.id)

abbrev asked : Lookup → Operation → Result Question → Result Observation
asked v op (err e) = err e
asked v op (ok q) = read_status v op (v.ask_status q)

unfoldable pub verify : Lookup → Operation → Result Observation
verify v op =
    if str_eq op.capability_profile "none"
    then ok (observed VerificationMechanism.none unknown false "" "{}")
    else if str_eq op.capability_profile "idempotency_only"
    then read_capability v.ask_capabilities
    else asked v op (question v op)
