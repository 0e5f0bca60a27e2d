-- ===== src/Api/Asked.antt =====
-- What a request asks of the store, endpoint by endpoint, apart from the code of the handlers.
pub mod Checked
use watchkeeper.Prelude.{
  ℕ, zero, suc, ◌*◌, ◌≤◌, ◌≡◌, ◌≢◌, ◌⊎◌, inl, inr, refl, arith, String, Bool, true, false, Option,
  none, some, ℤ, pos, negsuc, below_one, outside, magnitude, trim_prefix, str_eq, eq_iff,
  Bool-cases, ◌||◌, not, ◌&&◌,
}
use watchkeeper.Domain.Types.{
  Uuid, PrepareRequest, ConfirmRequest, RecoveryResult, ManualResolution,
}
use watchkeeper.Domain.Fingerprint.{fingerprint, encoded}
use watchkeeper.Api.Http.{single}
use watchkeeper.Api.Payloads.{
  Request, VersionReasonPayload, ClaimPayload, RenewPayload, RecoveryResultPayload, ManualPayload,
  PreparePayload, ConfirmPayload, DispatchPayload,
}
use watchkeeper.Api.Recovery.{or_default}
use watchkeeper.Api.Server.{
  Server, Moment, Endpoint, post_operations, post_confirmations, post_dispatches, post_attempts,
  post_reconciliation_requests, post_manual_resolutions, post_claims, post_renew, post_results,
}
use watchkeeper.Store.Calls.{
  Call, prepares, authorizes, confirms, retries, requests, claims, renews, submits, resolves,
}

-- The bearer token of a request.
abbrev pub Bears : String → Request → Type 0
Bears token r = (trim_prefix r.authorization "Bearer " ≡ token) × (token ≢ "")

-- A version that is from 1 on.
abbrev pub IsVersion : ℤ → ℕ → Type 0
IsVersion z n = (z ≡ pos n) × (1 ≤ n)

-- A number of a payload within bounds, where zero stands for a default.
abbrev pub Within : ℕ → ℕ → ℕ → ℤ → ℕ → Type 0
Within default low high z n = ((z ≡ pos n) ⊎ ((z ≡ pos 0) × (n ≡ default))) × (low ≤ n) × (n ≤ high)

abbrev pub ActorOf : String → String → Type 0
ActorOf given actor = ((given ≢ "") × (actor ≡ given)) ⊎ ((given ≡ "") × (actor ≡ "operator"))

module _ (s : Server) (m : Moment) (r : Request) where
  abbrev pub Names : Uuid → Type 0
  Names id = s.formats.parse_uuid r.operation_id ≡ some id

  pub record AsksPrepare (p : PreparePayload) (req : PrepareRequest) : Type 0 where
    pub reads : s.formats.decode_prepare r.body ≡ single p
    pub workflow_id : req.workflow_id ≡ p.workflow_id
    pub logical_key : req.logical_key ≡ p.logical_key
    pub target_service : req.target_service ≡ p.target_service
    pub action : req.action ≡ p.action
    pub expected_effect : req.expected_effect ≡ p.expected_effect
    pub capability_profile : req.capability_profile ≡ p.capability_profile
    pub request :
        fingerprint m.world.codec p.target_service p.action p.request
        ≡ encoded req.request_fingerprint

  pub record AsksConfirm (p : ConfirmPayload) (req : ConfirmRequest) : Type 0 where
    pub reads : s.formats.decode_confirm r.body ≡ single p
    pub version : IsVersion p.expected_version req.expected_version
    pub service_receipt_id : req.service_receipt_id ≡ p.service_receipt_id
    pub receipt : req.receipt ≡ p.receipt
    pub has_receipt_id : p.service_receipt_id ≢ ""
    pub has_receipt : p.receipt ≢ ""

  pub record AsksResult (p : RecoveryResultPayload) (result : RecoveryResult) : Type 0 where
    pub reads : s.formats.decode_recovery_result r.body ≡ single p
    pub version : IsVersion p.expected_version result.expected_version
    pub claim_token : result.claim_token ≡ p.claim_token
    pub has_token : p.claim_token ≢ ""
    pub attempt_id : s.formats.parse_uuid p.attempt_id ≡ some result.attempt_id
    pub observation : result.observation ≡ p.observation

  pub record AsksResolution (p : ManualPayload) (x : ManualResolution) : Type 0 where
    pub reads : s.formats.decode_manual r.body ≡ single p
    pub version : IsVersion p.expected_version x.expected_version
    pub actor : x.actor ≡ p.actor
    pub outcome : x.outcome ≡ p.outcome
    pub reason : x.reason ≡ p.reason
    pub evidence_reference : x.evidence_reference ≡ p.evidence_reference
    pub has_actor : p.actor ≢ ""
    pub has_reason : p.reason ≢ ""
    pub has_evidence : p.evidence_reference ≢ ""

  -- The call that a request to an endpoint asks for, and the token that it has to bear.
  pub data Asked : Endpoint → Call → Type 0 where
    asks_prepare :
        {p : PreparePayload} {req : PrepareRequest}
        → Bears s.auth_token r
        → AsksPrepare p req
        → Asked post_operations (prepares req)
    asks_confirm :
        {id : Uuid} {p : ConfirmPayload} {req : ConfirmRequest}
        → Bears s.auth_token r
        → Names id
        → AsksConfirm p req
        → Asked post_confirmations (confirms id req)
    asks_dispatch :
        {id : Uuid} {n : ℕ} {p : DispatchPayload}
        → Bears s.auth_token r
        → Names id
        → s.formats.decode_dispatch r.body ≡ single p
        → IsVersion p.expected_version n
        → Asked post_dispatches (authorizes id n)
    asks_retry :
        {id : Uuid} {n : ℕ} {p : VersionReasonPayload}
        → Bears s.auth_token r
        → Names id
        → s.formats.decode_version_reason r.body ≡ single p
        → IsVersion p.expected_version n
        → p.reason ≢ ""
        → Asked post_attempts (retries id n p.reason)
    asks_reconciliation :
        {id : Uuid} {n : ℕ} {actor : String} {p : VersionReasonPayload}
        → Bears s.admin_token r
        → Names id
        → s.formats.decode_version_reason r.body ≡ single p
        → IsVersion p.expected_version n
        → p.reason ≢ ""
        → ActorOf p.actor actor
        → Asked post_reconciliation_requests (requests id n actor p.reason)
    asks_claims :
        {limit ms : ℕ} {p : ClaimPayload}
        → Bears s.admin_token r
        → s.formats.decode_claim r.body ≡ single p
        → p.worker_id ≢ ""
        → Within 20 1 100 p.limit limit
        → Within 30000 5000 300000 p.lease_duration_ms ms
        → Asked post_claims (claims p.worker_id limit (ms * 1000) s.prepared_grace "")
    asks_renewal :
        {id : Uuid} {ms : ℕ} {p : RenewPayload}
        → Bears s.admin_token r
        → Names id
        → s.formats.decode_renew r.body ≡ single p
        → p.claim_token ≢ ""
        → Within 30000 5000 300000 p.lease_duration_ms ms
        → Asked post_renew (renews id p.claim_token (ms * 1000))
    asks_result :
        {id : Uuid} {p : RecoveryResultPayload} {result : RecoveryResult}
        → Bears s.admin_token r
        → Names id
        → AsksResult p result
        → Asked post_results (submits id result)
    asks_resolution :
        {id : Uuid} {p : ManualPayload} {x : ManualResolution}
        → Bears s.admin_token r
        → Names id
        → AsksResolution p x
        → Asked post_manual_resolutions (resolves id x)

-- The checks of the handlers give these properties.
pub not_empty : (t : String) → str_eq t "" ≡ false → t ≢ ""
not_empty t h same = cc (h, (eq_iff t "").1 same)

pub version_of : (z : ℤ) → below_one z ≡ false → IsVersion z (magnitude z)
version_of (pos n) h = (refl, ground (arith, h))
version_of (negsuc n) h = cc

pub Within-or_default :
    (default low high : ℕ) (z : ℤ)
    → outside low high (or_default default z) ≡ false
    → Within default low high z (magnitude (or_default default z))
Within-or_default default low high (pos zero) h =
    (inr (refl, refl), ground (arith, h), ground (arith, h))
Within-or_default default low high (pos (suc n)) h =
    (inl refl, ground (arith, h), ground (arith, h))
Within-or_default default low high (negsuc n) h = cc
