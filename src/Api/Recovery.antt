-- ===== src/Api/Recovery.antt =====
-- The handlers of internal/api/server.go that the admin token opens: reconciliation requests, manual
-- resolutions, claims, renewals and results.
use watchkeeper.Prelude.{
  ℕ, zero, ◌*◌, String, ◌||◌, ℤ, pos, below_one, outside, magnitude, str_eq, if◌then◌else◌,
}
use watchkeeper.Domain.Types.{Uuid, RecoveryResult, ManualResolution}
use watchkeeper.Api.Http.{
  Response, Checked, passed, ◌>>=◌, ◌>>◌, unless, or_answer, invalid, decode_json, finished,
  checked, write_json, claims_body, lease_body,
}
use watchkeeper.Store.Rows.{Db}
use watchkeeper.Store.Tx.{World}
use watchkeeper.Api.Payloads.{
  path_id, operation_with, Formats, Request, VersionReasonPayload, ClaimPayload, RenewPayload,
}
use watchkeeper.Store.Retry.{begin_retry, request_reconciliation}
use watchkeeper.Store.Claims.{claim_recovery, renew_claim}
use watchkeeper.Store.Results.{submit_recovery_result}
use watchkeeper.Store.Manual.{manual_resolve}

abbrev pub actor_or_operator : String → String
actor_or_operator actor = if str_eq actor "" then "operator" else actor

-- A zero stands for a default.
abbrev pub or_default : ℕ → ℤ → ℤ
or_default n (pos zero) = pos n
or_default n i = i

abbrev pub lease_micros : ℤ → ℕ
lease_micros ms = magnitude (or_default 30000 ms) * 1000

module _ (f : Formats) (r : Request) where
  abbrev pub asked_version : String → String → Checked (Uuid × VersionReasonPayload)
  asked_version code message = do
    id ← path_id f r
    p ← decode_json r.request_id (f.decode_version_reason r.body)
    unless (below_one p.expected_version || str_eq p.reason "") (invalid r.request_id code message)
    passed (id, p)

  unfoldable pub begin_retry_handler : World → Db → Response × Db
  begin_retry_handler w db =
      checked (asked_version "invalid_retry" "expected_version and reason are required") db λ x.
        finished r.request_id (operation_with 200)
          (begin_retry x.0 (magnitude x.1.expected_version) x.1.reason w db)

  unfoldable pub request_reconciliation_handler : World → Db → Response × Db
  request_reconciliation_handler w db =
      checked
        (asked_version "invalid_reconciliation_request" "expected_version and reason are required")
        db
        λ x. finished r.request_id (operation_with 202) (
          request_reconciliation x.0 (magnitude x.1.expected_version) (actor_or_operator x.1.actor)
            x.1.reason w db)

  abbrev pub claim_checks : Checked ClaimPayload
  claim_checks = do
    p ← decode_json r.request_id (f.decode_claim r.body)
    unless (str_eq p.worker_id "") (invalid r.request_id "invalid_claim" "worker_id is required")
    unless (outside 1 100 (or_default 20 p.limit))
        (invalid r.request_id "invalid_claim" "limit must be between 1 and 100")
    unless (outside 5000 300000 (or_default 30000 p.lease_duration_ms))
        (invalid r.request_id "invalid_claim" "lease_duration_ms must be between 5000 and 300000")
    passed p

  unfoldable pub claim_recovery_handler : ℕ → World → Db → Response × Db
  claim_recovery_handler grace w db = checked claim_checks db λ p.
      finished r.request_id (λ claims. write_json 200 (claims_body claims))
        (claim_recovery p.worker_id (magnitude (or_default 20 p.limit))
          (lease_micros p.lease_duration_ms) grace w db)

  abbrev pub renew_checks : Checked (Uuid × RenewPayload)
  renew_checks = do
    p ← decode_json r.request_id (f.decode_renew r.body)
    unless (str_eq p.claim_token "")
        (invalid r.request_id "invalid_renewal" "claim_token is required")
    unless (outside 5000 300000 (or_default 30000 p.lease_duration_ms))
        (invalid r.request_id "invalid_renewal" "lease_duration_ms must be between 5000 and 300000")
    id ← path_id f r
    passed (id, p)

  unfoldable pub renew_claim_handler : World → Db → Response × Db
  renew_claim_handler w db = checked renew_checks db λ x.
      finished r.request_id (λ expires. write_json 200 (lease_body expires))
        (renew_claim x.0 x.1.claim_token (lease_micros x.1.lease_duration_ms) w db)

  abbrev pub result_checks : Checked (Uuid × RecoveryResult)
  result_checks = do
    p ← decode_json r.request_id (f.decode_recovery_result r.body)
    unless (str_eq p.claim_token "" || below_one p.expected_version || str_eq p.attempt_id "") (
        invalid r.request_id "invalid_recovery_result"
          "claim_token, expected_version, and attempt_id are required")
    id ← path_id f r
    attempt_id ←
        or_answer (invalid r.request_id "invalid_attempt_id" "attempt_id must be a UUID")
          (f.parse_uuid p.attempt_id)
    passed (
      id,
      record {
        claim_token = p.claim_token;
        expected_version = magnitude p.expected_version;
        attempt_id = attempt_id;
        observation = p.observation;
      },
    )

  unfoldable pub recovery_result_handler : World → Db → Response × Db
  recovery_result_handler w db =
      checked result_checks db
        λ x. finished r.request_id (operation_with 200) (submit_recovery_result x.0 x.1 w db)

  abbrev pub manual_checks : Checked (Uuid × ManualResolution)
  manual_checks = do
    p ← decode_json r.request_id (f.decode_manual r.body)
    unless
        (below_one p.expected_version
          || str_eq p.actor ""
          || str_eq p.outcome ""
          || str_eq p.reason ""
          || str_eq p.evidence_reference "")
        (invalid r.request_id "invalid_manual_resolution"
          "all manual resolution fields are required")
    id ← path_id f r
    passed (
      id,
      record {
        expected_version = magnitude p.expected_version;
        actor = p.actor;
        outcome = p.outcome;
        reason = p.reason;
        evidence_reference = p.evidence_reference;
      },
    )

  unfoldable pub manual_resolution_handler : World → Db → Response × Db
  manual_resolution_handler w db =
      checked manual_checks db
        λ x. finished r.request_id (operation_with 200) (manual_resolve x.0 x.1 w db)
