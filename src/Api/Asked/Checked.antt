-- ===== src/Api/Asked/Checked.antt =====
-- What the checks of each handler give of a request: that it asks for the call that follows.
use watchkeeper.Prelude.{
  ◌≡◌, refl, arith, String, false, Option, none, some, below_one, outside, str_eq, ◌||◌, not, ◌&&◌,
}
use watchkeeper.Domain.Types.{Error, new_error, validation}
use watchkeeper.Domain.Fingerprint.{Encoded, fingerprint, encoded, failed}
use watchkeeper.Api.Http.{unless, or_answer, invalid, decode_json, single}
use watchkeeper.Api.Payloads.{
  Request, path_id, RecoveryResultPayload, ManualPayload, PreparePayload, ConfirmPayload,
  validate_prepare,
}
use watchkeeper.Api.Operations.{
  prepare_checks, confirm_checks, dispatch_checks, passes_checks, fingerprinted,
}
use watchkeeper.Api.Recovery.{
  asked_version, claim_checks, renew_checks, result_checks, manual_checks, or_default,
}
use watchkeeper.Api.Server.{Server, Moment}
use watchkeeper.Api.Checks.{
  Establish, Establish-passed, Establish-bind, Establish-unless, Establish-or_answer,
  Establish-decode_json, Establish-error,
}
use watchkeeper.Api.Asked.{
  Names, AsksPrepare, AsksConfirm, AsksResult, AsksResolution, not_empty, version_of,
}

Establish-passes_checks :
    (request_id : String) (o : Option Error) (P : Unit {0} → Type 0)
    → P tt
    → Establish (passes_checks request_id o) P
Establish-passes_checks request_id none P h = Establish-passed tt P h
Establish-passes_checks request_id (some e) P h = Establish-error request_id e P

Establish-fingerprinted :
    (request_id : String) (x : Encoded) (P : String → Type 0)
    → ((text : String) → x ≡ encoded text → P text)
    → Establish (fingerprinted request_id x) P
unfolding invalid
Establish-fingerprinted request_id (encoded text) P h = Establish-passed text P (h text refl)
Establish-fingerprinted request_id (failed message) P h =
    Establish-error request_id (new_error validation "invalid_request" message) P

module _ (s : Server) (m : Moment) (r : Request) where
  pub dispatch_checks-asks : Establish (dispatch_checks s.formats r) λ x.
      Names s m r x.0
      × (s.formats.decode_dispatch r.body ≡ single x.1)
      × (below_one x.1.expected_version ≡ false)
  dispatch_checks-asks = Establish-bind (path_id s.formats r) _ _ (
      Establish-or_answer (s.formats.parse_uuid r.operation_id) _ _ _ _ λ id names.
        Establish-bind (decode_json r.request_id (s.formats.decode_dispatch r.body)) _ _ (
          Establish-decode_json _ (s.formats.decode_dispatch r.body) _ λ p reads.
            Establish-bind (unless (below_one p.expected_version) _) _ _ (
              Establish-unless (below_one p.expected_version) _ _ _ _
                λ good. Establish-passed _ _ (names, reads, good))))

  pub asked_version-asks :
      (code message : String)
      → Establish (asked_version s.formats r code message) λ x.
        Names s m r x.0
        × (s.formats.decode_version_reason r.body ≡ single x.1)
        × ((below_one x.1.expected_version || str_eq x.1.reason "") ≡ false)
  asked_version-asks code message = Establish-bind (path_id s.formats r) _ _ (
      Establish-or_answer (s.formats.parse_uuid r.operation_id) _ _ _ _ λ id names.
        Establish-bind (decode_json r.request_id (s.formats.decode_version_reason r.body)) _ _ (
          Establish-decode_json _ (s.formats.decode_version_reason r.body) _ λ p reads.
            Establish-bind (unless (below_one p.expected_version || str_eq p.reason "") _) _ _ (
              Establish-unless (below_one p.expected_version || str_eq p.reason "") _ _ _ _
                λ good. Establish-passed _ _ (names, reads, good))))

  pub claim_checks-asks : Establish (claim_checks s.formats r) λ p.
      (s.formats.decode_claim r.body ≡ single p)
      × (str_eq p.worker_id "" ≡ false)
      × (outside 1 100 (or_default 20 p.limit) ≡ false)
      × (outside 5000 300000 (or_default 30000 p.lease_duration_ms) ≡ false)
  claim_checks-asks =
      Establish-bind (decode_json r.request_id (s.formats.decode_claim r.body)) _ _ (
        Establish-decode_json _ (s.formats.decode_claim r.body) _ λ p reads.
          Establish-bind (unless (str_eq p.worker_id "") _) _ _ (
            Establish-unless (str_eq p.worker_id "") _ _ _ _ λ a.
              Establish-bind (unless (outside 1 100 (or_default 20 p.limit)) _) _ _ (
                Establish-unless (outside 1 100 (or_default 20 p.limit)) _ _ _ _ λ b.
                  Establish-bind
                    (unless (outside 5000 300000 (or_default 30000 p.lease_duration_ms)) _) _ _
                    (Establish-unless (outside 5000 300000 (or_default 30000 p.lease_duration_ms)) _
                      _ _ _ λ c. Establish-passed _ _ (reads, a, b, c)))))

  pub renew_checks-asks : Establish (renew_checks s.formats r) λ x.
      Names s m r x.0
      × (s.formats.decode_renew r.body ≡ single x.1)
      × (str_eq x.1.claim_token "" ≡ false)
      × (outside 5000 300000 (or_default 30000 x.1.lease_duration_ms) ≡ false)
  renew_checks-asks =
      Establish-bind (decode_json r.request_id (s.formats.decode_renew r.body)) _ _ (
        Establish-decode_json _ (s.formats.decode_renew r.body) _ λ p reads.
          Establish-bind (unless (str_eq p.claim_token "") _) _ _ (
            Establish-unless (str_eq p.claim_token "") _ _ _ _ λ a.
              Establish-bind (unless (outside 5000 300000 (or_default 30000 p.lease_duration_ms)) _)
                _ _
                (Establish-unless (outside 5000 300000 (or_default 30000 p.lease_duration_ms)) _ _ _
                  _
                  λ c. Establish-bind (path_id s.formats r) _ _ (
                    Establish-or_answer (s.formats.parse_uuid r.operation_id) _ _ _ _
                      λ id names. Establish-passed _ _ (names, reads, a, c)))))

  pub result_checks-asks :
      Establish
        (result_checks s.formats r)
        λ x. Names s m r x.0 × ((p : RecoveryResultPayload) × AsksResult s m r p x.1)
  result_checks-asks =
      Establish-bind (decode_json r.request_id (s.formats.decode_recovery_result r.body)) _ _ (
        Establish-decode_json _ (s.formats.decode_recovery_result r.body) _ λ p reads.
          Establish-bind
            (unless
              (str_eq p.claim_token "" || below_one p.expected_version || str_eq p.attempt_id "") _)
            _ _
            (Establish-unless
              (str_eq p.claim_token "" || below_one p.expected_version || str_eq p.attempt_id "") _
              _ _ _
              λ good. Establish-bind (path_id s.formats r) _ _ (
                Establish-or_answer (s.formats.parse_uuid r.operation_id) _ _ _ _ λ id names.
                  Establish-bind (or_answer _ (s.formats.parse_uuid p.attempt_id)) _ _ (
                    Establish-or_answer (s.formats.parse_uuid p.attempt_id) _ _ _ _ λ attempt same.
                      Establish-passed _ _ (
                        names,
                        (
                          p,
                          record {
                            reads = reads;
                            version = version_of p.expected_version (ground (arith, good));
                            claim_token = refl;
                            has_token = not_empty _ (ground (arith, good));
                            attempt_id = same;
                            observation = refl;
                          },
                        ),
                      )))))

  pub manual_checks-asks :
      Establish
        (manual_checks s.formats r)
        λ x. Names s m r x.0 × ((p : ManualPayload) × AsksResolution s m r p x.1)
  manual_checks-asks =
      Establish-bind (decode_json r.request_id (s.formats.decode_manual r.body)) _ _ (
        Establish-decode_json _ (s.formats.decode_manual r.body) _ λ p reads.
          Establish-bind (unless _ _) _ _ (
            Establish-unless
              (below_one p.expected_version
                || str_eq p.actor ""
                || str_eq p.outcome ""
                || str_eq p.reason ""
                || str_eq p.evidence_reference "")
              _ _ _ _
              λ good. Establish-bind (path_id s.formats r) _ _ (
                Establish-or_answer (s.formats.parse_uuid r.operation_id) _ _ _ _ λ id names.
                  Establish-passed _ _ (
                    names,
                    (
                      p,
                      record {
                        reads = reads;
                        version = version_of p.expected_version (ground (arith, good));
                        actor = refl;
                        outcome = refl;
                        reason = refl;
                        evidence_reference = refl;
                        has_actor = not_empty _ (ground (arith, good));
                        has_reason = not_empty _ (ground (arith, good));
                        has_evidence = not_empty _ (ground (arith, good));
                      },
                    ),
                  ))))

  pub confirm_checks-asks :
      Establish
        (confirm_checks s.formats r m.clock)
        λ x. Names s m r x.0 × ((p : ConfirmPayload) × AsksConfirm s m r p x.1)
  confirm_checks-asks = Establish-bind (path_id s.formats r) _ _ (
      Establish-or_answer (s.formats.parse_uuid r.operation_id) _ _ _ _ λ id names.
        Establish-bind (decode_json r.request_id (s.formats.decode_confirm r.body)) _ _ (
          Establish-decode_json _ (s.formats.decode_confirm r.body) _ λ p reads.
            Establish-bind (unless _ _) _ _ (
              Establish-unless
                (below_one p.expected_version
                  || str_eq p.service_receipt_id ""
                  || str_eq p.receipt "")
                _ _ _ _
                λ good. Establish-passed _ _ (
                  names,
                  (
                    p,
                    record {
                      reads = reads;
                      version = version_of p.expected_version (ground (arith, good));
                      service_receipt_id = refl;
                      receipt = refl;
                      has_receipt_id = not_empty _ (ground (arith, good));
                      has_receipt = not_empty _ (ground (arith, good));
                    },
                  ),
                ))))

  pub prepare_checks-asks :
      Establish
        (prepare_checks s.formats r m.world.codec)
        λ req. (p : PreparePayload) × AsksPrepare s m r p req
  prepare_checks-asks =
      Establish-bind (decode_json r.request_id (s.formats.decode_prepare r.body)) _ _ (
        Establish-decode_json _ (s.formats.decode_prepare r.body) _ λ p reads.
          Establish-bind (passes_checks r.request_id (validate_prepare s.formats p)) _ _ (
            Establish-passes_checks _ (validate_prepare s.formats p) _ (
              Establish-bind
                (fingerprinted r.request_id
                  (fingerprint m.world.codec p.target_service p.action p.request))
                _ _
                (Establish-fingerprinted _
                  (fingerprint m.world.codec p.target_service p.action p.request) _
                  λ text same. Establish-bind (unless _ _) _ _ (
                    Establish-unless
                      (not (str_eq p.request_fingerprint "")
                        && not (s.formats.equal_fold p.request_fingerprint text))
                      _ _ _ _
                      λ good. Establish-passed _ _ (
                        p,
                        record {
                          reads = reads;
                          workflow_id = refl;
                          logical_key = refl;
                          target_service = refl;
                          action = refl;
                          expected_effect = refl;
                          capability_profile = refl;
                          request = same;
                        },
                      ))))))
