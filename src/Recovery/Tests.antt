-- ===== src/Recovery/Tests.antt =====
-- Runs of the verifier and of the coordinator, and their theorems at those.
use watchkeeper.Prelude.{◌≢◌, ◌⊎◌, ℕ, suc, ◌+◌, ◌≡◌, refl, true, none, some, [], ◌∷◌, sym, ap}
use watchkeeper.Domain.Types.{completed, status_lookup, Operation, Observation, RecoveryClaim, ok}
use watchkeeper.Recovery.Coordinator.{process, Around, run_once}
use watchkeeper.Recovery.Verify.Evidence.{verify-completed, Evidence}
use watchkeeper.Domain.State.{prepared}
use watchkeeper.Recovery.Coordinator.Counts.{Counted, run_once-count}
use watchkeeper.Recovery.Verify.{
  observed, fields_match, replied, judge_status, not_answered, read_status, Lookup, question,
  StatusBody, verify,
}

abbrev sent_operation : Operation
sent_operation = record {
  dispatch_authorized = true;
  id = 5;
  workflow_id = "wf";
  logical_key = "k";
  target_service = "email";
  action = "send";
  request_fingerprint = "f";
  expected_effect = "{}";
  capability_profile = "receipt_status";
  state = prepared;
  attempt_count = 1;
  version = 3;
  prepared_at = 0;
  confirmed_at = none;
  resolved_at = none;
  created_at = 0;
  updated_at = 0;
  receipt = none;
}

abbrev one_effect : StatusBody
one_effect = record {
  operation_id = "id";
  committed_count = 1;
  authoritative = true;
  latest = some (record {
    receipt_id = "r";
    operation_id = "id";
    recipient = "a";
    template = "t";
    logical_message_key = "m";
  });
}

abbrev toy_lookup : Lookup
toy_lookup = record {
  ask_capabilities = not_answered;
  ask_status = λ q. replied 200 (some one_effect);
  effect_map = λ s. none;
  effect_fields = λ s. some (record { recipient = "a"; template = "t"; logical_message_key = "m" });
  marshal_status = λ s. "{}";
  id_text = λ id. "id";
}

abbrev proof_found : Observation
proof_found = record {
  mechanism = status_lookup;
  outcome = completed;
  authoritative = true;
  external_reference = "r";
  evidence = "{}";
}

verify_ok : verify toy_lookup sent_operation ≡ ok proof_found
unfolding verify question read_status judge_status fields_match observed
verify_ok = refl

verify-completed_example : Evidence toy_lookup sent_operation proof_found
verify-completed_example = verify-completed toy_lookup sent_operation proof_found verify_ok refl

abbrev toy_claim : RecoveryClaim
toy_claim = record {
  operation = sent_operation;
  claim_token = "token";
  attempt_id = 8;
  lease_expires_at = 100;
  version = 3;
}

-- The state counts the submissions.
abbrev toy_around : Around ℕ
toy_around = record {
  claim_recovery = λ s. (ok (toy_claim ∷ toy_claim ∷ []), s);
  verify = λ op s. (verify toy_lookup op, s);
  submit = λ id r s. (ok sent_operation, suc s);
  hook = λ name op s. (none, s);
}

toy_run : run_once toy_around 4 ≡ (record { count = 2; error = none }, 6)
unfolding run_once process
toy_run = refl

toy_around-Counted : Counted toy_around (λ s. s)
toy_around-Counted = record {
  claim = λ s. refl;
  verify = λ op s. refl;
  hook = λ name op s. refl;
  accepted = λ id r s t op eq. sym (ap (λ x. x.1) eq);
  refused = λ id r s t e eq. cc;
}

run_once-count_example :
    ((run_once toy_around 4).0.count + 4 ≡ (run_once toy_around 4).1)
    ⊎ ((suc ((run_once toy_around 4).0.count + 4) ≡ (run_once toy_around 4).1)
        × ((run_once toy_around 4).0.error ≢ none))
run_once-count_example = run_once-count toy_around (λ s. s) toy_around-Counted 4
