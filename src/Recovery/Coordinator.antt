-- ===== src/Recovery/Coordinator.antt =====
-- `RunOnce` of internal/recovery/coordinator.go. The client, the verifier and the hook are the fields
-- of `Around`, over a state `S` of everything outside of the coordinator.
pub mod Counts
use watchkeeper.Prelude.{ℕ, zero, suc, String, Option, none, some, List, [], ◌∷◌}
use watchkeeper.Domain.Types.{
  Uuid, Error, Result, ok, err, Operation, Observation, RecoveryClaim, RecoveryResult,
  status_lookup,
}
use watchkeeper.Recovery.Verify.{unreached}

pub record Around (S : Type 0) : Type 0 where
  pub claim_recovery : S → Result (List RecoveryClaim) × S
  pub verify : Operation → S → Result Observation × S
  pub submit : Uuid → RecoveryResult → S → Result Operation × S
  -- `none` is Go's nil error, also for a nil hook
  pub hook : String → Operation → S → Option Error × S

-- How many results were taken, and the error that ended the run early.
pub record Processed : Type 0 where
  pub count : ℕ
  pub error : Option Error

abbrev stopped : ℕ → Error → Processed
stopped n e = record { count = n; error = some e }

-- What the coordinator makes of a claim and an observation; a verifier's error is a transient one.
unfoldable pub result_of : RecoveryClaim → Observation → RecoveryResult
result_of c o = record {
  claim_token = c.claim_token;
  expected_version = c.version;
  attempt_id = c.attempt_id;
  observation = o;
}

unfoldable pub seen : Result Observation → Observation
seen (ok o) = o
seen (err e) = unreached status_lookup

module _ {S : Type 0} (v : Around S) where
  abbrev after_result : ℕ → (ℕ → S → Processed × S) → Option Error × S → Processed × S
  after_result n next (some e, s) = (stopped n e, s)
  after_result n next (none, s) = next (suc n) s

  abbrev submitted : ℕ → (ℕ → S → Processed × S) → Result Operation × S → Processed × S
  submitted n next (err e, s) = next n s
  submitted n next (ok op, s) = after_result n next (v.hook "coordinator_after_result" op s)

  abbrev before_result :
      ℕ → (ℕ → S → Processed × S) → RecoveryClaim → Observation → Option Error × S → Processed × S
  before_result n next c o (some e, s) = (stopped n e, s)
  before_result n next c o (none, s) = submitted n next (v.submit c.operation.id (result_of c o) s)

  abbrev verified :
      ℕ → (ℕ → S → Processed × S) → RecoveryClaim → Result Observation × S → Processed × S
  verified n next c (r, s) =
      before_result n next c (seen r) (v.hook "coordinator_before_result" c.operation s)

  abbrev reported : ℕ → (ℕ → S → Processed × S) → RecoveryClaim → Option Error × S → Processed × S
  reported n next c (some e, s) = (stopped n e, s)
  reported n next c (none, s) = verified n next c (v.verify c.operation s)

  -- The loop over the claims; each step takes the rest of the loop as `next`.
  unfoldable pub process : List RecoveryClaim → ℕ → S → Processed × S
  process [] n s = (record { count = n; error = none }, s)
  process (c ∷ claims) n s =
      reported n (λ m t. process claims m t) c (v.hook "recovery_claimed" c.operation s)

  abbrev run_claims : Result (List RecoveryClaim) × S → Processed × S
  run_claims (err e, s) = (stopped 0 e, s)
  run_claims (ok claims, s) = process claims 0 s

  unfoldable pub run_once : S → Processed × S
  unfolding process
  run_once s = run_claims (v.claim_recovery s)
