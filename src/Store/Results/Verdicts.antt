-- ===== src/Store/Results/Verdicts.antt =====
-- What the `switch` of SubmitRecoveryResult can decide (internal/store/recovery.go).
use watchkeeper.Prelude.{
  zero, suc, ℕ, ◌≤◌, ◌<◌, ◌-◌, ◌*◌, ◌^◌, ◌≡◌, ◌≢◌, ap, refl, Bool, true, false, ◌⊎◌, inl, inr,
  arith, ◌&&◌, str_eq, eq_iff,
}
use watchkeeper.Domain.State.{reconciled, retryable}
use watchkeeper.Domain.Types.{
  Operation, Observation, ObservationOutcome, VerificationMechanism, completed, unknown,
  contradictory, transient_error, idempotent_repeat,
}
use watchkeeper.Store.Results.{
  is_completed, is_contradictory, is_transient, is_unknown, is_repeat, backoff, decide_result,
}

completed-is : (o : ObservationOutcome) → is_completed o ≡ true → o ≡ completed
completed-is completed h = refl
completed-is _ h = cc

unknown-is : (o : ObservationOutcome) → is_unknown o ≡ true → o ≡ unknown
unknown-is unknown h = refl
unknown-is _ h = cc

transient-is : (o : ObservationOutcome) → is_transient o ≡ true → o ≡ transient_error
transient-is transient_error h = refl
transient-is _ h = cc

repeat-is : (m : VerificationMechanism) → is_repeat m ≡ true → m ≡ idempotent_repeat
repeat-is idempotent_repeat h = refl
repeat-is _ h = cc

-- The evidence that makes another send safe: none of the present attempt was let out and nothing
-- contradicts that, or the service binds the key.
unfoldable pub SafeToRetry : Operation → Observation → Type 0
SafeToRetry op o =
    ((op.dispatch_authorized ≡ false) × (o.outcome ≢ contradictory))
    ⊎ ((op.capability_profile ≡ "idempotency_only")
        × (o.mechanism ≡ idempotent_repeat)
        × (o.authoritative ≡ true)
        × (o.outcome ≡ unknown))

-- The evidence that the effect is there.
unfoldable pub IsProof : Observation → Type 0
IsProof o = (o.authoritative ≡ true) × (o.outcome ≡ completed)

not_contradictory : (o : ObservationOutcome) → is_contradictory o ≡ false → o ≢ contradictory
not_contradictory o h same = cc (h, ap is_contradictory same)

retry_test :
    (op : Operation) (n : ℕ) (o : Observation)
    → (decide_result op n o).to_state ≡ retryable
    → (op.state ≡ retryable)
      ⊎ ((op.dispatch_authorized ≡ false) × (is_contradictory o.outcome ≡ false))
      ⊎ ((str_eq op.capability_profile "idempotency_only"
            && is_repeat o.mechanism
            && o.authoritative
            && is_unknown o.outcome)
          ≡ true)
unfolding decide_result
retry_test op n o h = ground arith

both : (a b : Bool) → (a && b) ≡ true → (a ≡ true) × (b ≡ true)
both true true h = (refl, refl)
both true false h = cc
both false b h = cc

pub decide_result-retryable :
    (op : Operation) (n : ℕ) (o : Observation)
    → (decide_result op n o).to_state ≡ retryable
    → (op.state ≡ retryable) ⊎ SafeToRetry op o
unfolding SafeToRetry
decide_result-retryable op n o h = elim (retry_test op n o h) [
  | inl same ↦ inl same
  | inr (inl (off, agreed)) ↦ inr (inl (off, not_contradictory o.outcome agreed))
  | inr (inr tests) ↦
      let (abc, d) = both _ _ tests in
      let (ab, c) = both _ _ abc in
      let (a, b) = both _ _ ab in inr (inr ((eq_iff _ _).0 a, repeat-is _ b, c, unknown-is _ d))
]

proof_test :
    (op : Operation) (n : ℕ) (o : Observation)
    → (decide_result op n o).to_state ≡ reconciled
    → (op.state ≡ reconciled) ⊎ ((o.authoritative && is_completed o.outcome) ≡ true)
unfolding decide_result
proof_test op n o h = ground arith

pub decide_result-reconciled :
    (op : Operation) (n : ℕ) (o : Observation)
    → (decide_result op n o).to_state ≡ reconciled
    → (op.state ≡ reconciled) ⊎ IsProof o
unfolding IsProof
decide_result-reconciled op n o h = elim (proof_test op n o h) [
  | inl same ↦ inl same
  | inr tests ↦ let (a, b) = both _ _ tests in inr (a, completed-is _ b)
]

power-bound : (n : ℕ) → n < 5 → 250_000 * 2 ^ (n - 1) ≤ 2_000_000
power-bound zero h = omega arith
power-bound (suc zero) h = omega arith
power-bound (suc (suc zero)) h = omega arith
power-bound (suc (suc (suc zero))) h = omega arith
power-bound (suc (suc (suc (suc zero)))) h = omega arith
power-bound (suc (suc (suc (suc (suc n))))) h = omega arith

-- The delay before the next verification never comes near the ten seconds of `backoff`: past the
-- fourth attempt the operation is given up, so two seconds bound it.
pub decide_result-delay :
    (op : Operation) (n : ℕ) (o : Observation) → (decide_result op n o).delay ≤ 2_000_000
unfolding decide_result backoff
decide_result-delay op n o = ground (arith, power-bound n)
