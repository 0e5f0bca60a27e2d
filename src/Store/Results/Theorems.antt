-- ===== src/Store/Results/Theorems.antt =====
-- SubmitRecoveryResult: what can follow a result, and that a lease is used once.
use watchkeeper.Prelude.{none, some}
use watchkeeper.Store.Results.Verdicts.{
  SafeToRetry, IsProof, decide_result-retryable, decide_result-reconciled, decide_result-delay,
}
use watchkeeper.Store.Queries.{scan_operation}
use watchkeeper.Store.Results.{
  Verdict, Lease, decide_result, retryable, reconciled, submit_recovery_result, Time, OperationRow,
  find, Operation, Db, World, RecoveryResult, next_check, Uuid, result_row,
}
use watchkeeper.Prelude.{
  sym, arith, true, ◌∙◌, false, some-equal, ◌≤◌, ◌+◌, ◌⊎◌, ap, ◌<◌, ◌≢◌, some, ◌≡◌,
}
use watchkeeper.Domain.Types.{contradictory, unknown, idempotent_repeat, completed, ok}
use watchkeeper.Store.Tables.{id-find, find-put_self}
use watchkeeper.Store.Results.Accepted.{Accepted, submit-Accepted}

-- The row that an accepted result leaves.
verdict_row :
    (id : Uuid) (result : RecoveryResult) (w : World) (a b : Db) (h : Accepted id result w a b)
    → find id b.operations
      ≡ some (
          result_row w.now
            (decide_result
              (scan_operation h.old h.workflow)
              h.attempt.attempt_number
              result.observation)
            (h.old.version + 1)
            h.old)
unfolding result_row
verdict_row id result w a b h =
    ap (find id) h.written
    ∙ find-put_self id _ a.operations (id-find id a.operations h.old h.found) h.found

-- The state of a row after an accepted result is the verdict on the row before it.
verdict_state :
    (id : Uuid) (result : RecoveryResult) (w : World) (a b : Db) (new : OperationRow)
    (h : Accepted id result w a b)
    → find id b.operations ≡ some new
    → (decide_result
        (scan_operation h.old h.workflow)
        h.attempt.attempt_number
        result.observation).to_state
      ≡ new.state
unfolding result_row
verdict_state id result w a b new h found =
    ap (λ r. r.state) (some-equal (sym (verdict_row id result w a b h) ∙ found))

-- A result after which the row is `retryable` was given on a row that was `retryable` before; or on one
-- whose present attempt was authorized no dispatch (`dispatch_authorized` is false), with an observation
-- that is not contradictory; or on one whose service binds the key to the payload: its profile is
-- `idempotency_only`, and the observation is an authoritative unknown of an idempotent repeat.
pub submit-safe_retry :
    (id : Uuid) (result : RecoveryResult) (w : World) (db : Db) (op : Operation)
    (new : OperationRow)
    → (submit_recovery_result id result w db).0 ≡ ok op
    → find id (submit_recovery_result id result w db).1.operations ≡ some new
    → new.state ≡ retryable
    → (old : OperationRow) × (find id db.operations ≡ some old)
      × ((old.state ≡ retryable)
          ⊎ ((old.dispatch_authorized ≡ false) × (result.observation.outcome ≢ contradictory))
          ⊎ ((old.capability_profile ≡ "idempotency_only")
              × (result.observation.mechanism ≡ idempotent_repeat)
              × (result.observation.authoritative ≡ true)
              × (result.observation.outcome ≡ unknown)))
unfolding scan_operation SafeToRetry
submit-safe_retry id result w db op new h found is_retryable =
    let acc = submit-Accepted id result w db op h in
    (
      acc.old,
      acc.found,
      decide_result-retryable (scan_operation acc.old acc.workflow) acc.attempt.attempt_number
          result.observation (verdict_state id result w db _ new acc found ∙ is_retryable),
    )

-- A result after which the row is `reconciled` was given on a row that was `reconciled` before, or
-- with an authoritative observation of a completed effect.
pub submit-proof :
    (id : Uuid) (result : RecoveryResult) (w : World) (db : Db) (op : Operation)
    (new : OperationRow)
    → (submit_recovery_result id result w db).0 ≡ ok op
    → find id (submit_recovery_result id result w db).1.operations ≡ some new
    → new.state ≡ reconciled
    → (old : OperationRow) × (find id db.operations ≡ some old)
      × ((old.state ≡ reconciled)
          ⊎ ((result.observation.authoritative ≡ true) × (result.observation.outcome ≡ completed)))
unfolding scan_operation IsProof
submit-proof id result w db op new h found is_reconciled =
    let acc = submit-Accepted id result w db op h in
    (
      acc.old,
      acc.found,
      decide_result-reconciled (scan_operation acc.old acc.workflow) acc.attempt.attempt_number
          result.observation (verdict_state id result w db _ new acc found ∙ is_reconciled),
    )

-- After an accepted result no other is accepted on the tables it left, at any time and with any
-- token, attempt and version: the lease went with it.
pub submit-once :
    (id : Uuid) (first second : RecoveryResult) (w v : World) (db : Db) (op again : Operation)
    → (submit_recovery_result id first w db).0 ≡ ok op
    → (submit_recovery_result id second v (submit_recovery_result id first w db).1).0 ≢ ok again
unfolding result_row
submit-once id first second w v db op again h k =
    let one = submit-Accepted id first w db op h in
    let two = submit-Accepted id second v _ again k in
    let same = some-equal (sym (verdict_row id first w db _ one) ∙ two.found) in
    elim (no_lease (ap (λ r. r.lease) same ∙ two.leased)) [ ]
  where
    no_lease : {l : Lease} → none ≡ some l → ⊥
    no_lease h = cc

-- An accepted result schedules the next verification at most two seconds ahead: the limit of ten
-- seconds is never reached.
pub submit-backoff :
    (id : Uuid) (result : RecoveryResult) (w : World) (db : Db) (op : Operation)
    (new : OperationRow) (t : Time)
    → (submit_recovery_result id result w db).0 ≡ ok op
    → find id (submit_recovery_result id result w db).1.operations ≡ some new
    → new.next_reconcile_at ≡ some t
    → (w.now < t) × (t ≤ w.now + 2_000_000)
unfolding result_row next_check
submit-backoff id result w db op new t h found at =
    let acc = submit-Accepted id result w db op h in
    let v =
      decide_result (scan_operation acc.old acc.workflow) acc.attempt.attempt_number
        result.observation in
    checked v
      (decide_result-delay (scan_operation acc.old acc.workflow) acc.attempt.attempt_number
        result.observation)
      (ap (λ r. r.next_reconcile_at) (some-equal (sym (verdict_row id result w db _ acc) ∙ found))
        ∙ at)
  where
    checked :
        (v : Verdict)
        → v.delay ≤ 2_000_000
        → next_check v.delay w.now ≡ some t
        → (w.now < t) × (t ≤ w.now + 2_000_000)
    checked v small due = ground arith
