-- ===== src/Store/Results/Accepted.antt =====
-- What a SubmitRecoveryResult that answers without an error has checked and done.
use watchkeeper.Prelude.{
  if◌then◌else◌, Bool, eq_iff, ◌<◌, ◌==◌, String, is_some, ℕ, ◌+◌, ◌≡◌, refl, true, false, Option,
  none, some, not, arith,
}
use watchkeeper.Store.Rows.{no_decision, OperationRow, WorkflowRow, AttemptRow, Lease, Db}
use watchkeeper.Store.Manual.{insert_decision}
use watchkeeper.Store.Results.{
  valid_observation, finish_attempt, decide_result, result_row, find_attempt, live_lease,
  OperationState, World, find, Verdict, DecisionRow, insert_observation, Decision, submit_body,
  holds_lease, record_decision, apply_verdict, submit_recovery_result,
}
use watchkeeper.Store.Queries.{with_event, scan_operation}
use watchkeeper.Domain.Types.{Result, Error, ok, Operation, Observation, RecoveryResult, Uuid}
use watchkeeper.Store.Tx.{Session}
use watchkeeper.Store.Ensures.{
  run-ok, Ensures-mono, Ensures-required, Ensures-get_operation_tx, Ensures-reject_if,
  Ensures-append_event, Ensures-exec, Ensures-query, Ensures-ask, Ensures-update_operation,
  Ensures-statement, Ensures-now, Ensures-get_operation_for_update, Ensures-new_id, Ensures-bind,
  Ensures-pure, Ensures,
}
use watchkeeper.Store.Tables.{put}

-- A row under a live lease of the token's hash, an unfinished attempt of the operation, the expected
-- version, and the verdict's row in its place.
pub record Accepted (id : Uuid) (result : RecoveryResult) (w : World) (a b : Db) : Type 0 where
  pub old : OperationRow
  pub workflow : WorkflowRow
  pub lease : Lease
  pub attempt : AttemptRow
  pub found : find id a.operations ≡ some old
  pub leased : old.lease ≡ some lease
  pub token : lease.token_hash ≡ w.codec.sha256_hex result.claim_token
  pub live : w.now < lease.expires_at
  pub version : old.version ≡ result.expected_version
  pub attempt_found : find_attempt result.attempt_id id a.attempts ≡ some attempt
  pub unfinished : attempt.finished_at ≡ none
  pub written :
      b.operations
      ≡ put id
          (result_row w.now
            (decide_result (scan_operation old workflow) attempt.attempt_number result.observation)
            (old.version + 1)
            old)
          a.operations
  pub finished :
      b.attempts ≡ finish_attempt result.attempt_id w.now result.observation.outcome a.attempts

holds_lease-live :
    (id : Uuid) (hash : String) (time : ℕ) (db : Db) (r : OperationRow)
    → find id db.operations ≡ some r
    → not (holds_lease id hash time db) ≡ false
    → (l : Lease) × (r.lease ≡ some l) × (l.token_hash ≡ hash) × (time < l.expires_at)
unfolding holds_lease
holds_lease-live id hash time db r found h = by_row r.lease refl (ground arith)
  where
    by_row :
        (o : Option Lease)
        → r.lease ≡ o
        → live_lease hash time o ≡ true
        → (l : Lease) × (r.lease ≡ some l) × (l.token_hash ≡ hash) × (time < l.expires_at)
    by_row none e k = cc
    by_row (some l) e k = (l, e, (eq_iff l.token_hash hash).0 (ground arith), ground arith)

insert_decision-attempts :
    (d : DecisionRow) (db new : Db) {u : Unit {0}}
    → insert_decision d db ≡ some (u, new)
    → (new.operations ≡ db.operations) × (new.attempts ≡ db.attempts)
unfolding insert_decision
insert_decision-attempts d db new h = ground arith

record_decision-attempts :
    (d : Decision) (id attempt_id observation_id : Uuid) (v : Verdict) (from : OperationState)
    (version : ℕ) (w : World) (s : Session) (Q : Unit {0} → Session → Type 0)
    → ((t : Session) → t.db.operations ≡ s.db.operations → t.db.attempts ≡ s.db.attempts → Q tt t)
    → Ensures (record_decision d id attempt_id observation_id v from version) w s Q
unfolding record_decision
record_decision-attempts no_decision id attempt_id observation_id v from version w s Q q =
    Ensures-pure tt (q s refl refl)
record_decision-attempts _ id attempt_id observation_id v from version w s Q q = Ensures-bind _ _ (
    Ensures-new_id λ decision_id.
      Ensures-statement _ _
        λ _ db inserted. let kept = insert_decision-attempts _ _ db inserted in q _ kept.0 kept.1)

apply_verdict-written :
    (id attempt_id observation_id : Uuid) (o : Observation) (r : OperationRow) (x : WorkflowRow)
    (v : Verdict) (w : World) (s : Session)
    → find id s.db.operations ≡ some r
    → Ensures (apply_verdict id attempt_id observation_id o (scan_operation r x) v) w s (λ op t.
      (t.db.operations ≡ put id (result_row w.now v (r.version + 1) r) s.db.operations)
      × (t.db.attempts ≡ finish_attempt attempt_id w.now o.outcome s.db.attempts))
unfolding apply_verdict with_event scan_operation
apply_verdict-written id attempt_id observation_id o r x v w s found = Ensures-bind _ _ (
    Ensures-now (
      Ensures-bind _ _ (
        Ensures-update_operation _ id _ found λ _. Ensures-bind _ _ (
          Ensures-exec _ _ (
            Ensures-bind _ _ (
              record_decision-attempts v.decision id attempt_id observation_id v _ _ w _ _
                λ t same_operations same_attempts. Ensures-bind _ _ (
                  Ensures-append_event _ _
                    (Ensures-get_operation_tx id λ _ _ _ _. (same_operations, same_attempts)))))))))

not_some : (o : Option ℕ) → is_some o ≡ false → o ≡ none
not_some none h = refl
not_some (some a) h = cc

scanned_version :
    (r : OperationRow) (x : WorkflowRow) (v : ℕ)
    → not ((scan_operation r x).version == v) ≡ false
    → r.version ≡ v
unfolding scan_operation
scanned_version r x v h = ground arith

submit_body-Accepted :
    (id : Uuid) (result : RecoveryResult) (w : World) (s : Session)
    → Ensures (submit_body id result) w s (λ a t. Accepted id result w s.db t.db)
unfolding submit_body insert_observation
submit_body-Accepted id result w s = Ensures-bind _ _ (
    Ensures-get_operation_for_update id λ r x _ found. Ensures-bind _ _ (
      Ensures-now (
        Ensures-bind _ _ (
          Ensures-ask _ (
            Ensures-bind _ _ (
              Ensures-query _ _ (
                Ensures-bind _ _ (
                  Ensures-reject_if _ _ λ held.
                    let (l, leased, token, live) = holds_lease-live id _ w.now s.db r found held in
                    Ensures-bind _ _ (
                      Ensures-reject_if _ _ λ same. Ensures-bind _ _ (
                        Ensures-query _ _ (
                          Ensures-bind _ _ (
                            Ensures-required _ _ λ attempt owned. Ensures-bind _ _ (
                              Ensures-reject_if _ _ λ open_attempt. Ensures-bind _ _ (
                                Ensures-new_id λ observation_id. Ensures-bind _ _ (
                                  Ensures-exec _ _ (
                                    Ensures-mono _ _
                                      (apply_verdict-written id result.attempt_id observation_id
                                        result.observation r x
                                        (decide_result (scan_operation r x) attempt.attempt_number
                                          result.observation)
                                        w _ found)
                                      λ op t done. record {
                                        old = r;
                                        workflow = x;
                                        lease = l;
                                        attempt = attempt;
                                        found = found;
                                        leased = leased;
                                        token = token;
                                        live = live;
                                        version = scanned_version r x result.expected_version same;
                                        attempt_found = owned;
                                        unfinished = not_some attempt.finished_at open_attempt;
                                        written = done.0;
                                        finished = done.1;
                                      }))))))))))))))))

pub submit-Accepted :
    (id : Uuid) (result : RecoveryResult) (w : World) (db : Db) (op : Operation)
    → (submit_recovery_result id result w db).0 ≡ ok op
    → Accepted id result w db (submit_recovery_result id result w db).1
unfolding submit_recovery_result
submit-Accepted id result w db op h =
    guarded (valid_observation result.observation) _ _
      (run-ok (λ a t. Accepted id result w db t) _ _ _ w db op (submit_body-Accepted id result w _))
      h
  where
    guarded :
        (b : Bool) (e : Error) (ran : Result Operation × Db)
        → (ran.0 ≡ ok op → Accepted id result w db ran.1)
        → (if b then ran else (Result.err e, db)).0 ≡ ok op
        → Accepted id result w db (if b then ran else (Result.err e, db)).1
    guarded true e ran k h = k h
    guarded false e ran k h = cc
