-- ===== src/Store/Changes/Results.antt =====
-- `SubmitRecoveryResult` makes one write of the kind `results`, or none.
use watchkeeper.Prelude.{
  ℕ, String, ◌≡◌, refl, true, false, not, arith, ap, ◌+◌, Bool, some, [], ◌∷◌, ◌++◌, if◌then◌else◌,
}
use watchkeeper.Domain.State.{OperationState}
use watchkeeper.Domain.Types.{Result, Uuid, RecoveryResult, Observation, Operation}
use watchkeeper.Store.Rows.{OperationRow, WorkflowRow, Db, Decision, Lease, no_decision}
use watchkeeper.Store.Tables.{find}
use watchkeeper.Store.Tx.{World, Session}
use watchkeeper.Store.Queries.{stamp, scan_operation, with_event}
use watchkeeper.Store.Ensures.{
  Ensures, Ensures-bind, Ensures-now, Ensures-reject_if, Ensures-update_operation, Ensures-new_id,
  Ensures-append_event, Ensures-get_operation_tx, Ensures-get_operation_for_update, run-db,
  Ensures-statement, Ensures-pure, Ensures-query, Ensures-exec, Ensures-required, Ensures-ask,
}
use watchkeeper.Store.Results.{
  valid_observation, Verdict, decide_result, result_row, result_event, record_decision, holds_lease,
  apply_verdict, insert_observation, submit_body, submit_recovery_result,
}
use watchkeeper.Store.Changes.{IsVerdict, Changes, done, more, writes, results, keeps}
use watchkeeper.Store.Changes.Manual.{insert_decision-keeps}

-- The state of a verdict is the one that was, or one that verification can leave.
pub decide_result-IsVerdict :
    (op : Operation) (n : ℕ) (o : Observation) → IsVerdict op.state (decide_result op n o).to_state
unfolding decide_result
decide_result-IsVerdict op n o = ground arith

holds_lease-some :
    (id : Uuid) (hash : String) (time : ℕ) (db : Db) (r : OperationRow)
    → find id db.operations ≡ some r
    → not (holds_lease id hash time db) ≡ false
    → (l : Lease) × (r.lease ≡ some l)
unfolding holds_lease
holds_lease-some id hash time db r found h = ground arith

-- Recording a decision leaves the two tables alone.
record_decision-keeps :
    (d : Decision) (id attempt_id observation_id : Uuid) (v : Verdict) (from : OperationState)
    (version : ℕ) (w : World) (s : Session) (Q : Unit {0} → Session → Type 0)
    → ((t : Session) → t.db.operations ≡ s.db.operations → t.db.events ≡ s.db.events → Q tt t)
    → Ensures (record_decision d id attempt_id observation_id v from version) w s Q
unfolding record_decision
record_decision-keeps no_decision id attempt_id observation_id v from version w s Q q =
    Ensures-pure tt (q s refl refl)
record_decision-keeps _ id attempt_id observation_id v from version w s Q q = Ensures-bind _ _ (
    Ensures-new_id λ decision_id.
      Ensures-statement _ _
        λ _ db inserted. let kept = insert_decision-keeps _ _ db inserted in q _ kept.0 kept.1)

apply_verdict-Changes :
    (a : Db) (id attempt_id observation_id : Uuid) (o : Observation) (r : OperationRow)
    (x : WorkflowRow) (v : Verdict) (l : Lease) (w : World) (s : Session)
    → find id s.db.operations ≡ some r
    → r.lease ≡ some l
    → IsVerdict r.state v.to_state
    → Changes a s.db
    → Ensures
        (apply_verdict id attempt_id observation_id o (scan_operation r x) v)
        w
        s
        (λ op t. Changes a t.db)
unfolding apply_verdict with_event scan_operation
apply_verdict-Changes a id attempt_id observation_id o r x v l w s found leased verdict before =
    Ensures-bind _ _ (
      Ensures-now (
        Ensures-bind _ _ (
          Ensures-update_operation _ id _ found λ _. Ensures-bind _ _ (
            Ensures-exec _ _ (
              Ensures-bind _ _ (
                record_decision-keeps v.decision id attempt_id observation_id v _ _ w _ _
                  λ t same_operations same_events. Ensures-bind _ _ (
                    Ensures-append_event _ _ (
                      Ensures-get_operation_tx id λ _ _ _ _. more before (
                        writes w.now id r (result_row w.now v (r.version + 1) r)
                          (result_event id attempt_id observation_id v r.state (r.version + 1))
                          t.db.next_event_id found
                          (results v l attempt_id observation_id leased verdict refl refl)
                          same_operations
                          (ap
                            (λ es.
                              es
                              ++ stamp t.db.next_event_id w.now (
                                  result_event id attempt_id observation_id v r.state
                                    (r.version + 1))
                                ∷ [])
                            same_events))))))))))

submit_body-Changes :
    (id : Uuid) (result : RecoveryResult) (w : World) (s : Session)
    → Ensures (submit_body id result) w s (λ a t. Changes s.db t.db)
unfolding submit_body insert_observation scan_operation
submit_body-Changes id result w s = Ensures-bind _ _ (
    Ensures-get_operation_for_update id λ r x _ found. Ensures-bind _ _ (
      Ensures-now (
        Ensures-bind _ _ (
          Ensures-ask _ (
            Ensures-bind _ _ (
              Ensures-query _ _ (
                Ensures-bind _ _ (
                  Ensures-reject_if _ _ λ held.
                    let (l, leased) = holds_lease-some id _ w.now s.db r found held in
                    Ensures-bind _ _ (
                      Ensures-reject_if _ _ λ _. Ensures-bind _ _ (
                        Ensures-query _ _ (
                          Ensures-bind _ _ (
                            Ensures-required _ _ λ attempt _. Ensures-bind _ _ (
                              Ensures-reject_if _ _ λ _. Ensures-bind _ _ (
                                Ensures-new_id λ observation_id. Ensures-bind _ _ (
                                  Ensures-exec _ _ (
                                    apply_verdict-Changes s.db id result.attempt_id observation_id
                                      result.observation r x
                                      (decide_result (scan_operation r x) attempt.attempt_number
                                        result.observation)
                                      l w _ found leased
                                      (decide_result-IsVerdict (scan_operation r x)
                                        attempt.attempt_number result.observation)
                                      (more done (keeps refl refl))))))))))))))))))

pub submit_recovery_result-Changes :
    (id : Uuid) (result : RecoveryResult) (w : World) (db : Db)
    → Changes db (submit_recovery_result id result w db).1
unfolding submit_recovery_result
submit_recovery_result-Changes id result w db =
    guarded (valid_observation result.observation) _ _
      (run-db (Changes db) _ _ _ w db done (submit_body-Changes id result w _))
  where
    guarded :
        (b : Bool) (e : Result Operation) (ran : Result Operation × Db)
        → Changes db ran.1
        → Changes db (if b then ran else (e, db)).1
    guarded true e ran h = h
    guarded false e ran h = done
