-- ===== src/Store/Changes/Manual.antt =====
-- `ManualResolve` makes one write of the kind `resolves`, or none.
use watchkeeper.Prelude.{
  sym, if◌then◌else◌, [], ◌∷◌, ◌++◌, String, ◌≡◌, refl, true, false, arith, inl, inr, ap, ◌+◌, Bool,
  some,
}
use watchkeeper.Domain.State.{OperationState, uncertain, retryable, reconciled, state_eq→eq}
use watchkeeper.Domain.Types.{Uuid, ManualResolution}
use watchkeeper.Store.Rows.{Db, Decision, DecisionRow}
use watchkeeper.Store.Tx.{Tx, World, Session}
use watchkeeper.Store.Queries.{stamp, scan_operation, with_event}
use watchkeeper.Store.Ensures.{
  Ensures, Ensures-bind, Ensures-now, Ensures-reject_if, Ensures-update_operation, Ensures-new_id,
  Ensures-append_event, Ensures-get_operation_tx, Ensures-get_operation_for_update, run-db,
  Ensures-statement, Ensures-pure, Ensures-throw,
}
use watchkeeper.Store.Manual.{
  manual_target, manual_row, manual_event, insert_decision, manual_resolve_body, manual_resolve,
}
use watchkeeper.Store.Changes.{IsManualTarget, Changes, done, more, writes, resolves}

pub insert_decision-keeps :
    (d : DecisionRow) (db new : Db) {u : Unit {0}}
    → insert_decision d db ≡ some (u, new)
    → (new.operations ≡ db.operations)
      × (new.events ≡ db.events)
      × (new.next_event_id ≡ db.next_event_id)
unfolding insert_decision
insert_decision-keeps d db new h = ground arith

Ensures-if :
    {A : Type 0} {w : World} {s : Session} {Q : A → Session → Type 0} (b : Bool) (m n : Tx A)
    → Ensures m w s Q
    → Ensures n w s Q
    → Ensures (if b then m else n) w s Q
Ensures-if true m n h k = h
Ensures-if false m n h k = k

Ensures-manual_target :
    (outcome : String) (w : World) (s : Session) (Q : OperationState × Decision → Session → Type 0)
    → ((to : OperationState) (d : Decision) → IsManualTarget to → Q (to, d) s)
    → Ensures (manual_target outcome uncertain) w s Q
unfolding manual_target
Ensures-manual_target outcome w s Q q =
    Ensures-if _ _ _ (Ensures-pure _ (q reconciled _ (inl refl))) (
      Ensures-if _ _ _ (Ensures-pure _ (q retryable _ (inr (inl refl))))
        (Ensures-if _ _ _ (Ensures-pure _ (q uncertain _ (inr (inr refl)))) (Ensures-throw _)))

manual_resolve_body-Changes :
    (id : Uuid) (m : ManualResolution) (w : World) (s : Session)
    → Ensures (manual_resolve_body id m) w s (λ a t. Changes s.db t.db)
unfolding manual_resolve_body with_event scan_operation
manual_resolve_body-Changes id m w s = Ensures-bind _ _ (
    Ensures-get_operation_for_update id λ r x _ found. Ensures-bind _ _ (
      Ensures-reject_if _ _ λ in_state. Ensures-bind _ _ (
        Ensures-reject_if _ _ λ _.
          let was = state_eq→eq r.state uncertain (ground arith) in
          rw was (
            Ensures-bind _ _ (
              Ensures-manual_target m.outcome w _ _ λ to d target. Ensures-bind _ _ (
                Ensures-now (
                  Ensures-bind _ _ (
                    Ensures-update_operation _ id _ found λ _. Ensures-bind _ _ (
                      Ensures-new_id λ decision_id. Ensures-bind _ _ (
                        Ensures-statement _ _ λ _ db inserted.
                          let kept = insert_decision-keeps _ _ db inserted in
                          Ensures-bind _ _ (
                            Ensures-append_event _ _ (
                              Ensures-get_operation_tx id λ _ _ _ _. more done (
                                writes w.now id r (manual_row w.now to (r.version + 1) r)
                                  (manual_event id m uncertain to (r.version + 1)) db.next_event_id
                                  found
                                  (resolves m to was target refl
                                    (ap (λ st. manual_event id m st to (r.version + 1)) (sym was)))
                                  kept.0
                                  (ap
                                    (λ es.
                                      es
                                      ++ stamp db.next_event_id w.now
                                          (manual_event id m uncertain to (r.version + 1))
                                        ∷ [])
                                    kept.1))))))))))))))

pub manual_resolve-Changes :
    (id : Uuid) (m : ManualResolution) (w : World) (db : Db)
    → Changes db (manual_resolve id m w db).1
unfolding manual_resolve
manual_resolve-Changes id m w db =
    run-db (Changes db) _ _ _ w db done (manual_resolve_body-Changes id m w _)
