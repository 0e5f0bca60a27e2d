-- ===== src/Store/Changes/Prepare.antt =====
-- `Prepare` adds one row with its first event, or neither.
use watchkeeper.Prelude.{sym, ◌≡◌, arith, ap, ◌∙◌, Option, some, none, [], ◌∷◌, ◌++◌}
use watchkeeper.Domain.Types.{Uuid, PrepareRequest}
use watchkeeper.Store.Rows.{OperationRow, Db}
use watchkeeper.Store.Tables.{find}
use watchkeeper.Store.Tx.{World, Session}
use watchkeeper.Store.Queries.{with_event, stamp}
use watchkeeper.Store.Ensures.{
  Ensures, Ensures-bind, Ensures-mono, Ensures-now, Ensures-reject_if, Ensures-new_id,
  Ensures-append_event, Ensures-get_operation_tx, run-db, Ensures-statement, Ensures-pure,
  Ensures-query, Ensures-exec, Ensures-required,
}
use watchkeeper.Store.Prepare.{
  ensure_workflow, insert_workflow, insert_operation, prepared_row, prepare_insert,
  prepare_inserted, prepare_body, prepare, intent_event,
}
use watchkeeper.Store.Changes.{Changes, done, more, creates, keeps}

insert_workflow-operations :
    (id : Uuid) (req : PrepareRequest) (db : Db)
    → ((insert_workflow id req db).operations ≡ db.operations)
      × ((insert_workflow id req db).events ≡ db.events)
unfolding insert_workflow
insert_workflow-operations id req db = ground arith

ensure_workflow-keeps :
    (req : PrepareRequest) (w : World) (s : Session)
    → Ensures
        (ensure_workflow req)
        w
        s
        (λ a t. (t.db.operations ≡ s.db.operations) × (t.db.events ≡ s.db.events))
unfolding ensure_workflow
ensure_workflow-keeps req w s = Ensures-bind _ _ (
    Ensures-new_id λ fresh. Ensures-bind _ _ (
      Ensures-exec _ _ (
        Ensures-bind _ _ (
          Ensures-query _ _ (
            Ensures-bind _ _ (
              Ensures-required _ _ λ x _. Ensures-bind _ _ (
                Ensures-reject_if _ _
                  λ _. Ensures-pure _ (insert_workflow-operations fresh req s.db))))))))

-- What the INSERT did, by the identifier that it returned.
Inserted : OperationRow → Option Uuid → Db → Db → Type 0
Inserted row none db new = (new.operations ≡ db.operations) × (new.events ≡ db.events)
Inserted row (some id) db new =
    (id ≡ row.id)
    × (find id db.operations ≡ none)
    × (new.operations ≡ db.operations ++ row ∷ [])
    × (new.events ≡ db.events)
    × (new.next_event_id ≡ db.next_event_id)

insert_operation-Inserted :
    (row : OperationRow) (db new : Db) (o : Option Uuid)
    → insert_operation row db ≡ some (o, new)
    → Inserted row o db new
unfolding insert_operation Inserted
insert_operation-Inserted row db new none h = ground arith
insert_operation-Inserted row db new (some id) h = ground arith

prepare_inserted-Changes :
    (a db : Db) (workflow_id id : Uuid) (req : PrepareRequest) (o : Option Uuid) (w : World)
    (s : Session)
    → Changes a db
    → Inserted (prepared_row w.now id workflow_id req) o db s.db
    → Ensures (prepare_inserted workflow_id req o) w s (λ x t. Changes a t.db)
unfolding prepare_inserted Inserted with_event prepared_row
prepare_inserted-Changes a db workflow_id id req none w s before h = Ensures-bind _ _ (
    Ensures-query _ _ (
      Ensures-bind _ _ (
        Ensures-required _ _ λ x _.
          Ensures-bind _ _
            (Ensures-reject_if _ _ λ _. Ensures-pure _ (more before (keeps h.0 h.1))))))
prepare_inserted-Changes a db workflow_id id req (some i) w s before h = Ensures-bind _ _ (
    Ensures-append_event _ _ (
      Ensures-pure _ (
        more before (
          creates w.now id workflow_id req s.db.next_event_id
            (ap (λ j. find j db.operations) (sym h.0) ∙ h.1) h.2
            (ap (λ es. es ++ stamp s.db.next_event_id w.now (intent_event i) ∷ []) h.3
              ∙ ap (λ j. db.events ++ stamp s.db.next_event_id w.now (intent_event j) ∷ []) h.0)))))

prepare_body-Changes :
    (req : PrepareRequest) (w : World) (s : Session)
    → Ensures (prepare_body req) w s (λ a t. Changes s.db t.db)
unfolding prepare_body prepare_insert
prepare_body-Changes req w s = Ensures-bind _ _ (
    Ensures-mono _ _ (ensure_workflow-keeps req w s) λ workflow_id t same. Ensures-bind _ _ (
      Ensures-new_id λ id. Ensures-bind _ _ (
        Ensures-now (
          Ensures-bind _ _ (
            Ensures-statement _ _ λ o db inserted. Ensures-bind _ _ (
              Ensures-mono _ _
                (prepare_inserted-Changes s.db t.db workflow_id id req o w _
                  (more done (keeps same.0 same.1))
                  (insert_operation-Inserted _ t.db db o inserted))
                λ target u changes.
                  Ensures-bind _ _
                    (Ensures-get_operation_tx target.0 λ _ _ _ _. Ensures-pure _ changes)))))))

pub prepare-Changes : (req : PrepareRequest) (w : World) (db : Db) → Changes db (prepare req w db).1
unfolding prepare
prepare-Changes req w db = run-db (Changes db) _ _ _ w db done (prepare_body-Changes req w _)
