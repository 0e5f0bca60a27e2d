-- ===== src/Store/Audit/Invariant.antt =====
-- The audit invariant of the tables, and that every step of the store keeps it.
use watchkeeper.Prelude.{
  subst, append-nil, ℕ, ◌≡◌, refl, true, false, arith, ap, sym, ◌∙◌, Bool, some, none, [], ◌∷◌,
  ◌++◌, List, inl, inr, ◌==◌, ==_iff, Bool-cases, select, select-append, if◌then◌else◌,
}
use watchkeeper.Domain.State.{state_eq}
use watchkeeper.Domain.Types.{PrepareRequest, Uuid, Event}
use watchkeeper.Store.Rows.{OperationRow, Db}
use watchkeeper.Store.Tables.{
  find, put, find-put_self, find-put_ne, find-append, id-find, Distinct, Distinct-put,
  Distinct-append,
}
use watchkeeper.Store.Queries.{NewEvent, stamp}
use watchkeeper.Store.Prepare.{prepared_row, intent_event}
use watchkeeper.Store.Claims.{claim_event, claimed_row, renewed_lease}
use watchkeeper.Store.Changes.{
  Write, Change, keeps, creates, writes, renews, Changes, done, more, authorizes, confirms, retries,
  requests, claims, results, resolves,
}
use watchkeeper.Store.Audit.{Trail, unopened, observe, replay, about, history, progress, trail}
use watchkeeper.Store.Dispatch.{dispatch_event, authorized_row}
use watchkeeper.Store.Confirm.{confirm_event, confirmed_row}
use watchkeeper.Store.Retry.{request_event, requested_row, retry_event, retried_row}
use watchkeeper.Store.Results.{result_event, result_row}
use watchkeeper.Store.Manual.{manual_event, manual_row}
use watchkeeper.Store.Audit.Steps.{Write-observed}

pub record Audited (db : Db) : Type 0 where
  pub keys : Distinct db.operations
  pub trails : (id : Uuid) → replay unopened (history id db) ≡ trail (find id db.operations)

replay-append :
    (t : Trail) (xs : List Event) (e : Event) → replay t (xs ++ e ∷ []) ≡ observe (replay t xs) e
unfolding replay
replay-append t [] e = refl
replay-append t (x ∷ xs) e = replay-append (observe t x) xs e

-- The trail of one operation after one more event in the table.
replay_logged :
    (j : Uuid) (events : List Event) (e : Event)
    → replay unopened (select (about j) (events ++ e ∷ [])) ≡ (
        if e.operation_id == j
        then observe (replay unopened (select (about j) events)) e
        else replay unopened (select (about j) events))
replay_logged j events e =
    ap (replay unopened) (select-append (about j) events (e ∷ []))
    ∙ (unfold about select in single (e.operation_id == j) (select (about j) events))
  where
    single :
        (b : Bool) (xs : List Event)
        → replay unopened (xs ++ (if b then e ∷ [] else []))
          ≡ (if b then observe (replay unopened xs) e else replay unopened xs)
    single true xs = replay-append unopened xs e
    single false xs = ap (replay unopened) (append-nil xs)

pub Write-keys :
    {time : ℕ} {id : Uuid} {old new : OperationRow} {e : NewEvent}
    → Write time id old new e
    → (new.id ≡ old.id) × (e.operation_id ≡ id)
unfolding authorized_row dispatch_event confirmed_row confirm_event retried_row retry_event
    requested_row request_event claimed_row claim_event result_row result_event manual_row
    manual_event
Write-keys (authorizes _ _ _ row ev) = (ap (λ r. r.id) row, ap (λ e. e.operation_id) ev)
Write-keys (confirms _ _ row ev) = (ap (λ r. r.id) row, ap (λ e. e.operation_id) ev)
Write-keys (retries _ _ row ev) = (ap (λ r. r.id) row, ap (λ e. e.operation_id) ev)
Write-keys (requests _ _ _ row ev) = (ap (λ r. r.id) row, ap (λ e. e.operation_id) ev)
Write-keys (claims _ _ _ _ _ _ row ev) = (ap (λ r. r.id) row, ap (λ e. e.operation_id) ev)
Write-keys (results _ _ _ _ _ _ row ev) = (ap (λ r. r.id) row, ap (λ e. e.operation_id) ev)
Write-keys (resolves _ _ _ _ row ev) = (ap (λ r. r.id) row, ap (λ e. e.operation_id) ev)

-- The trail of one operation in the tables that a step leaves.
trail_logged :
    (j : Uuid) (a b : Db) (e : Event)
    → b.events ≡ a.events ++ e ∷ []
    → replay unopened (history j b) ≡ (
        if e.operation_id == j
        then observe (replay unopened (history j a)) e
        else replay unopened (history j a))
unfolding history
trail_logged j a b e evs =
    ap (λ es. replay unopened (select (about j) es)) evs ∙ replay_logged j a.events e

trail_kept :
    (j : Uuid) (a b : Db)
    → b.events ≡ a.events
    → replay unopened (history j b) ≡ replay unopened (history j a)
unfolding history
trail_kept j a b evs = ap (λ es. replay unopened (select (about j) es)) evs

keeps-Audited :
    {a b : Db} → b.operations ≡ a.operations → b.events ≡ a.events → Audited a → Audited b
keeps-Audited {a} {b} ops evs h = record {
  keys = subst Distinct (sym ops) h.keys;
  trails = λ j. trail_kept j a b evs ∙ h.trails j ∙ ap (λ o. trail (find j o)) (sym ops);
}

writes-Audited :
    {a b : Db} (time : ℕ) (id : Uuid) (old new : OperationRow) (e : NewEvent) (n : ℕ)
    → find id a.operations ≡ some old
    → Write time id old new e
    → b.operations ≡ put id new a.operations
    → b.events ≡ a.events ++ stamp n time e ∷ []
    → Audited a
    → Audited b
unfolding stamp trail
writes-Audited {a} {b} time id old new e n found wr ops evs h = record {
  keys = subst Distinct (sym ops) (Distinct-put id new a.operations key h.keys);
  trails =
      λ j. trail_logged j a b (stamp n time e) evs ∙ at j ∙ ap (λ o. trail (find j o)) (sym ops);
}
  where
    key : new.id ≡ id
    key = (Write-keys wr).0 ∙ id-find id a.operations old found

    at :
        (j : Uuid)
        → (if e.operation_id == j
            then observe (replay unopened (history j a)) (stamp n time e)
            else replay unopened (history j a))
          ≡ trail (find j (put id new a.operations))
    at j = elim (Bool-cases (e.operation_id == j)) [
      | inl hit ↦
          let i_j = sym (Write-keys wr).1 ∙ (==_iff _ j).0 hit in
          rw hit (
            ap (λ t. observe t (stamp n time e))
              (h.trails j ∙ ap (λ k. trail (find k a.operations)) (sym i_j) ∙ ap trail found)
            ∙ Write-observed n time id old new e wr
            ∙ ap trail (sym (find-put_self id new a.operations key found))
            ∙ ap (λ k. trail (find k (put id new a.operations))) i_j)
      | inr miss ↦ rw miss (
          h.trails j
          ∙ ap trail (
              sym (
                find-put_ne id j new a.operations key
                  (λ i_j. cc (miss, (==_iff e.operation_id j).1 ((Write-keys wr).1 ∙ i_j))))))
    ]

creates-Audited :
    {a b : Db} (time : ℕ) (id workflow_id : Uuid) (req : PrepareRequest) (n : ℕ)
    → find id a.operations ≡ none
    → b.operations ≡ a.operations ++ prepared_row time id workflow_id req ∷ []
    → b.events ≡ a.events ++ stamp n time (intent_event id) ∷ []
    → Audited a
    → Audited b
unfolding stamp intent_event prepared_row trail observe progress state_eq
creates-Audited {a} {b} time id workflow_id req n missing ops evs h = record {
  keys = subst Distinct (sym ops) (Distinct-append a.operations _ missing h.keys);
  trails = λ j.
      trail_logged j a b (stamp n time (intent_event id)) evs
      ∙ ground
          (arith, h.trails j, find-append j a.operations (prepared_row time id workflow_id req))
      ∙ ap (λ o. trail (find j o)) (sym ops);
}

renews-Audited :
    {a b : Db} (time expires : ℕ) (id : Uuid) (old : OperationRow)
    → find id a.operations ≡ some old
    → b.operations ≡ put id (renewed_lease expires time old) a.operations
    → b.events ≡ a.events
    → Audited a
    → Audited b
unfolding renewed_lease trail progress
renews-Audited {a} {b} time expires id old found ops evs h = record {
  keys = subst Distinct (sym ops) (Distinct-put id new a.operations key h.keys);
  trails = λ j.
      trail_kept j a b evs
      ∙ h.trails j
      ∙ (elim (Bool-cases (id == j)) [
        | inl hit ↦
            let i_j = (==_iff id j).0 hit in
            ap (λ k. trail (find k a.operations)) (sym i_j)
            ∙ ap trail found
            ∙ ap trail (sym (find-put_self id new a.operations key found))
            ∙ ap (λ k. trail (find k (put id new a.operations))) i_j
        | inr miss ↦
            ap trail
              (sym (find-put_ne id j new a.operations key (λ i_j. cc (miss, (==_iff id j).1 i_j))))
      ])
      ∙ ap (λ o. trail (find j o)) (sym ops);
}
  where
    new : OperationRow
    new = renewed_lease expires time old

    key : new.id ≡ id
    key = id-find id a.operations old found

Change-Audited : {a b : Db} → Change a b → Audited a → Audited b
Change-Audited (keeps ops evs) h = keeps-Audited ops evs h
Change-Audited (creates time id workflow_id req n missing ops evs) h =
    creates-Audited time id workflow_id req n missing ops evs h
Change-Audited (writes time id old new e n found wr ops evs) h =
    writes-Audited time id old new e n found wr ops evs h
Change-Audited (renews time expires id old l found leased ops evs) h =
    renews-Audited time expires id old found ops evs h

pub Changes-Audited : {a b : Db} → Changes a b → Audited a → Audited b
Changes-Audited done h = h
Changes-Audited (more before change) h = Change-Audited change (Changes-Audited before h)
