-- ===== src/Store/Audit/Lifecycle/Theorems.antt =====
-- The lifecycle invariant of the tables, kept by every call of internal/store.
use watchkeeper.Prelude.{
  ==_iff, ◌==◌, Bool-cases, ◌≢◌, arith, some-equal, ◌⊎◌, [], ◌∷◌, ◌∙◌, ap, ℕ, All, ◌++◌, sym, List,
  subst, true, false, refl, none, some, ◌≡◌, inl, inr, select,
}
use watchkeeper.Store.Rows.{Lease, OperationRow, Db, empty_db}
use watchkeeper.Store.Changes.{Write, Changes, Change, done, more, keeps, creates, writes, renews}
use watchkeeper.Store.Changes.Lifecycle.{LeasedOpen, Write-LeasedOpen}
use watchkeeper.Domain.Types.{PrepareRequest, Uuid}
use watchkeeper.Store.Tables.{
  Distinct-append, find-append, find-put_ne, find-put_self, Distinct-put, id-find, put, find,
  Distinct,
}
use watchkeeper.Store.Queries.{NewEvent, stamp}
use watchkeeper.Store.Audit.{OperationState, history}
use watchkeeper.Store.Prepare.{prepared_row, intent_event}
use watchkeeper.Store.Tx.{World}
use watchkeeper.Store.Claims.{renewed_lease}
use watchkeeper.Store.Calls.{perform, Call, serve}
use watchkeeper.Store.Calls.Steps.{perform-Changes}
use watchkeeper.Store.Audit.Invariant.{Write-keys}
use watchkeeper.Store.Audit.Lifecycle.{
  untouched, EventMoves, Orderly, open_with, history-kept, keeps-Orderly, stamp-EventMoves,
  moves-logged, quiet-before, not_manual,
}

-- A row of the table with the row of `id` written over is the new one, or an old one under another
-- identifier.
find-put_cases :
    (id j : Uuid) (old new r : OperationRow) (rows : List OperationRow)
    → new.id ≡ old.id
    → find id rows ≡ some old
    → find j (put id new rows) ≡ some r
    → ((id ≡ j) × (r ≡ new)) ⊎ ((id ≢ j) × (find j rows ≡ some r))
find-put_cases id j old new r rows same_id found there = elim (Bool-cases (id == j)) [
  | inl hit ↦
      let same = (==_iff id j).0 hit in
      inl (
        same,
        some-equal (
            sym there
            ∙ ap (λ k. find k (put id new rows)) (sym same)
            ∙ find-put_self id new rows key found),
      )
  | inr miss ↦ inr (other miss, sym (find-put_ne id j new rows key (other miss)) ∙ there)
]
  where
    key : new.id ≡ id
    key = same_id ∙ id-find id rows old found

    other : (id == j) ≡ false → id ≢ j
    other miss same = cc (miss, (==_iff id j).1 same)

writes-Orderly :
    {a b : Db} (time : ℕ) (id : Uuid) (old new : OperationRow) (e : NewEvent) (n : ℕ)
    → find id a.operations ≡ some old
    → Write time id old new e
    → b.operations ≡ put id new a.operations
    → b.events ≡ a.events ++ stamp n time e ∷ []
    → Orderly a
    → Orderly b
unfolding stamp
writes-Orderly {a} {b} time id old new e n found wr ops evs h = record {
  keys = subst Distinct (sym ops) (
      Distinct-put id new a.operations ((Write-keys wr).0 ∙ id-find id a.operations old found)
        h.keys);
  rows = λ j r there calm.
      elim (find-put_cases id j old new r a.operations (Write-keys wr).0 found
        (ap (find j) (sym ops) ∙ there)) [
          | inl (same, is_new) ↦ subst LeasedOpen (sym is_new) (
              Write-LeasedOpen time id old new e
                (not_manual j a b (stamp n time e) evs ((Write-keys wr).1 ∙ same) calm)
                (h.rows id old found (
                  ap (λ k. untouched (history k a)) same
                  ∙ quiet-before j a b (stamp n time e) evs calm))
                wr)
          | inr (other, there_before) ↦
              h.rows j r there_before (quiet-before j a b (stamp n time e) evs calm)
        ];
  moves = λ j calm.
      moves-logged j a b (stamp n time e) evs (h.moves j)
        (λ mine quiet.
          stamp-EventMoves n time id old new e
            (h.rows id old found
              (ap (λ k. untouched (history k a)) (sym (Write-keys wr).1 ∙ mine) ∙ quiet))
            wr)
        calm;
}

renews-Orderly :
    {a b : Db} (time expires : ℕ) (id : Uuid) (old : OperationRow) (l : Lease)
    → find id a.operations ≡ some old
    → old.lease ≡ some l
    → b.operations ≡ put id (renewed_lease expires time old) a.operations
    → b.events ≡ a.events
    → Orderly a
    → Orderly b
unfolding renewed_lease LeasedOpen
renews-Orderly {a} {b} time expires id old l found leased ops evs h = record {
  keys =
      subst Distinct (sym ops)
        (Distinct-put id new a.operations (id-find id a.operations old found) h.keys);
  rows = λ j r there calm.
      elim (find-put_cases id j old new r a.operations refl found (ap (find j) (sym ops) ∙ there)) [
        | inl (same, is_new) ↦ subst LeasedOpen (sym is_new) (
            still_open (
              h.rows id old found (
                ap (λ k. untouched (history k a)) same
                ∙ ap untouched (sym (history-kept j a b evs))
                ∙ calm)))
        | inr (other, there_before) ↦
            h.rows j r there_before (ap untouched (sym (history-kept j a b evs)) ∙ calm)
      ];
  moves = λ j calm.
      subst (All EventMoves) (sym (history-kept j a b evs))
        (h.moves j (ap untouched (sym (history-kept j a b evs)) ∙ calm));
}
  where
    new : OperationRow
    new = renewed_lease expires time old

    still_open : LeasedOpen old → LeasedOpen new
    still_open before = open_with new (before l leased)

creates-Orderly :
    {a b : Db} (time id workflow_id : ℕ) (req : PrepareRequest) (n : ℕ)
    → find id a.operations ≡ none
    → b.operations ≡ a.operations ++ prepared_row time id workflow_id req ∷ []
    → b.events ≡ a.events ++ stamp n time (intent_event id) ∷ []
    → Orderly a
    → Orderly b
unfolding stamp intent_event prepared_row EventMoves
creates-Orderly {a} {b} time id workflow_id req n missing ops evs h = record {
  keys = subst Distinct (sym ops) (Distinct-append a.operations _ missing h.keys);
  rows = λ j r there calm.
      by_row j r (ap (find j) (sym ops) ∙ there)
        (quiet-before j a b (stamp n time (intent_event id)) evs calm);
  moves = λ j calm.
      moves-logged j a b (stamp n time (intent_event id)) evs (h.moves j)
        (λ mine quiet from to k m. elim (no_state k) [ ]) calm;
}
  where
    no_state : {s : OperationState} → none ≡ some s → ⊥
    no_state k = cc

    appended :
        (j : Uuid) (r : OperationRow)
        → find j (a.operations ++ prepared_row time id workflow_id req ∷ []) ≡ some r
        → (find j a.operations ≡ some r) ⊎ (prepared_row time id workflow_id req ≡ r)
    appended j r there =
        ground (arith, find-append j a.operations (prepared_row time id workflow_id req))

    by_row :
        (j : Uuid) (r : OperationRow)
        → find j (a.operations ++ prepared_row time id workflow_id req ∷ []) ≡ some r
        → untouched (history j a) ≡ true
        → LeasedOpen r
    by_row j r there quiet = elim (appended j r there) [
      | inl before ↦ h.rows j r before quiet
      | inr is_new ↦
          subst LeasedOpen is_new (open_with (prepared_row time id workflow_id req) (inl refl))
    ]

Change-Orderly : {a b : Db} → Change a b → Orderly a → Orderly b
Change-Orderly (keeps ops evs) h = keeps-Orderly ops evs h
Change-Orderly (creates time id workflow_id req n missing ops evs) h =
    creates-Orderly time id workflow_id req n missing ops evs h
Change-Orderly (writes time id old new e n found wr ops evs) h =
    writes-Orderly time id old new e n found wr ops evs h
Change-Orderly (renews time expires id old l found leased ops evs) h =
    renews-Orderly time expires id old l found leased ops evs h

Changes-Orderly : {a b : Db} → Changes a b → Orderly a → Orderly b
Changes-Orderly done h = h
Changes-Orderly (more before change) h = Change-Orderly change (Changes-Orderly before h)

serve_from-Orderly : (db : Db) (calls : List (World × Call)) → Orderly db → Orderly (serve db calls)
unfolding serve
serve_from-Orderly db [] h = h
serve_from-Orderly db ((w, c) ∷ rest) h =
    serve_from-Orderly (perform c w db) rest (Changes-Orderly (perform-Changes c w db h.keys) h)

empty_db-Orderly : Orderly empty_db
unfolding history find select
empty_db-Orderly = record { keys = tt; rows = λ id r there calm. cc; moves = λ id calm. tt }

-- After any calls from empty tables, where no operator has resolved an operation by hand, each of its
-- events leaves it in its state or moves it along `allowedTransitions`: a `confirmed` or
-- `reconciled` operation stays so.
pub history-moves :
    (calls : List (World × Call)) (id : Uuid)
    → untouched (history id (serve empty_db calls)) ≡ true
    → All EventMoves (history id (serve empty_db calls))
history-moves calls id calm = (serve_from-Orderly empty_db calls empty_db-Orderly).moves id calm
