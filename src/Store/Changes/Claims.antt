-- ===== src/Store/Changes/Claims.antt =====
-- `ClaimRecovery` makes one write of the kind `claims` for each row that it takes, all of them
-- prepared or uncertain; `RenewClaim` changes the end of a lease and nothing else.
use watchkeeper.Prelude.{
  ==_iff, ◌==◌, subst, some-injective, ◌⊎◌, ℕ, String, ◌≡◌, refl, true, arith, inl, inr, ap, ◌∙◌,
  ◌+◌, Option, some, none, [], ◌∷◌, ◌++◌, List, All, All-map, All-take, All-select, All-if,
  Option-cases, Bool-cases, sym,
}
use watchkeeper.Domain.State.{uncertain, prepared, state_eq, state_eq→eq}
use watchkeeper.Domain.Types.{Uuid}
use watchkeeper.Store.Rows.{OperationRow, Db, Lease}
use watchkeeper.Store.Tables.{find, put, find-put_self, find-put_ne, id-find, Distinct, All-find}
use watchkeeper.Store.Tx.{World, Session}
use watchkeeper.Store.Queries.{with_event, stamp}
use watchkeeper.Store.Ensures.{
  Ensures, Ensures-bind, Ensures-mono, Ensures-now, Ensures-update_operation, Ensures-new_id,
  Ensures-append_event, Ensures-get_operation_tx, run-db, settle-db, Ensures-statement,
  Ensures-pure, Ensures-query, Ensures-required, Ensures-ask, Ensures-draw, Ensures-returned,
  Ensures-update_missing,
}
use watchkeeper.Store.Claims.{
  renew_claim, claim_recovery_for_workflow, renew_found, claim_one, claim_each, claim_body,
  claimed_row, claim_event, select_work, next_attempt, insert_attempt, sorted, insert_sorted, ids,
  eligible, is_due,
}
use watchkeeper.Store.Results.{live_lease}
use watchkeeper.Store.Changes.{renews, IsOpen, Changes, done, more, writes, claims}

-- The row of this identifier, if there is one, is prepared or uncertain.
OpenAt : Db → Uuid → Type 0
OpenAt db id = (r : OperationRow) → find id db.operations ≡ some r → IsOpen r.state

All-insert_sorted :
    (P : OperationRow → Type 0) (r : OperationRow) (rows : List OperationRow)
    → P r
    → All P rows
    → All P (insert_sorted r rows)
unfolding insert_sorted
All-insert_sorted P r [] p h = (p, tt)
All-insert_sorted P r (x ∷ rows) p h =
    All-if P _ (r ∷ x ∷ rows) (x ∷ insert_sorted r rows) (λ _. (p, h))
      (λ _. (h.0, All-insert_sorted P r rows p h.1))

All-sorted :
    (P : OperationRow → Type 0) (rows : List OperationRow) → All P rows → All P (sorted rows)
unfolding sorted
All-sorted P [] h = tt
All-sorted P (r ∷ rows) h = All-insert_sorted P r (sorted rows) h.0 (All-sorted P rows h.1)

All-ids : (P : Uuid → Type 0) (rows : List OperationRow) → All (λ r. P r.id) rows → All P (ids rows)
unfolding ids
All-ids P [] h = tt
All-ids P (r ∷ rows) h = (h.0, All-ids P rows h.1)

is_due-IsOpen : (time grace : ℕ) (r : OperationRow) → is_due time grace r ≡ true → IsOpen r.state
unfolding is_due
is_due-IsOpen time grace r h = elim (Bool-cases (state_eq r.state prepared)) [
  | inl same ↦ inl (state_eq→eq r.state prepared same)
  | inr other ↦ inr (state_eq→eq r.state uncertain (ground arith))
]

eligible-is_due :
    (w : World) (grace : ℕ) (only : String) (db : Db) (r : OperationRow)
    → eligible w grace only db r ≡ true
    → is_due w.now grace r ≡ true
unfolding eligible
eligible-is_due w grace only db r h = ground arith

select_work-OpenAt :
    (w : World) (limit grace : ℕ) (only : String) (db : Db)
    → Distinct db.operations
    → All (OpenAt db) (select_work w limit grace only db)
unfolding select_work OpenAt
select_work-OpenAt w limit grace only db d = All-ids (OpenAt db) _ (
    All-take _ limit _ (
      All-sorted (λ r. OpenAt db r.id) _
        (All-map (λ r. (find r.id db.operations ≡ some r) × (eligible w grace only db r ≡ true))
          (λ r. OpenAt db r.id) _
          (λ r h x found.
            subst (λ y. IsOpen y.state) (some-injective r x (sym h.0 ∙ found))
              (is_due-IsOpen w.now grace r (eligible-is_due w grace only db r h.1)))
          (All-select _ (eligible w grace only db) db.operations (All-find db.operations d)))))

next_attempt-keeps :
    (id : Uuid) (db new : Db) {n : ℕ} → next_attempt id db ≡ some (n, new) → new ≡ db
unfolding next_attempt
next_attempt-keeps id db new h = ground arith

insert_attempt-keeps :
    (attempt_id id : Uuid) (n : ℕ) (worker : String) (db new : Db) {u : Unit {0}}
    → insert_attempt attempt_id id n worker db ≡ some (u, new)
    → (new.operations ≡ db.operations) × (new.events ≡ db.events)
unfolding insert_attempt
insert_attempt-keeps attempt_id id n worker db new h = ground arith

-- What a read finds after one row was written over.
find_after_put :
    (i j : Uuid) (new old : OperationRow) (rows : List OperationRow) (x : OperationRow)
    → find i rows ≡ some old
    → new.id ≡ i
    → find j (put i new rows) ≡ some x
    → ((i ≡ j) × (x ≡ new)) ⊎ (find j rows ≡ some x)
find_after_put i j new old rows x found key h = elim (Bool-cases (i == j)) [
  | inl same ↦
      let e = (==_iff i j).0 same in
      inl (
        e,
        some-injective x new (
            sym h ∙ ap (λ k. find k (put i new rows)) (sym e) ∙ find-put_self i new rows key found),
      )
  | inr other ↦ inr (sym (find-put_ne i j new rows key (λ e. cc (other, (==_iff i j).1 e))) ∙ h)
]

-- A claim leaves every row in its state.
OpenAt-claimed :
    (db : Db) (i j time lease : ℕ) (worker hash : String) (r : OperationRow)
    → find i db.operations ≡ some r
    → OpenAt db i
    → OpenAt db j
    → (x : OperationRow)
    → find j (put i (claimed_row time worker hash lease r) db.operations) ≡ some x
    → IsOpen x.state
unfolding OpenAt claimed_row
OpenAt-claimed db i j time lease worker hash r found here there x h =
    elim (find_after_put i j _ r db.operations x found (id-find i db.operations r found) h) [
      | inl (_, same) ↦ subst (λ y. IsOpen y.state) (sym same) (here r found)
      | inr old ↦ there x old
    ]

found_claimed :
    (db : Db) (id : Uuid) (time lease : ℕ) (worker hash : String) (r : OperationRow)
    → find id db.operations ≡ some r
    → find id (put id (claimed_row time worker hash lease r) db.operations)
      ≡ some (claimed_row time worker hash lease r)
unfolding claimed_row
found_claimed db id time lease worker hash r found =
    find-put_self id _ db.operations (id-find id db.operations r found) found

claimed_event :
    (id : Uuid) (worker : String) (attempt_id : Uuid) (expires time lease : ℕ) (hash : String)
    (r row : OperationRow)
    → row ≡ claimed_row time worker hash lease r
    → claim_event id row.state row.version worker attempt_id expires
      ≡ claim_event id r.state (r.version + 1) worker attempt_id expires
unfolding claimed_row
claimed_event id worker attempt_id expires time lease hash r row same =
    ap (λ y. claim_event id y.state y.version worker attempt_id expires) same

-- What a round of the loop does to the tables, and that it keeps the selected rows open.
record Claimed (a : Db) (list : List Uuid) (b : Db) : Type 0 where
  changes : Changes a b
  open_rows : All (OpenAt b) list

Claimed-kept :
    (a db new : Db) (id : Uuid) (rest : List Uuid) (time lease : ℕ) (worker hash : String)
    (attempt_id : Uuid) (expires n : ℕ) (r row : OperationRow)
    → Claimed a (id ∷ rest) db
    → find id db.operations ≡ some r
    → row ≡ claimed_row time worker hash lease r
    → new.operations ≡ put id (claimed_row time worker hash lease r) db.operations
    → new.events
      ≡ db.events
        ++ stamp n time (claim_event id row.state row.version worker attempt_id expires) ∷ []
    → Claimed a rest new
unfolding OpenAt
Claimed-kept a db new id rest time lease worker hash attempt_id expires n r row c found same ops
      evs =
    record {
      changes = more c.changes (
          writes time id r (claimed_row time worker hash lease r)
            (claim_event id row.state row.version worker attempt_id expires) n found
            (claims worker hash lease attempt_id expires (c.open_rows.0 r found) refl
              (claimed_event id worker attempt_id expires time lease hash r row same))
            ops evs);
      open_rows =
          All-map (OpenAt db) (OpenAt new) rest
            (λ j there x h.
              OpenAt-claimed db id j time lease worker hash r found c.open_rows.0 there x
                (sym (ap (find j) ops) ∙ h))
            c.open_rows.1;
    }

claim_one-Claimed :
    (worker : String) (lease : ℕ) (id : Uuid) (rest : List Uuid) (a : Db) (w : World) (s : Session)
    → Claimed a (id ∷ rest) s.db
    → Ensures (claim_one worker lease id) w s (λ c t. Claimed a rest t.db)
unfolding claim_one with_event
claim_one-Claimed worker lease id rest a w s before = Ensures-bind _ _ (
    Ensures-draw _ _ λ token _. Ensures-bind _ _ (
      Ensures-ask _ (
        Ensures-bind _ _ (
          Ensures-new_id λ attempt_id. Ensures-bind _ _ (
            Ensures-statement _ _ λ number db numbered.
              let ready =
                subst (Claimed a (id ∷ rest)) (sym (next_attempt-keeps id s.db db numbered))
                  before in
              let hash = w.codec.sha256_hex token in
              Ensures-bind _ _ (
                Ensures-now (elim (Option-cases (find id db.operations)) [
                  | inl missing ↦ Ensures-bind _ _ (
                      Ensures-update_missing _ id _ missing (
                        Ensures-bind _ _ (
                          Ensures-returned _ (
                            Ensures-bind _ _
                              (Ensures-required _ _ λ row is_row. cc (missing, is_row))))))
                  | inr (r, found) ↦ Ensures-bind _ _ (
                      Ensures-update_operation _ id _ found λ _. Ensures-bind _ _ (
                        Ensures-returned _ (
                          Ensures-bind _ _ (
                            Ensures-required _ _ λ row is_row.
                              let new = claimed_row w.now worker hash lease r in
                              let same = some-injective row new (
                                sym is_row ∙ found_claimed db id w.now lease worker hash r found) in
                              Ensures-bind _ _ (
                                Ensures-statement _ _ λ _ later inserted.
                                  let kept =
                                    insert_attempt-keeps attempt_id id number worker _ later
                                      inserted in
                                  Ensures-bind _ _ (
                                    Ensures-append_event _ _ (
                                      Ensures-bind _ _ (
                                        Ensures-get_operation_tx id λ _ _ _ _. Ensures-pure _ (
                                          Claimed-kept a db _ id rest w.now lease worker hash
                                            attempt_id (w.now + lease) later.next_event_id r row
                                            ready found same kept.0
                                            (ap
                                              (λ es.
                                                es
                                                ++ stamp later.next_event_id w.now (
                                                    claim_event id row.state row.version worker
                                                      attempt_id (w.now + lease))
                                                  ∷ [])
                                              kept.1))))))))))
                ])))))))

claim_each-Claimed :
    (worker : String) (lease : ℕ) (list : List Uuid) (a : Db) (w : World) (s : Session)
    → Claimed a list s.db
    → Ensures (claim_each worker lease list) w s (λ c t. Changes a t.db)
unfolding claim_each
claim_each-Claimed worker lease [] a w s before = Ensures-pure _ before.changes
claim_each-Claimed worker lease (id ∷ rest) a w s before = Ensures-bind _ _ (
    Ensures-mono _ _ (claim_one-Claimed worker lease id rest a w s before) λ c t next.
      Ensures-bind _ _ (
        Ensures-mono _ _ (claim_each-Claimed worker lease rest a w t next)
          λ cs u changes. Ensures-pure _ changes))

pub claim_recovery_for_workflow-Changes :
    (worker : String) (limit lease grace : ℕ) (only : String) (w : World) (db : Db)
    → Distinct db.operations
    → Changes db (claim_recovery_for_workflow worker limit lease grace only w db).1
unfolding claim_recovery_for_workflow claim_body
claim_recovery_for_workflow-Changes worker limit lease grace only w db d =
    run-db (Changes db) _ _ _ w db done (
      Ensures-bind _ _ (
        Ensures-query _ _ (
          claim_each-Claimed worker lease _ db w _
            (record { changes = done; open_rows = select_work-OpenAt w limit grace only db d }))))

live_lease-some :
    (hash : String) (time : ℕ) (o : Option Lease)
    → live_lease hash time o ≡ true
    → (l : Lease) × (o ≡ some l)
live_lease-some hash time none h = cc
live_lease-some hash time (some l) h = (l, refl)

renew_found-Changes :
    (id : Uuid) (hash : String) (duration : ℕ) (w : World) (db : Db) (o : Option OperationRow)
    → find id db.operations ≡ o
    → Changes db (renew_found id hash duration w db o).1
renew_found-Changes id hash duration w db none found = done
renew_found-Changes id hash duration w db (some r) found =
    elim (Bool-cases (live_lease hash w.now r.lease)) [
      | inl live ↦
          let (l, leased) = live_lease-some hash w.now r.lease live in
          rw live (
            settle-db (Changes db) w.commit _ _ db _ done
              (more done (renews w.now (w.now + duration) id r l found leased refl refl)))
      | inr lost ↦ rw lost done
    ]

pub renew_claim-Changes :
    (id : Uuid) (token : String) (duration : ℕ) (w : World) (db : Db)
    → Changes db (renew_claim id token duration w db).1
unfolding renew_claim
renew_claim-Changes id token duration w db = elim (Bool-cases (w.fails 0)) [
  | inl down ↦ rw down done
  | inr up ↦ rw up (renew_found-Changes id _ duration w db (find id db.operations) refl)
]
