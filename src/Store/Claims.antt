-- ===== src/Store/Claims.antt =====
-- `ClaimRecoveryForWorkflow`, `ClaimRecovery` and `RenewClaim` of internal/store/recovery.go.
use watchkeeper.Prelude.{
  ℕ, suc, ◌+◌, String, Bool, true, false, Option, none, some, List, [], ◌∷◌, ◌++◌, ◌==◌, ◌&&◌, ◌||◌,
  not, ltb, leb, str_eq, if◌then◌else◌, select, take,
}
use watchkeeper.Domain.State.{OperationState, watchkeeper_strategy, prepared, uncertain, state_eq}
use watchkeeper.Domain.Types.{
  Uuid, Time, Result, err, library_error, RecoveryClaim, recovery_claimed, coordinator,
  claim_details,
}
use watchkeeper.Store.Rows.{OperationRow, WorkflowRow, AttemptRow, Lease, Db, integer_limit}
use watchkeeper.Store.Tables.{find, put, find_workflow}
use watchkeeper.Store.Tx.{
  required, World, Tx, unavailable_error, pure, query, statement, ask, now, new_id, draw, returned,
  ◌>>=◌, ◌>>◌, run, settle,
}
use watchkeeper.Store.Queries.{get_operation_tx, update_operation, NewEvent, append_event}
use watchkeeper.Store.Prepare.{strategy_eq}
use watchkeeper.Store.Results.{live_lease, lease_lost}

abbrev passed : Option Time → Time → Bool
passed none time = false
passed (some t) time = leb t time

abbrev passed_or_unset : Option Time → Time → Bool
passed_or_unset none time = true
passed_or_unset (some t) time = leb t time

abbrev expired_or_free : Option Lease → Time → Bool
expired_or_free none time = true
expired_or_free (some l) time = leb l.expires_at time

-- `strategy = 'watchkeeper' AND ($3 = '' OR external_workflow_id = $3)`
unfoldable pub in_scope : String → Uuid → List WorkflowRow → Bool
in_scope only id rows = elim (find_workflow id rows) [
  | none ↦ false
  | some w ↦
      strategy_eq w.strategy watchkeeper_strategy
      && (str_eq only "" || str_eq w.external_workflow_id only)
]

-- The rest of the WHERE clause.
unfoldable pub is_due : Time → ℕ → OperationRow → Bool
is_due time grace r =
    ((state_eq r.state prepared
        && (leb (r.prepared_at + grace) time || passed r.next_reconcile_at time))
      || (state_eq r.state uncertain && passed r.next_reconcile_at time))
    && passed_or_unset r.next_reconcile_at time
    && expired_or_free r.lease time

abbrev nulls_first : Option Time → ℕ
nulls_first none = 0
nulls_first (some t) = suc t

-- `ORDER BY next_reconcile_at NULLS FIRST, prepared_at, id`
unfoldable pub claim_before : OperationRow → OperationRow → Bool
claim_before a b =
    let x = nulls_first a.next_reconcile_at in
    let y = nulls_first b.next_reconcile_at in
    ltb x y
    || (x == y
        && (ltb a.prepared_at b.prepared_at || (a.prepared_at == b.prepared_at && leb a.id b.id)))

unfoldable pub insert_sorted : OperationRow → List OperationRow → List OperationRow
insert_sorted r [] = r ∷ []
insert_sorted r (x ∷ rows) =
    let rest = insert_sorted r rows in if claim_before r x then r ∷ x ∷ rows else x ∷ rest

unfoldable pub sorted : List OperationRow → List OperationRow
sorted [] = []
sorted (r ∷ rows) = insert_sorted r (sorted rows)

unfoldable pub ids : List OperationRow → List Uuid
ids [] = []
ids (r ∷ rows) = r.id ∷ ids rows

unfoldable pub eligible : World → ℕ → String → Db → OperationRow → Bool
eligible w grace only db r =
    in_scope only r.workflow_id db.workflows && is_due w.now grace r && not (w.locked r.id)

unfoldable pub select_work : World → ℕ → ℕ → String → Db → List Uuid
select_work w limit grace only db =
    ids (take limit (sorted (select (eligible w grace only db) db.operations)))

unfoldable pub highest_attempt : Uuid → List AttemptRow → ℕ
highest_attempt id [] = 0
highest_attempt id (a ∷ rows) =
    let rest = highest_attempt id rows in
    if a.operation_id == id && ltb rest a.attempt_number then a.attempt_number else rest

-- `SELECT coalesce(max(attempt_number),0)+1`, an error past the range of an `integer`
unfoldable pub next_attempt : Uuid → Db → Option (ℕ × Db)
next_attempt id db =
    let n = highest_attempt id db.attempts + 1 in if ltb n integer_limit then some (n, db) else none

unfoldable pub claimed_row : Time → String → String → ℕ → OperationRow → OperationRow
claimed_row time worker_id hash lease r = record r {
  lease = some (record { owner = worker_id; token_hash = hash; expires_at = time + lease });
  version = r.version + 1;
  updated_at = time;
}

unfoldable pub insert_attempt : Uuid → Uuid → ℕ → String → Db → Option (Unit {0} × Db)
insert_attempt attempt_id id number worker_id db = some (
  tt,
  record db {
    attempts =
        db.attempts
        ++ record {
          id = attempt_id;
          operation_id = id;
          attempt_number = number;
          claim_owner = worker_id;
          finished_at = none;
          result_class = none;
        }
          ∷ [];
  },
)

unfoldable pub claim_event : Uuid → OperationState → ℕ → String → Uuid → Time → NewEvent
claim_event id state version worker_id attempt_id expires = record {
  operation_id = id;
  event_type = recovery_claimed;
  from_state = some state;
  to_state = some state;
  operation_version = version;
  source = coordinator;
  actor = worker_id;
  reason_code = "lease_acquired";
  details = claim_details attempt_id expires;
}

-- One round of the loop over the selected identifiers.
unfoldable pub claim_one : String → ℕ → Uuid → Tx RecoveryClaim
claim_one worker_id lease id = do
  token ← draw (library_error "read random bytes") (λ w. w.random_token)
  hash ← ask (λ w. w.codec.sha256_hex token)
  attempt_id ← new_id
  number ← statement (unavailable_error "allocate reconciliation attempt") (next_attempt id)
  time ← now
  update_operation (unavailable_error "claim recovery operation") id
      (claimed_row time worker_id hash lease)
  stored ← returned (λ db. find id db.operations)
  row ← required (unavailable_error "claim recovery operation") stored
  statement (unavailable_error "create reconciliation attempt")
      (insert_attempt attempt_id id number worker_id)
  append_event (unavailable_error "append recovery claim")
      (claim_event id row.state row.version worker_id attempt_id (time + lease))
  op ← get_operation_tx id
  pure (record {
    operation = op;
    claim_token = token;
    attempt_id = attempt_id;
    lease_expires_at = time + lease;
    version = row.version;
  })

unfoldable pub claim_each : String → ℕ → List Uuid → Tx (List RecoveryClaim)
claim_each worker_id lease [] = pure []
claim_each worker_id lease (id ∷ rest) = do
  claim ← claim_one worker_id lease id
  claims ← claim_each worker_id lease rest
  pure (claim ∷ claims)

unfoldable pub claim_body : World → String → ℕ → ℕ → ℕ → String → Tx (List RecoveryClaim)
claim_body w worker_id limit lease grace only = do
  found ← query (unavailable_error "select recovery work") (select_work w limit grace only)
  claim_each worker_id lease found

unfoldable pub claim_recovery_for_workflow :
    String → ℕ → ℕ → ℕ → String → World → Db → Result (List RecoveryClaim) × Db
claim_recovery_for_workflow worker_id limit lease grace only w =
    run (unavailable_error "begin claim transaction") (unavailable_error "commit recovery claims")
      (claim_body w worker_id limit lease grace only) w

unfoldable pub claim_recovery : String → ℕ → ℕ → ℕ → World → Db → Result (List RecoveryClaim) × Db
claim_recovery worker_id limit lease grace =
    claim_recovery_for_workflow worker_id limit lease grace ""

abbrev extended : Time → Option Lease → Option Lease
extended expires none = none
extended expires (some l) = some (record l { expires_at = expires })

unfoldable pub renewed_lease : Time → ℕ → OperationRow → OperationRow
renewed_lease expires time r = record r { lease = extended expires r.lease; updated_at = time }

abbrev pub renew_found : Uuid → String → ℕ → World → Db → Option OperationRow → Result Time × Db
renew_found id hash duration w db none = (err lease_lost, db)
renew_found id hash duration w db (some r) =
    if live_lease hash w.now r.lease
    then settle w.commit (w.now + duration) (unavailable_error "renew recovery lease") db
        (record db { operations = put id (renewed_lease (w.now + duration) w.now r) db.operations })
    else (err lease_lost, db)

-- One statement with no transaction around it: it fails, is done, or is done with its answer lost.
unfoldable pub renew_claim : Uuid → String → ℕ → World → Db → Result Time × Db
renew_claim id token duration w db =
    if w.fails 0
    then (err (unavailable_error "renew recovery lease"), db)
    else renew_found id (w.codec.sha256_hex token) duration w db (find id db.operations)
