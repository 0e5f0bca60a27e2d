-- ===== src/Store/Refusals.antt =====
-- A call that is refused leaves the tables as they were: no method commits before it refuses, and
-- only a commit whose answer is lost changes them under an error, which is then `unavailable`.
use watchkeeper.Prelude.{
  ℕ, String, Bool, Option, none, some, inl, inr, Bool-cases, true, false, ◌≡◌, refl, if◌then◌else◌,
}
use watchkeeper.Domain.Types.{
  Uuid, validation, not_found, conflict, unavailable, Error, domain_error, library_error, Result,
  ok, err, PrepareRequest, ConfirmRequest, RecoveryResult, ManualResolution,
}
use watchkeeper.Domain.Fingerprint.{Encoded, encoded, failed}
use watchkeeper.Store.Rows.{OperationRow, Db}
use watchkeeper.Store.Tables.{find}
use watchkeeper.Store.Tx.{
  World, Session, Tx, CommitOutcome, committed, refused, answer_lost, unavailable_error, run,
  settle, finish,
}
use watchkeeper.Store.Prepare.{prepare}
use watchkeeper.Store.Confirm.{confirm, confirm_fingerprinted}
use watchkeeper.Store.Dispatch.{authorize_dispatch}
use watchkeeper.Store.Retry.{begin_retry, request_reconciliation}
use watchkeeper.Store.Claims.{claim_recovery, claim_recovery_for_workflow, renew_claim, renew_found}
use watchkeeper.Store.Results.{live_lease, valid_observation, submit_recovery_result}
use watchkeeper.Store.Manual.{manual_resolve}

-- The kinds that a guard of the store refuses with.
abbrev pub refuses : Error → Bool
refuses (library_error m) = false
refuses (domain_error e) = elim e.kind [
  | validation ↦ true
  | not_found ↦ true
  | conflict ↦ true
  | unavailable ↦ false
]

-- What failed by a refusal has changed nothing.
abbrev pub Kept : {A : Type 0} → Db → Result A × Db → Type 0
Kept db (ok a, new) = Unit {0}
Kept db (err e, new) = refuses e ≡ true → new ≡ db

settle-Kept :
    {A : Type 0} (o : CommitOutcome) (a : A) (action : String) (old new : Db)
    → Kept old (settle o a (unavailable_error action) old new)
unfolding unavailable_error
settle-Kept committed a action old new = tt
settle-Kept refused a action old new = λ h. refl
settle-Kept answer_lost a action old new = λ h. cc

finish-Kept :
    {A : Type 0} (r : Result (A × Session)) (w : World) (action : String) (db : Db)
    → Kept db (finish r w (unavailable_error action) db)
finish-Kept (ok (a, s)) w action db = settle-Kept w.commit a action db s.db
finish-Kept (err e) w action db = λ h. refl

begun-Kept :
    {A : Type 0} (failed : Bool) (e : Error) (db : Db) (r : Result A × Db)
    → Kept db r
    → Kept db (if failed then (err e, db) else r)
begun-Kept true e db r h = λ _. refl
begun-Kept false e db r h = h

pub run-Kept :
    {A : Type 0} (begin_error : Error) (action : String) (body : Tx A) (w : World) (db : Db)
    → Kept db (run begin_error (unavailable_error action) body w db)
unfolding run
run-Kept b action body w db =
    begun-Kept (w.fails 0) b db _ (finish-Kept (body w (record { db = db; calls = 1 })) w action db)

pub prepare-Kept : (req : PrepareRequest) (w : World) (db : Db) → Kept db (prepare req w db)
unfolding prepare
prepare-Kept req w db = run-Kept _ _ _ w db

confirm_fingerprinted-Kept :
    (id : Uuid) (req : ConfirmRequest) (e : Encoded) (w : World) (db : Db)
    → Kept db (confirm_fingerprinted id req e w db)
confirm_fingerprinted-Kept id req (encoded text) w db = run-Kept _ _ _ w db
confirm_fingerprinted-Kept id req (failed m) w db = λ _. refl

pub confirm-Kept :
    (id : Uuid) (req : ConfirmRequest) (w : World) (db : Db) → Kept db (confirm id req w db)
unfolding confirm
confirm-Kept id req w db = confirm_fingerprinted-Kept id req _ w db

pub authorize_dispatch-Kept :
    (id : Uuid) (version : ℕ) (w : World) (db : Db) → Kept db (authorize_dispatch id version w db)
unfolding authorize_dispatch
authorize_dispatch-Kept id version w db = run-Kept _ _ _ w db

pub begin_retry-Kept :
    (id : Uuid) (version : ℕ) (reason : String) (w : World) (db : Db)
    → Kept db (begin_retry id version reason w db)
unfolding begin_retry
begin_retry-Kept id version reason w db = run-Kept _ _ _ w db

pub request_reconciliation-Kept :
    (id : Uuid) (version : ℕ) (actor reason : String) (w : World) (db : Db)
    → Kept db (request_reconciliation id version actor reason w db)
unfolding request_reconciliation
request_reconciliation-Kept id version actor reason w db = run-Kept _ _ _ w db

pub claim_recovery-Kept :
    (worker : String) (limit lease grace : ℕ) (w : World) (db : Db)
    → Kept db (claim_recovery worker limit lease grace w db)
unfolding claim_recovery claim_recovery_for_workflow
claim_recovery-Kept worker limit lease grace w db = run-Kept _ _ _ w db

renew_found-Kept :
    (id : Uuid) (hash : String) (duration : ℕ) (w : World) (db : Db) (o : Option OperationRow)
    → Kept db (renew_found id hash duration w db o)
renew_found-Kept id hash duration w db none = λ _. refl
renew_found-Kept id hash duration w db (some r) =
    elim (Bool-cases (live_lease hash w.now r.lease)) [
      | inl live ↦ rw live (settle-Kept w.commit _ _ db _)
      | inr lost ↦ rw lost (λ _. refl)
    ]

pub renew_claim-Kept :
    (id : Uuid) (token : String) (duration : ℕ) (w : World) (db : Db)
    → Kept db (renew_claim id token duration w db)
unfolding renew_claim
renew_claim-Kept id token duration w db =
    begun-Kept (w.fails 0) _ db _
      (renew_found-Kept id (w.codec.sha256_hex token) duration w db (find id db.operations))

submit_checked-Kept :
    {A : Type 0} (valid : Bool) (e : Error) (db : Db) (r : Result A × Db)
    → Kept db r
    → Kept db (if valid then r else (err e, db))
submit_checked-Kept true e db r h = h
submit_checked-Kept false e db r h = λ _. refl

pub submit_recovery_result-Kept :
    (id : Uuid) (result : RecoveryResult) (w : World) (db : Db)
    → Kept db (submit_recovery_result id result w db)
unfolding submit_recovery_result
submit_recovery_result-Kept id result w db =
    submit_checked-Kept (valid_observation result.observation) _ db _ (run-Kept _ _ _ w db)

pub manual_resolve-Kept :
    (id : Uuid) (resolution : ManualResolution) (w : World) (db : Db)
    → Kept db (manual_resolve id resolution w db)
unfolding manual_resolve
manual_resolve-Kept id resolution w db = run-Kept _ _ _ w db
