-- ===== src/Api/Grants.antt =====
-- The grants that the server gives: every answer to a dispatch that is no error is an event.
use watchkeeper.Prelude.{
  ℕ, ◌≤◌, ◌<◌, ◌≡◌, refl, arith, inl, inr, ◌⊎◌, suc, ◌+◌, String, Bool, true, false, Option, none,
  some, List, [], ◌∷◌, ◌==◌, ◌&&◌, below_one, magnitude, if◌then◌else◌,
}
use watchkeeper.Domain.Types.{Uuid}
use watchkeeper.Api.Http.{
  error_status, Response, unless, invalid, decode_json, write_json, write_error,
}
use watchkeeper.Store.Rows.{Db}
use watchkeeper.Store.Tx.{World}
use watchkeeper.Api.Payloads.{path_id, operation_with, Formats, Request}
use watchkeeper.Api.Server.{
  Server, Moment, Endpoint, guard, dispatch, identified, guarded, handle, unauthorized, health_live,
  health_ready, post_operations, get_operations, get_one_operation, get_events, post_confirmations,
  post_dispatches, post_attempts, post_reconciliation_requests, post_manual_resolutions,
  post_claims, post_renew, post_results,
}
use watchkeeper.Api.Operations.{authorize_dispatch_handler}
use watchkeeper.Api.Operations.{dispatch_checks}
use watchkeeper.Api.Checks.{
  Establish, Establish-passed, Establish-bind, Establish-unless, Establish-or_answer,
  Establish-decode_json, checked-success,
}
use watchkeeper.Api.Calls.{Visit, visited, visited-serve, handle-Served}
use watchkeeper.Prelude.{subst, ap, ◌∙◌, sym, ==_iff, some-equal}
use watchkeeper.Store.Rows.{empty_db, OperationRow}
use watchkeeper.Store.Tables.{find}
use watchkeeper.Store.Dispatch.{authorize_dispatch}
use watchkeeper.Store.Audit.Attempts.{starts}
use watchkeeper.Store.Audit.{history, grants}
use watchkeeper.Store.Audit.Grown.{authorize-grown, Changes-grown}
use watchkeeper.Store.Audit.Theorems.{grants-attempts, perform-Audited, empty_db-Audited}
use watchkeeper.Store.Audit.Invariant.{Audited}
use watchkeeper.Store.Calls.{Call, perform, serve}
use watchkeeper.Store.Calls.Steps.{perform-Changes}

dispatch_checks-Establish :
    (f : Formats) (r : Request)
    → Establish (dispatch_checks f r) (λ x. f.parse_uuid r.operation_id ≡ some x.0)
dispatch_checks-Establish f r = Establish-bind (path_id f r) _ _ (
    Establish-or_answer (f.parse_uuid r.operation_id) _ _ _ _ λ id same.
      Establish-bind (decode_json r.request_id (f.decode_dispatch r.body)) _ _ (
        Establish-decode_json _ (f.decode_dispatch r.body) _ λ p _.
          Establish-bind (unless (below_one p.expected_version) _) _ _ (
            Establish-unless (below_one p.expected_version) _ _ _ _
              λ _. Establish-passed _ _ same)))

-- A dispatch that is answered without an error adds a grant to the operation of its path.
handler-grown :
    (f : Formats) (r : Request) (w : World) (db : Db) (id : Uuid)
    → f.parse_uuid r.operation_id ≡ some id
    → (authorize_dispatch_handler f r w db).0.status < 400
    → grants (history id (authorize_dispatch_handler f r w db).1) ≡ suc (grants (history id db))
unfolding authorize_dispatch_handler
handler-grown f r w db id path low =
    let (x, op, same_path, is_ok, same) =
      checked-success (dispatch_checks f r) (λ x. f.parse_uuid r.operation_id ≡ some x.0) db
        r.request_id (operation_with 200)
        (λ x. authorize_dispatch x.0 (magnitude x.1.expected_version) w db)
        (dispatch_checks-Establish f r) low in
    ap (λ y. grants (history id y.1)) same
    ∙ subst
        (λ i.
          grants (history i (authorize_dispatch x.0 (magnitude x.1.expected_version) w db).1)
          ≡ suc (grants (history i db)))
        (some-equal (sym same_path ∙ path))
        (authorize-grown x.0 (magnitude x.1.expected_version) w db op is_ok)

abbrev names : Uuid → Option Uuid → Bool
names id none = false
names id (some i) = i == id

-- The answer gives the client leave to send the operation.
unfoldable pub gives_grant : Server → Uuid → Endpoint → Request → Response → Bool
gives_grant s id post_dispatches r answer =
    names id (s.formats.parse_uuid r.operation_id) && answer.status == 200
gives_grant s id _ r answer = false

unfoldable pub granted_answers : Server → Uuid → Db → List Visit → ℕ
granted_answers s id db [] = 0
granted_answers s id db (v ∷ rest) =
    let x = handle s v.moment v.endpoint v.request db in
    let n = granted_answers s id x.1 rest in
    if gives_grant s id v.endpoint v.request x.0 then suc n else n

names-some : (id : Uuid) (o : Option Uuid) → names id o ≡ true → o ≡ some id
names-some id none h = ground arith
names-some id (some i) h = ap some ((==_iff i id).0 h)

identified-operation_id :
    (fresh : String) (r : Request) → (identified fresh r).operation_id ≡ r.operation_id
unfolding identified
identified-operation_id fresh r = ground arith

guarded-grown :
    (t : String) (r : Request) (db : Db) (x : Response × Db) (id : Uuid)
    → (x.0.status < 400 → grants (history id x.1) ≡ suc (grants (history id db)))
    → (guarded (some t) r db x).0.status ≡ 200
    → grants (history id (guarded (some t) r db x).1) ≡ suc (grants (history id db))
unfolding unauthorized invalid write_error write_json error_status
guarded-grown t r db x id h is_ok = ground (arith, h)

handle-grown :
    (s : Server) (m : Moment) (e : Endpoint) (r : Request) (db : Db) (id : Uuid)
    → gives_grant s id e r (handle s m e r db).0 ≡ true
    → grants (history id (handle s m e r db).1) ≡ suc (grants (history id db))
unfolding gives_grant handle guard dispatch
handle-grown s m post_dispatches r db id h =
    guarded-grown s.auth_token (identified m.fresh_id r) db _ id
      (handler-grown s.formats (identified m.fresh_id r) m.world db id (
        ap s.formats.parse_uuid (identified-operation_id m.fresh_id r)
        ∙ names-some id (s.formats.parse_uuid r.operation_id) (ground arith)))
      (ground arith)
handle-grown s m health_live r db id h = ground arith
handle-grown s m health_ready r db id h = ground arith
handle-grown s m post_operations r db id h = ground arith
handle-grown s m get_operations r db id h = ground arith
handle-grown s m get_one_operation r db id h = ground arith
handle-grown s m get_events r db id h = ground arith
handle-grown s m post_confirmations r db id h = ground arith
handle-grown s m post_attempts r db id h = ground arith
handle-grown s m post_reconciliation_requests r db id h = ground arith
handle-grown s m post_manual_resolutions r db id h = ground arith
handle-grown s m post_claims r db id h = ground arith
handle-grown s m post_renew r db id h = ground arith
handle-grown s m post_results r db id h = ground arith

Served-grown :
    (id : Uuid) (w : World) (db new : Db)
    → Audited db
    → (new ≡ db) ⊎ ((c : Call) × (new ≡ perform c w db))
    → Audited new × (grants (history id db) ≤ grants (history id new))
Served-grown id w db new h (inl same) =
    subst (λ d. Audited d × (grants (history id db) ≤ grants (history id d))) (sym same)
      (h, omega arith)
Served-grown id w db new h (inr (c, same)) =
    subst (λ d. Audited d × (grants (history id db) ≤ grants (history id d))) (sym same)
      (perform-Audited c w db h, Changes-grown id (perform-Changes c w db h.keys))

count_answer :
    (b : Bool) (n low middle high : ℕ)
    → n + middle ≤ high
    → low ≤ middle
    → (b ≡ true → middle ≡ suc low)
    → (if b then suc n else n) + low ≤ high
count_answer true n low middle high h k g = omega (arith, g refl)
count_answer false n low middle high h k g = omega arith

visited-grown :
    (s : Server) (id : Uuid) (db : Db) (visits : List Visit)
    → Audited db
    → granted_answers s id db visits + grants (history id db)
      ≤ grants (history id (visited s db visits))
unfolding granted_answers visited
visited-grown s id db [] h = omega arith
visited-grown s id db (v ∷ rest) h =
    let (next, more) =
      Served-grown id v.moment.world db _ h (handle-Served s v.moment v.endpoint v.request db) in
    count_answer _ _ _ _ _
      (visited-grown s id (handle s v.moment v.endpoint v.request db).1 rest next) more
      (handle-grown s v.moment v.endpoint v.request db id)

-- The theorems of the audit speak of calls; requests come down to calls.
calls-attempts :
    (calls : List (World × Call)) (id : Uuid) (db : Db) (r : OperationRow)
    → db ≡ serve empty_db calls
    → find id db.operations ≡ some r
    → (grants (history id db) ≤ r.attempt_count) × (starts (history id db) ≡ r.attempt_count)
calls-attempts calls id db r same found =
    let whole = grants-attempts calls id r 0 (ap (λ d. find id d.operations) (sym same) ∙ found) in
    (
      omega (arith, ap (λ d. grants (history id d)) same, whole.3),
      ap (λ d. starts (history id d)) same ∙ whole.0,
    )

-- From empty tables, whatever requests the server is sent, and whatever fails: for a row that is there
-- in the end, the answers of status 200 to requests to dispatch its operation are no more than its
-- attempts, and its attempts are as many as its events that begin one, an intent or a retry.
pub answers-attempts :
    (s : Server) (visits : List Visit) (id : Uuid) (r : OperationRow)
    → find id (visited s empty_db visits).operations ≡ some r
    → (granted_answers s id empty_db visits ≤ r.attempt_count)
      × (starts (history id (visited s empty_db visits)) ≡ r.attempt_count)
answers-attempts s visits id r found =
    let (calls, same) = visited-serve s empty_db visits in
    let low = visited-grown s id empty_db visits empty_db-Audited in
    let (high, begun) = calls-attempts calls id (visited s empty_db visits) r same found in
    (omega arith, begun)
