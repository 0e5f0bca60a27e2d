-- ===== src/Api/Sizes.antt =====
-- How much an answer of the server lists: 200 operations or events, or 100 claims.
use watchkeeper.Prelude.{
  ℕ, ◌≤◌, ◌≡◌, refl, arith, inl, inr, Bool-cases, zero, suc, String, Bool, true, false, Option,
  none, some, ℤ, pos, negsuc, outside, magnitude, str_eq, if◌then◌else◌,
}
use watchkeeper.Domain.Types.{Time, Result, ok, err, new_error, validation}
use watchkeeper.Api.Http.{
  Response, answered, passed, invalid, write_json, write_error, operations_body, events_body,
  claims_body,
}
use watchkeeper.Store.Rows.{Db}
use watchkeeper.Store.Tx.{World}
use watchkeeper.Api.Payloads.{Formats, Request, parse_limit}
use watchkeeper.Api.Server.{
  Server, Moment, guard, authenticate, dispatch, identified, guarded, handle, unauthorized,
  get_operations, get_events, post_claims,
}
use watchkeeper.Api.Operations.{list_operations_handler, list_events_handler}
use watchkeeper.Api.Recovery.{claim_recovery_handler}
use watchkeeper.Api.Operations.{limited, list_checks, events_checks, created_filter}
use watchkeeper.Api.Recovery.{claim_checks, or_default, lease_micros}
use watchkeeper.Api.Checks.{
  Establish-passed, listed, Establish, Establish-bind, Establish-unless, Establish-error,
  Establish-or_answer, Establish-decode_json, checked-listed,
}
use watchkeeper.Store.Sizes.{list_events-size, list_operations-size, claim_recovery-size}
use watchkeeper.Store.Pages.{list_events}
use watchkeeper.Store.Listing.{list_operations}
use watchkeeper.Store.Claims.{claim_recovery}

parse_limit-bounds : (raw : String) (n : ℕ) → parse_limit raw ≡ ok n → (1 ≤ n) × (n ≤ 200)
unfolding parse_limit
parse_limit-bounds raw n h = ground arith

Establish-limited :
    (request_id : String) (o : Result ℕ) (P : ℕ → Type 0)
    → ((n : ℕ) → o ≡ ok n → P n)
    → Establish (limited request_id o) P
Establish-limited request_id (ok n) P h = Establish-passed n P (h n refl)
Establish-limited request_id (err e) P h = Establish-error request_id e P

Establish-created :
    (f : Formats) (r : Request) (P : Option Time → Type 0)
    → ((o : Option Time) → P o)
    → Establish (created_filter f r) P
unfolding invalid write_error
Establish-created f r P h =
    by_query (str_eq r.query_created_after "") (f.parse_time r.query_created_after)
  where
    by_query :
        (b : Bool) (o : Option Time)
        → Establish
            (if b then passed none else elim o [
              | none ↦
                  answered
                    (invalid r.request_id "invalid_created_after" "created_after must use RFC3339")
              | some time ↦ passed (some time)
            ])
            P
    by_query true o = Establish-passed none P (h none)
    by_query false none =
        Establish-error r.request_id
          (new_error validation "invalid_created_after" "created_after must use RFC3339") P
    by_query false (some time) = Establish-passed (some time) P (h (some time))

list_checks-Establish :
    (f : Formats) (r : Request) → Establish (list_checks f r) (λ filter. filter.limit ≤ 200)
list_checks-Establish f r = Establish-bind _ _ _ (
    Establish-limited r.request_id (parse_limit r.query_limit) _ λ n is_ok. Establish-bind _ _ _ (
      Establish-unless _ r.request_id _ _ _ λ _. Establish-bind (created_filter f r) _ _ (
        Establish-created f r _
          λ o. Establish-passed _ _ (parse_limit-bounds r.query_limit n is_ok).1)))

events_checks-Establish :
    (f : Formats) (r : Request) → Establish (events_checks f r) (λ x. x.1 ≤ 200)
events_checks-Establish f r = Establish-bind _ _ _ (
    Establish-or_answer (f.parse_uuid r.operation_id) r.request_id _ _ _ λ id _.
      Establish-bind _ _ _ (
        Establish-limited r.request_id (parse_limit r.query_limit) _
          λ n is_ok. Establish-passed _ _ (parse_limit-bounds r.query_limit n is_ok).1))

limit_of : (i : ℤ) → outside 1 100 (or_default 20 i) ≡ false → magnitude (or_default 20 i) ≤ 100
limit_of (pos zero) h = omega arith
limit_of (pos (suc n)) h = ground arith
limit_of (negsuc n) h = ground arith

claim_checks-Establish :
    (f : Formats) (r : Request)
    → Establish (claim_checks f r) (λ p. magnitude (or_default 20 p.limit) ≤ 100)
claim_checks-Establish f r = Establish-bind _ _ _ (
    Establish-decode_json r.request_id (f.decode_claim r.body) _ λ p _. Establish-bind _ _ _ (
      Establish-unless _ r.request_id _ _ _ λ _. Establish-bind _ _ _ (
        Establish-unless _ r.request_id _ _ _ λ inside. Establish-bind _ _ _ (
          Establish-unless _ r.request_id _ _ _
            λ _. Establish-passed _ _ (limit_of p.limit inside)))))

module _ (f : Formats) (r : Request) (w : World) (db : Db) where
  list_operations_handler-listed : listed (list_operations_handler f r w db).0.body ≤ 200
  unfolding list_operations_handler listed write_json
  list_operations_handler-listed =
      checked-listed (list_checks f r) (λ filter. filter.limit ≤ 200) db r.request_id
        (λ page. write_json 200 (operations_body page))
        (λ filter. (list_operations f.operations filter w db, db)) 200 (list_checks-Establish f r)
        λ filter page low is_ok.
          omega (arith, list_operations-size f.operations filter w db page is_ok)

  list_events_handler-listed : listed (list_events_handler f r w db).0.body ≤ 200
  unfolding list_events_handler listed write_json
  list_events_handler-listed =
      checked-listed (events_checks f r) (λ x. x.1 ≤ 200) db r.request_id
        (λ page. write_json 200 (events_body page))
        (λ x. (list_events f.events x.0 x.1 r.query_cursor w db, db)) 200
        (events_checks-Establish f r)
        λ x page low is_ok.
          omega (arith, list_events-size f.events x.0 x.1 r.query_cursor w db page is_ok)

  claim_recovery_handler-listed :
      (grace : ℕ) → listed (claim_recovery_handler f r grace w db).0.body ≤ 100
  unfolding claim_recovery_handler listed write_json
  claim_recovery_handler-listed grace =
      checked-listed (claim_checks f r) (λ p. magnitude (or_default 20 p.limit) ≤ 100) db
        r.request_id (λ claims. write_json 200 (claims_body claims))
        (λ p.
          claim_recovery p.worker_id (magnitude (or_default 20 p.limit))
            (lease_micros p.lease_duration_ms) grace w db)
        100 (claim_checks-Establish f r)
        λ p claims low is_ok. omega (
          arith,
          claim_recovery-size p.worker_id (magnitude (or_default 20 p.limit))
              (lease_micros p.lease_duration_ms) grace w db claims is_ok,
        )

guarded-listed :
    (g : Option String) (r : Request) (db : Db) (x : Response × Db) (n : ℕ)
    → listed x.0.body ≤ n
    → listed (guarded g r db x).0.body ≤ n
unfolding unauthorized invalid write_error write_json listed
guarded-listed none r db x n h = h
guarded-listed (some t) r db x n h = elim (Bool-cases (authenticate t r)) [
  | inl same ↦ rw same h
  | inr other ↦ rw other (omega arith)
]

-- However the requests and the tables are, a listing answers at most 200 operations or 200 events, and
-- a claim at most 100 claims.
pub handle-listed :
    (s : Server) (m : Moment) (r : Request) (db : Db)
    → (listed (handle s m get_operations r db).0.body ≤ 200)
      × (listed (handle s m get_events r db).0.body ≤ 200)
      × (listed (handle s m post_claims r db).0.body ≤ 100)
unfolding handle guard dispatch
handle-listed s m r db =
    let x = identified m.fresh_id r in
    (
      guarded-listed (some s.auth_token) x db _ 200
          (list_operations_handler-listed s.formats x m.world db),
      guarded-listed (some s.auth_token) x db _ 200
          (list_events_handler-listed s.formats x m.world db),
      guarded-listed (some s.admin_token) x db _ 100
          (claim_recovery_handler-listed s.formats x m.world db s.prepared_grace),
    )
