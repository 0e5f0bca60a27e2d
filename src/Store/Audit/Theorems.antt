-- ===== src/Store/Audit/Theorems.antt =====
-- The audit trail of internal/store: what the events of an operation tell of its row, after any calls.
use watchkeeper.Prelude.{ℕ, select, refl, arith, ap, ◌∙◌, ◌+◌, ◌≤◌, ◌≡◌, some, List, [], ◌∷◌}
use watchkeeper.Domain.Types.{Uuid}
use watchkeeper.Store.Rows.{OperationRow, Db, empty_db}
use watchkeeper.Store.Tables.{find}
use watchkeeper.Store.Tx.{World}
use watchkeeper.Store.Calls.{Call, perform, serve}
use watchkeeper.Store.Calls.Steps.{perform-Changes}
use watchkeeper.Store.Audit.Attempts.{
  starts, grants_in, one_if, replay-Present, replay-Once, replay-starts,
}
use watchkeeper.Store.Audit.{follows, grants, progress, unopened, replay, history, trail}
use watchkeeper.Store.Audit.Replay.{
  replay-versions, replay-grants, count_from, versions, unsent, Gapless,
}
use watchkeeper.Store.Audit.Invariant.{Audited, Changes-Audited}

pub perform-Audited : (c : Call) (w : World) (db : Db) → Audited db → Audited (perform c w db)
perform-Audited c w db h = Changes-Audited (perform-Changes c w db h.keys) h

serve_from-Audited : (db : Db) (calls : List (World × Call)) → Audited db → Audited (serve db calls)
unfolding serve
serve_from-Audited db [] h = h
serve_from-Audited db ((w, c) ∷ rest) h =
    serve_from-Audited (perform c w db) rest (perform-Audited c w db h)

pub empty_db-Audited : Audited empty_db
unfolding history replay trail find select
empty_db-Audited = record { keys = tt; trails = λ id. refl }

pub serve-Audited : (calls : List (World × Call)) → Audited (serve empty_db calls)
serve-Audited calls = serve_from-Audited empty_db calls empty_db-Audited

-- After any calls, failing or not, from empty tables, the events of an operation, replayed by the
-- auditor, give exactly the version, the state, the attempts and the permission of its row, and an
-- operation that is not there has no events.
pub replay-history :
    (calls : List (World × Call)) (id : Uuid)
    → replay unopened (history id (serve empty_db calls))
      ≡ trail (find id (serve empty_db calls).operations)
replay-history calls id = (serve-Audited calls).trails id

-- The trail of a row that is there.
pub row_trail :
    (calls : List (World × Call)) (id : Uuid) (r : OperationRow)
    → find id (serve empty_db calls).operations ≡ some r
    → replay unopened (history id (serve empty_db calls)) ≡ follows (progress r)
unfolding trail
row_trail calls id r found = replay-history calls id ∙ ap trail found

-- For every row that any calls leave: its attempts are as many as its events that begin one, an intent
-- or a retry; in each attempt its events grant at most one dispatch; in the present attempt they grant
-- one if `dispatch_authorized` is set and none otherwise; and its grants, with one for a present attempt
-- that has none, are no more than its attempts.
pub grants-attempts :
    (calls : List (World × Call)) (id : Uuid) (r : OperationRow) (n : ℕ)
    → find id (serve empty_db calls).operations ≡ some r
    → (starts (history id (serve empty_db calls)) ≡ r.attempt_count)
      × (grants_in 0 n (history id (serve empty_db calls)) ≤ 1)
      × (grants_in 0 r.attempt_count (history id (serve empty_db calls))
          ≡ one_if r.dispatch_authorized)
      × (grants (history id (serve empty_db calls)) + unsent r.dispatch_authorized
          ≤ r.attempt_count)
unfolding progress
grants-attempts calls id r n found =
    let followed = row_trail calls id r found in
    let events = history id (serve empty_db calls) in
    (
      omega (arith, replay-starts unopened (progress r) events followed),
      omega (arith, replay-Once unopened (progress r) n events followed),
      omega (arith, replay-Present unopened (progress r) events followed),
      ground (arith, replay-grants unopened (progress r) events followed),
    )

-- For every row that any calls leave, the versions of its events are 1, 2, 3 and so on up to the
-- version of the row, in this order, without a gap or a repeat.
pub versions-history :
    (calls : List (World × Call)) (id : Uuid) (r : OperationRow)
    → find id (serve empty_db calls).operations ≡ some r
    → versions (history id (serve empty_db calls)) ≡ count_from 1 r.version
unfolding progress trail Gapless
versions-history calls id r found =
    let g =
      replay-versions unopened (progress r) (history id (serve empty_db calls))
        (replay-history calls id ∙ ap trail found) in
    g.0 ∙ ap (count_from 1) (omega (arith, g.1))
