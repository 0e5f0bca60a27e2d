-- ===== src/Store/Audit/Grown.antt =====
-- The grants of a history only grow, and a grant that is answered adds one.
use watchkeeper.Prelude.{
  ℕ, suc, ◌+◌, ◌≤◌, ◌≡◌, refl, ap, ◌∙◌, arith, List, [], ◌∷◌, ◌++◌, select, select-append, ==_self,
}
use watchkeeper.Domain.Types.{Uuid, Time, Event, Operation, ok}
use watchkeeper.Store.Rows.{Db}
use watchkeeper.Store.Tx.{World}
use watchkeeper.Store.Queries.{stamp}
use watchkeeper.Store.Dispatch.{authorize_dispatch, dispatch_event}
use watchkeeper.Store.Dispatch.Granted.{Granted, authorize-Granted}
use watchkeeper.Store.Changes.{Changes, Change, done, more, keeps, creates, writes, renews}
use watchkeeper.Store.Audit.{about, history, is_grant, grants}

grants-append : (xs ys : List Event) → grants (xs ++ ys) ≡ grants xs + grants ys
unfolding grants
grants-append [] ys = omega arith
grants-append (x ∷ xs) ys = ground (arith, grants-append xs ys)

history-append :
    (id : Uuid) (a b : Db) (e : Event)
    → b.events ≡ a.events ++ e ∷ []
    → grants (history id b) ≡ grants (history id a) + grants (select (about id) (e ∷ []))
unfolding history
history-append id a b e h =
    ap (λ xs. grants (select (about id) xs)) h
    ∙ ap grants (select-append (about id) a.events (e ∷ []))
    ∙ grants-append (select (about id) a.events) (select (about id) (e ∷ []))

Change-grown : (id : Uuid) {a b : Db} → Change a b → grants (history id a) ≤ grants (history id b)
unfolding history
Change-grown id (keeps rows events) = omega (arith, ap (λ xs. grants (select (about id) xs)) events)
Change-grown id {a} {b} (creates time i workflow_id req n fresh rows events) =
    omega (arith, history-append id a b _ events)
Change-grown id {a} {b} (writes time i old new e n found w rows events) =
    omega (arith, history-append id a b _ events)
Change-grown id (renews time expires i old l found held rows events) =
    omega (arith, ap (λ xs. grants (select (about id) xs)) events)

pub Changes-grown :
    (id : Uuid) {a b : Db} → Changes a b → grants (history id a) ≤ grants (history id b)
Changes-grown id done = omega arith
Changes-grown id (more steps step) = omega (arith, Changes-grown id steps, Change-grown id step)

one_grant :
    (id : Uuid) (n : ℕ) (time : Time) (version : ℕ)
    → grants (select (about id) (stamp n time (dispatch_event id version) ∷ [])) ≡ 1
unfolding grants select about stamp dispatch_event is_grant
one_grant id n time version = rw (==_self id) refl

Granted-grown :
    (id : Uuid) (version : ℕ) (w : World) (a b : Db)
    → Granted id version w a b
    → grants (history id b) ≡ suc (grants (history id a))
Granted-grown id version w a b g = omega (
  arith,
  history-append id a b (stamp a.next_event_id w.now (dispatch_event id version)) g.appended,
  one_grant id a.next_event_id w.now version,
)

pub authorize-grown :
    (id : Uuid) (version : ℕ) (w : World) (db : Db) (op : Operation)
    → (authorize_dispatch id version w db).0 ≡ ok op
    → grants (history id (authorize_dispatch id version w db).1) ≡ suc (grants (history id db))
authorize-grown id version w db op h =
    Granted-grown id version w db _ (authorize-Granted id version w db op h)
