-- ===== src/Store/Pages/Bounds.antt =====
-- What a page of events holds.
use watchkeeper.Prelude.{
  subst, if◌then◌else◌, All-map, select, String, Bool, ℕ, suc, ◌≤◌, ◌≡◌, true, false, some, List,
  [], ◌∷◌, length, take, ◌<◌, length-take_le, arith, Bool-cases, inl, inr, All, All-take,
  All-select, ltb,
}
use watchkeeper.Domain.Types.{Uuid, Event, EventPage, Result, ok, err, Operation}
use watchkeeper.Store.Rows.{Db}
use watchkeeper.Store.Tx.{World}
use watchkeeper.Store.Ensures.{ok-injective}
use watchkeeper.Store.Pages.{
  get_operation, unavailable_error, decode_event_cursor, CursorCodec, event_page, list_events,
  after_cursor, page_of, page_from,
}

event_page-bounds :
    (P : Event → Type 0) (c : CursorCodec) (limit : ℕ) (rows : List Event)
    → All P rows
    → (length (event_page c limit rows).items ≤ limit) × All P (event_page c limit rows).items
unfolding event_page
event_page-bounds P c limit rows h = elim (Bool-cases (ltb limit (length rows))) [
  | inl more ↦ rw more (length-take_le limit rows, All-take P limit rows h)
  | inr fits ↦ rw fits (ground arith, h)
]

All-any : (rows : List Event) → All (λ e. Unit {0}) rows
All-any [] = tt
All-any (e ∷ rows) = (tt, All-any rows)

selected :
    (p : Event → Bool) (n : ℕ) (rows : List Event) → All (λ e. p e ≡ true) (take n (select p rows))
selected p n rows =
    All-take (λ e. p e ≡ true) n (select p rows)
      (All-map (λ e. Unit {0} × (p e ≡ true)) (λ e. p e ≡ true) (select p rows) (λ e h. h.1)
        (All-select (λ e. Unit {0}) p rows (All-any rows)))

-- What a page of an operation's events past a cursor can hold.
abbrev pub OnPage : Uuid → ℕ → Event → Type 0
OnPage id cursor e = (e.operation_id ≡ id) × (cursor < e.id)

after_cursor-OnPage :
    (id : Uuid) (cursor : ℕ) (e : Event) → after_cursor id cursor e ≡ true → OnPage id cursor e
unfolding after_cursor
after_cursor-OnPage id cursor e h = (ground (arith, h), ground (arith, h))

-- A page of events has no more than the limit, all of them of the operation and past the cursor.
pub list_events-bounds :
    (c : CursorCodec) (id : Uuid) (limit : ℕ) (text : String) (w : World) (db : Db) (cursor : ℕ)
    (page : EventPage)
    → decode_event_cursor c text ≡ some cursor
    → list_events c id limit text w db ≡ ok page
    → (length page.items ≤ limit) × All (λ e. OnPage id cursor e) page.items
unfolding list_events
list_events-bounds c id limit text w db cursor page decoded h =
    by_operation (get_operation id w db) h
  where
    Holds : EventPage → Type 0
    Holds p = (length p.items ≤ limit) × All (λ e. OnPage id cursor e) p.items

    by_failure :
        (failed : Bool)
        → (if failed
            then err (unavailable_error "list events")
            else ok
                (event_page c limit (take (suc limit) (select (after_cursor id cursor) db.events))))
          ≡ ok page
        → (length page.items ≤ limit) × All (λ e. OnPage id cursor e) page.items
    by_failure true h = cc
    by_failure false h = subst Holds (ok-injective h) (
        event_page-bounds (λ e. OnPage id cursor e) c limit _
          (All-map (λ e. after_cursor id cursor e ≡ true) (λ e. OnPage id cursor e) _
            (λ e. after_cursor-OnPage id cursor e)
            (selected (after_cursor id cursor) (suc limit) db.events)))

    by_operation :
        (r : Result Operation)
        → page_of c id limit text w db r ≡ ok page
        → (length page.items ≤ limit) × All (λ e. OnPage id cursor e) page.items
    by_operation (err e) h = cc
    by_operation (ok op) h =
        by_failure (w.fails 2) (subst (λ o. page_from c id limit text w db o ≡ ok page) decoded h)
