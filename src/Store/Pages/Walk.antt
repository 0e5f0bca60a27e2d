-- ===== src/Store/Pages/Walk.antt =====
-- Following the cursors of `ListEvents` from the first page to the last.
use watchkeeper.Prelude.{
  ℕ, zero, suc, ◌<◌, ◌≡◌, refl, sym, ap, ◌∙◌, String, true, false, some, List, ◌++◌, ◌==◌, arith,
  str_eq, if◌then◌else◌, ltb, length, take, select, All, All-map, All-select, Bool-cases, ltb→lt,
  inl, inr,
}
use watchkeeper.Domain.Types.{Uuid, Event, EventPage, Operation, library_error, Result, ok, err}
use watchkeeper.Store.Rows.{Db}
use watchkeeper.Store.Tx.{World}
use watchkeeper.Store.Audit.{history}
use watchkeeper.Store.Pages.{
  CursorCodec, get_operation, decode_event_cursor, event_page, list_events, after_cursor, last_id,
}
use watchkeeper.Store.Pages.Ordered.{
  select_first, Ascending, drop, take-drop, length-drop, take_all, take-take, length-take_more,
  select_implied, select-Ascending, Of, select_past, All-any, after_is, after_still, last_id-past,
}

abbrev prepended : List Event → Result (List Event) → Result (List Event)
prepended items (ok rest) = ok (items ++ rest)
prepended items (err e) = err e

abbrev with_next : EventPage → Result (List Event) → Result (List Event)
with_next page rest =
    if str_eq page.next_cursor "" then ok page.items else prepended page.items rest

abbrev collected : Result EventPage → (String → Result (List Event)) → Result (List Event)
collected (err e) next = err e
collected (ok page) next = with_next page (next page.next_cursor)

-- What a reader collects that asks for page after page, `fuel` pages at most.
unfoldable pub walk : CursorCodec → Uuid → ℕ → World → Db → ℕ → String → Result (List Event)
walk c id limit w db zero text = err (library_error "too many pages")
walk c id limit w db (suc fuel) text =
    collected (list_events c id limit text w db) λ next. walk c id limit w db fuel next

-- A cursor is read as it was written, and its text is not empty.
pub record Reads (c : CursorCodec) : Type 0 where
  pub back : (n : ℕ) → c.decode_id (c.encode_id n) ≡ some n
  pub non_empty : (n : ℕ) → str_eq (c.encode_id n) "" ≡ false

module _ (c : CursorCodec) (id : Uuid) (l : ℕ) (w : World) (db : Db) (op : Operation)
    (reads : Reads c) (found : get_operation id w db ≡ ok op) (fine : w.fails 2 ≡ false)
    (ascending : Ascending db.events) where
  abbrev from : ℕ → List Event
  from cursor = select (after_cursor id cursor) db.events

  page_is :
      (text : String) (cursor : ℕ)
      → decode_event_cursor c text ≡ some cursor
      → list_events c id (suc l) text w db
        ≡ ok (event_page c (suc l) (take (suc (suc l)) (from cursor)))
  unfolding list_events
  page_is text cursor decoded = rw (found, decoded, fine) refl

  after : (cursor : ℕ) → All (λ e. after_cursor id cursor e ≡ true) (from cursor)
  after cursor =
      All-map (λ e. Unit {0} × (after_cursor id cursor e ≡ true))
        (λ e. after_cursor id cursor e ≡ true) (from cursor) (λ e x. x.1)
        (All-select (λ e. Unit {0}) (after_cursor id cursor) db.events (All-any db.events))

  mine : (cursor : ℕ) → Of id (from cursor)
  mine cursor =
      All-map (λ e. after_cursor id cursor e ≡ true) (λ e. (e.operation_id == id) ≡ true)
        (from cursor) (λ e. after_is id cursor e) (after cursor)

  read_back : (n : ℕ) → decode_event_cursor c (c.encode_id n) ≡ some n
  unfolding decode_event_cursor
  read_back n = rw (reads.non_empty n) (reads.back n)

  next_from :
      (cursor : ℕ)
      → suc l < length (from cursor)
      → from (last_id (take (suc l) (from cursor))) ≡ drop (suc l) (from cursor)
  next_from cursor more =
      let ordered = select-Ascending (after_cursor id cursor) db.events ascending in
      let n = last_id (take (suc l) (from cursor)) in
      sym (
        select_implied (after_cursor id cursor) (after_cursor id n) db.events (
          after_still id cursor n
            (last_id-past id cursor l (from cursor) (omega arith) ordered (after cursor))))
      ∙ select_past id l (from cursor) ordered (mine cursor)

  last_page :
      (cursor : ℕ)
      → ltb (suc l) (length (take (suc (suc l)) (from cursor))) ≡ false
      → take (suc (suc l)) (from cursor) ≡ from cursor
  last_page cursor fits = take_all (suc l) (from cursor) (ground arith)

  -- A page, and what the pages after it give.
  one_page :
      (fuel cursor : ℕ)
      → (suc l < length (from cursor)
          → walk c id (suc l) w db fuel (c.encode_id (last_id (take (suc l) (from cursor))))
            ≡ ok (drop (suc l) (from cursor)))
      → (let page = event_page c (suc l) (take (suc (suc l)) (from cursor)) in
          with_next page (walk c id (suc l) w db fuel page.next_cursor))
        ≡ ok (from cursor)
  unfolding event_page
  one_page fuel cursor later =
      elim (Bool-cases (ltb (suc l) (length (take (suc (suc l)) (from cursor))))) [
        | inr fits ↦ rw fits (ap ok (last_page cursor fits))
        | inl more ↦
            rw
              (
                more,
                take-take (suc l) (from cursor),
                reads.non_empty (last_id (take (suc l) (from cursor))),
                later (length-take_more (suc l) (from cursor) (ltb→lt _ _ more)),
              )
              (ap ok (take-drop (suc l) (from cursor)))
      ]

  walk-from :
      (fuel : ℕ) (text : String) (cursor : ℕ)
      → decode_event_cursor c text ≡ some cursor
      → length (from cursor) < fuel
      → walk c id (suc l) w db fuel text ≡ ok (from cursor)
  unfolding walk
  walk-from zero text cursor decoded enough = ground (arith, enough)
  walk-from (suc fuel) text cursor decoded enough =
      ap (λ r. collected r (λ next. walk c id (suc l) w db fuel next)) (page_is text cursor decoded)
      ∙ one_page fuel cursor λ many.
        let xs = from cursor in
        let n = last_id (take (suc l) xs) in
        let shorter : (length (from n) < fuel) =
          omega (arith, ap length (next_from cursor many), length-drop (suc l) xs (omega arith)) in
        walk-from fuel (c.encode_id n) n (read_back n) shorter ∙ ap ok (next_from cursor many)

-- A reader that follows the cursors of an operation's events from the first page has, with fuel for a
-- page for each event and one more, read every event of the operation once, in order: where the
-- reads do not fail, identifiers count from 1 and order the table, and a cursor is read as written.
pub list_events-walk :
    (c : CursorCodec) (id : Uuid) (l fuel : ℕ) (w : World) (db : Db) (op : Operation)
    → Reads c
    → get_operation id w db ≡ ok op
    → w.fails 2 ≡ false
    → Ascending db.events
    → All (λ e. 0 < e.id) db.events
    → length (history id db) < fuel
    → walk c id (suc l) w db fuel "" ≡ ok (history id db)
unfolding history decode_event_cursor
list_events-walk c id l fuel w db op reads found fine ascending positive enough =
    let same = select_first id db.events positive in
    walk-from c id l w db op reads found fine ascending fuel "" 0 refl
      (omega (arith, ap length same))
    ∙ ap ok same
