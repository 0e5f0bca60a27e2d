-- ===== src/Store/Pages.antt =====
-- `GetOperation` and `ListEvents` of internal/store/postgres.go, which read without a transaction:
-- each statement is one call of the database. Decoding a cursor is `decodeEventCursor` of
-- internal/store/cursor.go over the libraries for base64 and JSON.
pub mod Bounds
pub mod Ordered
pub mod Walk
use watchkeeper.Prelude.{
  ◌==◌, ℕ, suc, ◌+◌, String, Bool, true, false, Option, none, some, List, [], ◌∷◌, ◌&&◌, ltb,
  str_eq, length, take, select, if◌then◌else◌,
}
use watchkeeper.Domain.Types.{
  Uuid, Error, Result, ok, err, new_error, validation, Operation, Event, EventPage,
}
use watchkeeper.Store.Rows.{OperationRow, WorkflowRow, Db}
use watchkeeper.Store.Tx.{World, unavailable_error}
use watchkeeper.Store.Queries.{scan_operation, joined, operation_not_found, find_receipt}

-- The texts of cursors: base64 of the JSON of an identifier. `none` is an error of either library, or
-- a negative number.
pub record CursorCodec : Type 0 where
  pub encode_id : ℕ → String
  pub decode_id : String → Option ℕ
  pub decode_message : String → String

unfoldable pub decode_event_cursor : CursorCodec → String → Option ℕ
decode_event_cursor c s = if str_eq s "" then some 0 else c.decode_id s

unfoldable pub get_operation : Uuid → World → Db → Result Operation
get_operation id w db =
    if w.fails 0 then err (unavailable_error "read operation") else elim (joined id db) [
      | none ↦ err operation_not_found
      | some (r, x) ↦
          if w.fails 1
          then err (unavailable_error "read receipt")
          else ok (record (scan_operation r x) { receipt = find_receipt id db.receipts })
    ]

-- `WHERE operation_id=$1 AND id>$2`; the table holds its rows in the order of their identifiers.
unfoldable pub after_cursor : Uuid → ℕ → Event → Bool
after_cursor id cursor e = e.operation_id == id && ltb cursor e.id

abbrev pub last_id : List Event → ℕ
last_id [] = 0
last_id (e ∷ []) = e.id
last_id (e ∷ x ∷ rest) = last_id (x ∷ rest)

-- `LIMIT limit+1` tells whether there is another page.
unfoldable pub event_page : CursorCodec → ℕ → List Event → EventPage
event_page c limit rows =
    if ltb limit (length rows)
    then record { items = take limit rows; next_cursor = c.encode_id (last_id (take limit rows)) }
    else record { items = rows; next_cursor = "" }

abbrev pub page_from : CursorCodec → Uuid → ℕ → String → World → Db → Option ℕ → Result EventPage
page_from c id limit text w db none =
    err (new_error validation "invalid_cursor" (c.decode_message text))
page_from c id limit text w db (some cursor) =
    if w.fails 2
    then err (unavailable_error "list events")
    else ok (event_page c limit (take (suc limit) (select (after_cursor id cursor) db.events)))

abbrev pub page_of :
    CursorCodec → Uuid → ℕ → String → World → Db → Result Operation → Result EventPage
page_of c id limit text w db (err e) = err e
page_of c id limit text w db (ok op) = page_from c id limit text w db (decode_event_cursor c text)

unfoldable pub list_events : CursorCodec → Uuid → ℕ → String → World → Db → Result EventPage
list_events c id limit text w db = page_of c id limit text w db (get_operation id w db)
