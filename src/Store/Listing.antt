-- ===== src/Store/Listing.antt =====
-- `ListOperations` of internal/store/postgres.go with `operationCursor` of internal/store/cursor.go.
-- Base64, JSON and PostgreSQL's reading of a `uuid` are parameters.
use watchkeeper.Prelude.{
  ℕ, suc, String, Bool, true, false, Option, none, some, List, [], ◌∷◌, ◌==◌, ◌&&◌, ◌||◌, ltb,
  str_eq, length, take, select, if◌then◌else◌,
}
use watchkeeper.Domain.State.{state_text}
use watchkeeper.Domain.Types.{
  Uuid, Time, Result, ok, err, new_error, validation, Operation, OperationFilter, OperationPage,
}
use watchkeeper.Store.Rows.{OperationRow, WorkflowRow, Db}
use watchkeeper.Store.Tables.{find_workflow}
use watchkeeper.Store.Tx.{World, unavailable_error}
use watchkeeper.Store.Queries.{scan_operation}

-- The position after which a page begins; `encodeCursor` has the identifier as its text.
pub record OperationCursor : Type 0 where
  pub created_at : Time
  pub id : Uuid

-- The JSON of a cursor as it is read: a zero time is `none`, and the identifier is any text.
pub record WrittenCursor : Type 0 where
  pub created_at : Option Time
  pub id : String

pub record OperationCodec : Type 0 where
  pub encode_operation : OperationCursor → String
  -- `none` is an error of either library, with its message
  pub decode_operation : String → Option WrittenCursor
  pub operation_message : String → String
  -- `$6::uuid`
  pub cast_uuid : String → Option Uuid

pub data CursorReading : Type 0 where
  cursor_error : String → CursorReading
  cursor_read : WrittenCursor → CursorReading

abbrev pub zero_uuid : String
zero_uuid = "00000000-0000-0000-0000-000000000000"

abbrev checked_cursor : WrittenCursor → Option Time → CursorReading
checked_cursor w none = cursor_error "cursor fields are required"
checked_cursor w (some t) =
    if str_eq w.id "" then cursor_error "cursor fields are required" else cursor_read w

abbrev parsed_cursor : String → Option WrittenCursor → CursorReading
parsed_cursor message none = cursor_error message
parsed_cursor message (some w) = checked_cursor w w.created_at

-- The Unix epoch is the time 0.
unfoldable pub decode_operation_cursor : OperationCodec → String → CursorReading
decode_operation_cursor c text =
    if str_eq text ""
    then cursor_read (record { created_at = some 0; id = zero_uuid })
    else parsed_cursor (c.operation_message text) (c.decode_operation text)

-- `(created_at, id) > ($5, $6)`, in the order of the two columns
unfoldable pub created_after : OperationCursor → OperationRow → Bool
created_after c r = ltb c.created_at r.created_at || (c.created_at == r.created_at && ltb c.id r.id)

abbrev pub position : OperationRow → OperationCursor
position r = record { created_at = r.created_at; id = r.id }

-- `ORDER BY created_at, id`
unfoldable pub insert_created : OperationRow → List OperationRow → List OperationRow
insert_created r [] = r ∷ []
insert_created r (x ∷ rows) =
    let rest = insert_created r rows in
    if created_after (position r) x then r ∷ x ∷ rows else x ∷ rest

unfoldable pub in_creation_order : List OperationRow → List OperationRow
in_creation_order [] = []
in_creation_order (r ∷ rows) = insert_created r (in_creation_order rows)

abbrev empty_or_is : String → String → Bool
empty_or_is filter text = str_eq filter "" || str_eq text filter

abbrev created_past : Option Time → Time → Bool
created_past none t = true
created_past (some limit) t = ltb limit t

abbrev of_workflow : String → Option WorkflowRow → Bool
of_workflow filter none = false
of_workflow filter (some w) = empty_or_is filter w.external_workflow_id

-- The conditions of the WHERE clause but the cursor's.
unfoldable pub passes_filter : OperationFilter → List WorkflowRow → OperationRow → Bool
passes_filter f workflows r =
    of_workflow f.workflow_id (find_workflow r.workflow_id workflows)
    && empty_or_is (state_text f.state) (state_text r.state)
    && empty_or_is f.target_service r.target_service
    && created_past f.created_after r.created_at

abbrev scanned_with : OperationRow → Option WorkflowRow → List Operation → List Operation
scanned_with r none rest = rest
scanned_with r (some w) rest = scan_operation r w ∷ rest

unfoldable pub scan_operations : List WorkflowRow → List OperationRow → List Operation
scan_operations workflows [] = []
scan_operations workflows (r ∷ rows) =
    scanned_with r (find_workflow r.workflow_id workflows) (scan_operations workflows rows)

-- The rows of the query, for a limit of `n`.
unfoldable pub query_operations : OperationFilter → OperationCursor → ℕ → Db → List OperationRow
query_operations f c n db = take n (
    in_creation_order
      (select (λ r. passes_filter f db.workflows r && created_after c r) db.operations))

abbrev pub last_position : List Operation → OperationCursor
last_position [] = record { created_at = 0; id = 0 }
last_position (op ∷ []) = record { created_at = op.created_at; id = op.id }
last_position (op ∷ x ∷ rest) = last_position (x ∷ rest)

-- `LIMIT limit+1` tells whether there is another page.
unfoldable pub operation_page : OperationCodec → ℕ → List Operation → OperationPage
operation_page c limit ops =
    if ltb limit (length ops)
    then record {
      items = take limit ops;
      next_cursor = c.encode_operation (last_position (take limit ops));
    }
    else record { items = ops; next_cursor = "" }

-- The query, then the rows one by one, then the error of the whole.
abbrev pub listed_after :
    OperationCodec → OperationFilter → World → Db → Time → Option Uuid → Result OperationPage
listed_after c f w db time none = err (unavailable_error "list operations")
listed_after c f w db time (some id) =
    if w.fails 0
    then err (unavailable_error "list operations")
    else if w.fails 1
    then err (unavailable_error "iterate operations")
    else ok (
        operation_page c f.limit (
          scan_operations db.workflows
            (query_operations f (record { created_at = time; id = id }) (suc f.limit) db)))

abbrev pub listed_from :
    OperationCodec → OperationFilter → World → Db → CursorReading → Result OperationPage
listed_from c f w db (cursor_error m) = err (new_error validation "invalid_cursor" m)
listed_from c f w db (cursor_read k) = elim k.created_at [
  | none ↦ err (unavailable_error "list operations")
  | some time ↦ listed_after c f w db time (c.cast_uuid k.id)
]

unfoldable pub list_operations :
    OperationCodec → OperationFilter → World → Db → Result OperationPage
list_operations c f w db = listed_from c f w db (decode_operation_cursor c f.cursor)
