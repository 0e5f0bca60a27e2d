-- ===== src/Store/Tests/Pages.antt =====
-- A page of events, and its theorem at it.
use Prim.Native.Char.{nul}
use Prim.Native.String.compare
use text.Mathlib.Text.{is_eq}
use watchkeeper.Prelude.{false, str_eq, ℕ, zero, suc, String, Option, ap, arith, ◌<◌}
use watchkeeper.Store.Audit.{history, about}
use watchkeeper.Store.Pages.Ordered.{Ascending}
use watchkeeper.Store.Pages.Walk.{Reads, walk, list_events-walk}
use watchkeeper.Store.Tests.{first_row, first_workflow, calm, prepared_then_authorized}
use watchkeeper.Domain.Types.{Event, intent_prepared, api, no_details}
use watchkeeper.Store.Pages.{
  CursorCodec, list_events, get_operation, decode_event_cursor, event_page, after_cursor,
}
use watchkeeper.Store.Pages.Bounds.{OnPage, list_events-bounds}
use watchkeeper.Store.Queries.{find_receipt}
use watchkeeper.Prelude.{All, length, ◌≤◌}
use watchkeeper.Prelude.{All, select, ◌≡◌, ◌≤◌, refl, true, none, some, [], ◌∷◌}
use watchkeeper.Store.Rows.{row_checks, empty_db}
use watchkeeper.Store.Tables.{put, find_workflow, find}
use watchkeeper.Domain.Types.{ok}
use watchkeeper.Store.Tx.{
  unavailable_error, statement, ask, now, ◌>>=◌, pure, throw, reject_if, required, query, exec,
  draw, new_id, run,
}
use watchkeeper.Domain.State.{state_eq, prepared}
use watchkeeper.Store.Prepare.{
  trace_or_empty, intent_event, prepare_inserted, prepared_row, find_natural, insert_operation,
  prepare_insert, strategy_eq, find_external, insert_workflow, ensure_workflow, prepare_body,
  prepare,
}
use watchkeeper.Store.Queries.{
  update_operation, get_operation_for_update, scan_operation, found_operation, joined,
  get_operation_tx, stamp, with_event, append_event,
}
use watchkeeper.Store.Dispatch.{
  dispatch_not_authorized, dispatch_event, authorized_row, is_claimed, authorize_dispatch_body,
  authorize_dispatch,
}
use watchkeeper.Store.Calls.{perform, serve}

abbrev toy_cursors : CursorCodec
toy_cursors = record {
  encode_id = λ n. "next";
  decode_id = λ s. some 1;
  decode_message = λ s. "invalid event cursor";
}

abbrev first_event : Event
first_event = record {
  id = 1;
  operation_id = 103;
  event_type = intent_prepared;
  from_state = none;
  to_state = some prepared;
  operation_version = 1;
  source = api;
  actor = "watchkeeper-api";
  reason_code = "intent_persisted";
  details = no_details;
  created_at = 1000;
}

page_ok :
    list_events toy_cursors 103 1 "" (calm 3000 300) (serve empty_db prepared_then_authorized)
    ≡ ok (record { items = first_event ∷ []; next_cursor = "next" })
unfolding serve perform prepare run prepare_body ensure_workflow new_id draw exec query required
    reject_if throw pure ◌>>=◌ insert_workflow find_external strategy_eq now ask prepare_insert
    statement insert_operation find_natural find prepared_row prepare_inserted append_event
    with_event stamp intent_event get_operation_tx joined find_workflow found_operation
    scan_operation unavailable_error trace_or_empty get_operation_for_update update_operation put
    row_checks state_eq authorize_dispatch authorize_dispatch_body is_claimed authorized_row
    dispatch_event dispatch_not_authorized list_events get_operation decode_event_cursor event_page
    after_cursor select find_receipt
page_ok = refl

cursor_ok : decode_event_cursor toy_cursors "" ≡ some 0
unfolding decode_event_cursor
cursor_ok = refl

list_events-bounds_example :
    (length (first_event ∷ []) ≤ 1) × All (λ e. OnPage 103 0 e) (first_event ∷ [])
list_events-bounds_example =
    list_events-bounds toy_cursors 103 1 "" (calm 3000 300)
      (serve empty_db prepared_then_authorized) 0 _ cursor_ok page_ok

-- Cursors in unary.
abbrev unary : ℕ → String
unary zero = String.◌∷◌ nul ""
unary (suc n) = String.◌∷◌ nul (unary n)

abbrev one_more : Option ℕ → ℕ
one_more none = 0
one_more (some n) = suc n

abbrev read_unary : String → Option ℕ
read_unary String.[] = none
read_unary (String.◌∷◌ c s) = some (one_more (read_unary s))

abbrev unary_cursors : CursorCodec
unary_cursors = record {
  encode_id = λ n. unary n;
  decode_id = λ s. read_unary s;
  decode_message = λ s. "invalid event cursor";
}

unary_back : (n : ℕ) → read_unary (unary n) ≡ some n
unary_back zero = refl
unary_back (suc n) = ap (λ o. some (one_more o)) (unary_back n)

unary_non_empty : (n : ℕ) → str_eq (unary n) "" ≡ false
unary_non_empty zero = refl
unary_non_empty (suc n) = ap is_eq (compare.cons-nil nul (unary n))

unary_cursors-Reads : Reads unary_cursors
unary_cursors-Reads = record { back = unary_back; non_empty = unary_non_empty }

operation_there :
    get_operation 103 (calm 3000 300) (serve empty_db prepared_then_authorized)
    ≡ ok (
        scan_operation
          (record first_row { version = 2; updated_at = 2000; dispatch_authorized = true })
          first_workflow)
unfolding serve perform prepare run prepare_body ensure_workflow new_id draw exec query required
    reject_if throw pure ◌>>=◌ insert_workflow find_external strategy_eq now ask prepare_insert
    statement insert_operation find_natural find prepared_row prepare_inserted append_event
    with_event stamp intent_event get_operation_tx joined find_workflow found_operation
    scan_operation unavailable_error trace_or_empty get_operation_for_update update_operation put
    row_checks state_eq authorize_dispatch authorize_dispatch_body is_claimed authorized_row
    dispatch_event dispatch_not_authorized list_events get_operation decode_event_cursor event_page
    after_cursor select find_receipt
operation_there = refl

ordered : Ascending (serve empty_db prepared_then_authorized).events
unfolding serve perform prepare run prepare_body ensure_workflow new_id draw exec query required
    reject_if throw pure ◌>>=◌ insert_workflow find_external strategy_eq now ask prepare_insert
    statement insert_operation find_natural find prepared_row prepare_inserted append_event
    with_event stamp intent_event get_operation_tx joined find_workflow found_operation
    scan_operation unavailable_error trace_or_empty get_operation_for_update update_operation put
    row_checks state_eq authorize_dispatch authorize_dispatch_body is_claimed authorized_row
    dispatch_event dispatch_not_authorized list_events get_operation decode_event_cursor event_page
    after_cursor select find_receipt
ordered = ((omega arith, tt), (tt, tt))

positive : All (λ e. 0 < e.id) (serve empty_db prepared_then_authorized).events
unfolding serve perform prepare run prepare_body ensure_workflow new_id draw exec query required
    reject_if throw pure ◌>>=◌ insert_workflow find_external strategy_eq now ask prepare_insert
    statement insert_operation find_natural find prepared_row prepare_inserted append_event
    with_event stamp intent_event get_operation_tx joined find_workflow found_operation
    scan_operation unavailable_error trace_or_empty get_operation_for_update update_operation put
    row_checks state_eq authorize_dispatch authorize_dispatch_body is_claimed authorized_row
    dispatch_event dispatch_not_authorized list_events get_operation decode_event_cursor event_page
    after_cursor select find_receipt
positive = (omega arith, (omega arith, tt))

enough : length (history 103 (serve empty_db prepared_then_authorized)) < 3
unfolding serve perform prepare run prepare_body ensure_workflow new_id draw exec query required
    reject_if throw pure ◌>>=◌ insert_workflow find_external strategy_eq now ask prepare_insert
    statement insert_operation find_natural find prepared_row prepare_inserted append_event
    with_event stamp intent_event get_operation_tx joined find_workflow found_operation
    scan_operation unavailable_error trace_or_empty get_operation_for_update update_operation put
    row_checks state_eq authorize_dispatch authorize_dispatch_body is_claimed authorized_row
    dispatch_event dispatch_not_authorized list_events get_operation decode_event_cursor event_page
    after_cursor select find_receipt history about
enough = omega arith

list_events-walk_example :
    walk unary_cursors 103 1 (calm 3000 300) (serve empty_db prepared_then_authorized) 3 ""
    ≡ ok (history 103 (serve empty_db prepared_then_authorized))
list_events-walk_example =
    list_events-walk unary_cursors 103 0 3 (calm 3000 300) (serve empty_db prepared_then_authorized)
      _ unary_cursors-Reads operation_there refl ordered positive enough
