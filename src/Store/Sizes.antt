-- ===== src/Store/Sizes.antt =====
-- How much a listing of the store or a claim answers, at most.
use watchkeeper.Prelude.{
  ℕ, suc, ◌≤◌, ◌≡◌, refl, subst, ap, String, Bool, true, false, Option, none, some, List, [], ◌∷◌,
  length, take, length-take_le, select, arith, Bool-cases, inl, inr, ltb, if◌then◌else◌,
}
use watchkeeper.Domain.Types.{
  Uuid, Time, Operation, OperationFilter, OperationPage, Event, EventPage, RecoveryClaim, Error,
  Result, ok, err,
}
use watchkeeper.Store.Rows.{OperationRow, Db}
use watchkeeper.Store.Tx.{World, Session, Tx, unavailable_error}
use watchkeeper.Store.Ensures.{
  Ensures, Holds, Ensures-bind, Ensures-pure, Ensures-query, Ensures-mono, run-ok, ok-injective,
}
use watchkeeper.Store.Pages.{
  CursorCodec, get_operation, decode_event_cursor, event_page, list_events, page_from, page_of,
}
use watchkeeper.Store.Listing.{
  OperationCodec, CursorReading, cursor_read, cursor_error, decode_operation_cursor, operation_page,
  list_operations, listed_after, listed_from,
}
use watchkeeper.Store.Claims.{
  sorted, eligible, ids, select_work, claim_one, claim_each, claim_body, claim_recovery,
  claim_recovery_for_workflow,
}

event_page-size :
    (c : CursorCodec) (limit : ℕ) (rows : List Event)
    → length (event_page c limit rows).items ≤ limit
unfolding event_page
event_page-size c limit rows = elim (Bool-cases (ltb limit (length rows))) [
  | inl more ↦ rw more (length-take_le limit rows)
  | inr fits ↦ rw fits (ground arith)
]

-- A value that an `if` answers beside an error.
unless_failed :
    {A : Type 0} (failed : Bool) (e : Error) (a b : A)
    → (if failed then err e else ok a) ≡ ok b
    → a ≡ b
unless_failed true e a b h = cc
unless_failed false e a b h = ok-injective h

page_from-size :
    (c : CursorCodec) (id : Uuid) (limit : ℕ) (text : String) (w : World) (db : Db) (o : Option ℕ)
    (page : EventPage)
    → page_from c id limit text w db o ≡ ok page
    → length page.items ≤ limit
page_from-size c id limit text w db none page h = cc
page_from-size c id limit text w db (some cursor) page h =
    subst (λ p. length p.items ≤ limit) (unless_failed (w.fails 2) _ _ page h)
      (event_page-size c limit _)

page_of-size :
    (c : CursorCodec) (id : Uuid) (limit : ℕ) (text : String) (w : World) (db : Db)
    (r : Result Operation) (page : EventPage)
    → page_of c id limit text w db r ≡ ok page
    → length page.items ≤ limit
page_of-size c id limit text w db (err e) page h = cc
page_of-size c id limit text w db (ok op) page h =
    page_from-size c id limit text w db (decode_event_cursor c text) page h

pub list_events-size :
    (c : CursorCodec) (id : Uuid) (limit : ℕ) (text : String) (w : World) (db : Db)
    (page : EventPage)
    → list_events c id limit text w db ≡ ok page
    → length page.items ≤ limit
unfolding list_events
list_events-size c id limit text w db page h =
    page_of-size c id limit text w db (get_operation id w db) page h

operation_page-size :
    (c : OperationCodec) (limit : ℕ) (ops : List Operation)
    → length (operation_page c limit ops).items ≤ limit
unfolding operation_page
operation_page-size c limit ops = elim (Bool-cases (ltb limit (length ops))) [
  | inl more ↦ rw more (length-take_le limit ops)
  | inr fits ↦ rw fits (ground arith)
]

listed_after-size :
    (c : OperationCodec) (f : OperationFilter) (w : World) (db : Db) (time : Time) (o : Option Uuid)
    (page : OperationPage)
    → listed_after c f w db time o ≡ ok page
    → length page.items ≤ f.limit
listed_after-size c f w db time none page h = cc
listed_after-size c f w db time (some id) page h = elim (Bool-cases (w.fails 0)) [
  | inl failed ↦ cc
  | inr fine ↦
      subst (λ p. length p.items ≤ f.limit) (unless_failed (w.fails 1) _ _ page (rw fine at h))
        (operation_page-size c f.limit _)
]

listed_from-size :
    (c : OperationCodec) (f : OperationFilter) (w : World) (db : Db) (k : CursorReading)
    (page : OperationPage)
    → listed_from c f w db k ≡ ok page
    → length page.items ≤ f.limit
listed_from-size c f w db (cursor_error m) page h = cc
listed_from-size c f w db (cursor_read k) page h = by_time k.created_at h
  where
    by_time :
        (o : Option Time)
        → elim o [
          | none ↦ err (unavailable_error "list operations")
          | some time ↦ listed_after c f w db time (c.cast_uuid k.id)
        ]
          ≡ ok page
        → length page.items ≤ f.limit
    by_time none h = cc
    by_time (some time) h = listed_after-size c f w db time (c.cast_uuid k.id) page h

pub list_operations-size :
    (c : OperationCodec) (f : OperationFilter) (w : World) (db : Db) (page : OperationPage)
    → list_operations c f w db ≡ ok page
    → length page.items ≤ f.limit
unfolding list_operations
list_operations-size c f w db page h =
    listed_from-size c f w db (decode_operation_cursor c f.cursor) page h

Holds-any : {A : Type 0} (r : Result (A × Session)) → Holds r (λ a t. Unit {0})
Holds-any (ok (a, t)) = tt
Holds-any (err e) = tt

Ensures-any : {A : Type 0} (m : Tx A) (w : World) (s : Session) → Ensures m w s (λ a t. Unit {0})
Ensures-any m w s = record { holds = Holds-any (m w s) }

-- Every selected operation has one claim.
claim_each-length :
    (worker : String) (lease : ℕ) (found : List Uuid) (w : World) (s : Session)
    → Ensures (claim_each worker lease found) w s (λ claims t. length claims ≡ length found)
unfolding claim_each
claim_each-length worker lease [] w s = Ensures-pure [] refl
claim_each-length worker lease (id ∷ rest) w s = Ensures-bind (claim_one worker lease id) _ (
    Ensures-mono (λ a t. Unit {0}) _ (Ensures-any _ w s)
      λ claim t _. Ensures-bind (claim_each worker lease rest) _ (
        Ensures-mono (λ claims u. length claims ≡ length rest) _
          (claim_each-length worker lease rest w t)
          λ claims u same. Ensures-pure (claim ∷ claims) (ap suc same)))

length-ids : (rows : List OperationRow) → length (ids rows) ≡ length rows
unfolding ids
length-ids [] = refl
length-ids (r ∷ rows) = ap suc (length-ids rows)

select_work-size :
    (w : World) (limit grace : ℕ) (only : String) (db : Db)
    → length (select_work w limit grace only db) ≤ limit
unfolding select_work
select_work-size w limit grace only db =
    let rows = sorted (select (eligible w grace only db) db.operations) in
    omega (arith, length-ids (take limit rows), length-take_le limit rows)

pub claim_recovery-size :
    (worker : String) (limit lease grace : ℕ) (w : World) (db : Db) (claims : List RecoveryClaim)
    → (claim_recovery worker limit lease grace w db).0 ≡ ok claims
    → length claims ≤ limit
unfolding claim_recovery claim_recovery_for_workflow claim_body
claim_recovery-size worker limit lease grace w db claims h =
    run-ok (λ a t. length a ≤ limit) _ _ (claim_body w worker limit lease grace "") w db claims
      (Ensures-bind _ _ (
        Ensures-query _ (select_work w limit grace "") (
          Ensures-mono (λ a t. length a ≡ length (select_work w limit grace "" db)) _
            (claim_each-length worker lease _ w _)
            λ a t same. omega (arith, same, select_work-size w limit grace "" db))))
      h
