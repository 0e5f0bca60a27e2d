-- ===== src/Store/Progress.antt =====
-- When a transaction's body does return a value, with one rule for each way to build a body, in a world
-- where no call fails. The counterpart of Ensures.
pub mod Dispatch
pub mod Confirm
pub mod Repeat
pub mod Run
use watchkeeper.Prelude.{
  ℕ, suc, ◌≡◌, refl, sym, ap, ◌∙◌, Bool, true, false, Option, none, some, arith, if◌then◌else◌,
}
use watchkeeper.Domain.Types.{Uuid, Time, Error, Result, ok, err, Operation}
use watchkeeper.Store.Rows.{OperationRow, WorkflowRow, Db, row_checks}
use watchkeeper.Store.Tables.{find, put, find_workflow, find-put_self}
use watchkeeper.Store.Tx.{
  now, new_id, required, World, Session, Tx, committed, pure, statement, query, or_error, continue,
  draw, ask, exec, reject_if, ◌>>=◌, run, settle, finish,
}
use watchkeeper.Store.Queries.{
  scan_operation, joined, get_operation_tx, get_operation_for_update, found_operation, write_found,
  update_operation, NewEvent, with_event, append_event,
}
use watchkeeper.Store.Ensures.{after_call}

-- No call fails, the commit is answered, and identifiers can be had.
pub record Quiet (w : World) : Type 0 where
  pub calls : (n : ℕ) → w.fails n ≡ false
  pub commits : w.commit ≡ committed
  pub ids : (n : ℕ) → (id : Uuid) × (w.new_id n ≡ some id)

-- `m` returns a value and a session with the property.
pub record Completes {A : Type 0} (m : Tx A) (w : World) (s : Session) (Q : A → Session → Type 0)
    : Type 0 where
  pub value : A
  pub after : Session
  pub runs : m w s ≡ ok (value, after)
  pub meets : Q value after

module _ {A : Type 0} {w : World} {s : Session} {Q : A → Session → Type 0} where
  pub Completes-pure : (a : A) → Q a s → Completes (pure a) w s Q
  unfolding pure
  Completes-pure a q = record { value = a; after = s; runs = refl; meets = q }

  pub Completes-ask : (f : World → A) → Q (f w) s → Completes (ask f) w s Q
  unfolding ask
  Completes-ask f q = record { value = f w; after = s; runs = refl; meets = q }

  pub Completes-statement :
      (e : Error) (f : Db → Option (A × Db)) (a : A) (db : Db)
      → Quiet w
      → f s.db ≡ some (a, db)
      → Q a (after_call db s)
      → Completes (statement e f) w s Q
  unfolding statement
  Completes-statement e f a db quiet h q = record {
    value = a;
    after = after_call db s;
    runs = rw (quiet.calls s.calls, h) refl;
    meets = q;
  }

  pub Completes-query :
      (e : Error) (f : Db → A)
      → Quiet w
      → Q (f s.db) (after_call s.db s)
      → Completes (query e f) w s Q
  unfolding query
  Completes-query e f quiet q =
      Completes-statement e (λ db. some (f db, db)) (f s.db) s.db quiet refl q

  pub Completes-required :
      (e : Error) (o : Option A) (a : A) → o ≡ some a → Q a s → Completes (required e o) w s Q
  unfolding required pure
  Completes-required e o a h q = record { value = a; after = s; runs = rw h refl; meets = q }

module _ {A B : Type 0} {w : World} {s : Session} {Q : B → Session → Type 0} where
  pub Completes-bind :
      (m : Tx A) (f : A → Tx B)
      → Completes m w s (λ a t. Completes (f a) w t Q)
      → Completes (m >>= f) w s Q
  unfolding ◌>>=◌
  Completes-bind m f h = record {
    value = h.meets.value;
    after = h.meets.after;
    runs = rw h.runs h.meets.runs;
    meets = h.meets.meets;
  }

module _ {w : World} {s : Session} where
  pub Completes-now : {Q : Time → Session → Type 0} → Q w.now s → Completes now w s Q
  unfolding now
  Completes-now q = Completes-ask (λ w. w.now) q

  pub Completes-new_id :
      {Q : Uuid → Session → Type 0} → Quiet w → ((id : Uuid) → Q id s) → Completes new_id w s Q
  unfolding new_id draw
  Completes-new_id quiet q =
      let (id, h) = quiet.ids s.calls in
      record { value = id; after = s; runs = rw h refl; meets = q id }

module _ {w : World} {s : Session} {Q : Unit {0} → Session → Type 0} where
  pub Completes-reject_if :
      (bad : Bool) (e : Error) → bad ≡ false → Q tt s → Completes (reject_if bad e) w s Q
  unfolding reject_if pure
  Completes-reject_if bad e h q = record { value = tt; after = s; runs = rw h refl; meets = q }

  pub Completes-append_event :
      (e : Error) (ev : NewEvent)
      → Quiet w
      → Q tt (after_call (with_event w.now ev s.db) s)
      → Completes (append_event e ev) w s Q
  unfolding append_event exec
  Completes-append_event e ev quiet q = record {
    value = tt;
    after = after_call (with_event w.now ev s.db) s;
    runs = rw (quiet.calls s.calls) refl;
    meets = q;
  }

  pub Completes-update_operation :
      (e : Error) (id : Uuid) (change : OperationRow → OperationRow) (r : OperationRow)
      → Quiet w
      → find id s.db.operations ≡ some r
      → row_checks (change r) ≡ true
      → Q tt (after_call (record s.db { operations = put id (change r) s.db.operations }) s)
      → Completes (update_operation e id change) w s Q
  unfolding update_operation
  Completes-update_operation e id change r quiet found checks q =
      Completes-statement e _ tt (record s.db { operations = put id (change r) s.db.operations })
        quiet (rw (found, checks) refl) q

module _ {w : World} {s : Session} {Q : Operation → Session → Type 0} where
  pub Completes-get_operation_tx :
      (id : Uuid) (r : OperationRow) (x : WorkflowRow)
      → Quiet w
      → joined id s.db ≡ some (r, x)
      → Q (scan_operation r x) (after_call s.db s)
      → Completes (get_operation_tx id) w s Q
  unfolding get_operation_tx found_operation pure
  Completes-get_operation_tx id r x quiet h q = Completes-bind _ _ (
      Completes-query _ (joined id) quiet
        (record { value = scan_operation r x; after = _; runs = rw h refl; meets = q }))

  pub Completes-get_operation_for_update :
      (id : Uuid) (r : OperationRow) (x : WorkflowRow)
      → Quiet w
      → joined id s.db ≡ some (r, x)
      → Q (scan_operation r x) (after_call s.db s)
      → Completes (get_operation_for_update id) w s Q
  unfolding get_operation_for_update found_operation pure
  Completes-get_operation_for_update id r x quiet h q = Completes-bind _ _ (
      Completes-query _ (joined id) quiet
        (record { value = scan_operation r x; after = _; runs = rw h refl; meets = q }))

-- The row of an operation with its workflow, before and after the row is written.
pub joined_of :
    (id : Uuid) (db : Db) (r : OperationRow) (x : WorkflowRow)
    → find id db.operations ≡ some r
    → find_workflow r.workflow_id db.workflows ≡ some x
    → joined id db ≡ some (r, x)
unfolding joined
joined_of id db r x found of_workflow = ground arith

-- A call of the store that answers.
pub record Answers {A : Type 0} (x : Result A × Db) (Q : A → Db → Type 0) : Type 0 where
  pub value : A
  pub answers : x.0 ≡ ok value
  pub meets : Q value x.1

pub run-Answers :
    {A : Type 0} (Q : A → Db → Type 0) (begin_error commit_error : Error) (body : Tx A) (w : World)
    (db : Db)
    → Quiet w
    → Completes body w (record { db = db; calls = 1 }) (λ a t. Q a t.db)
    → Answers (run begin_error commit_error body w db) Q
unfolding run
run-Answers Q b c body w db quiet h = record {
  value = h.value;
  answers = rw (quiet.calls 0, h.runs, quiet.commits) refl;
  meets = rw (quiet.calls 0, h.runs, quiet.commits) h.meets;
}
