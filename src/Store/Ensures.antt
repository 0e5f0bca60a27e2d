-- ===== src/Store/Ensures.antt =====
-- What holds when a transaction's body returns a value, with one rule for each way to build a body.
-- The rules are for the operations of Tx and Queries, which stay shut in the proofs that use them.
use watchkeeper.Prelude.{
  ℕ, suc, ◌≡◌, refl, Bool, true, false, Option, none, some, arith, subst, sym, if◌then◌else◌,
}
use watchkeeper.Domain.Types.{Uuid, Time, Error, Result, ok, err, Operation}
use watchkeeper.Store.Rows.{OperationRow, WorkflowRow, Db, row_checks}
use watchkeeper.Store.Tables.{find, put}
use watchkeeper.Store.Tx.{
  now, new_id, returned, required, World, Session, Tx, CommitOutcome, committed, refused,
  answer_lost, pure, throw, statement, query, or_error, continue, draw, ask, exec, reject_if, ◌>>=◌,
  run, settle, finish,
}
use watchkeeper.Store.Queries.{
  scan_operation, joined, get_operation_tx, get_operation_for_update, found_operation, write_found,
  update_operation, NewEvent, with_event, append_event,
}

abbrev pub Holds : {A : Type 0} → Result (A × Session) → (A → Session → Type 0) → Type 0
Holds (ok (a, t)) Q = Q a t
Holds (err e) Q = Unit {0}

-- If `m` returns `a` and leaves the session `t`, then `Q a t`.
pub record Ensures {A : Type 0} (m : Tx A) (w : World) (s : Session) (Q : A → Session → Type 0)
    : Type 0 where
  pub holds : Holds (m w s) Q

abbrev pub after_call : Db → Session → Session
after_call db s = record s { db = db; calls = suc s.calls }

Holds-statement :
    {A : Type 0} (s : Session) (Q : A → Session → Type 0) (failed : Bool) (e : Error)
    (o : Option (A × Db))
    → ((a : A) (db : Db) → o ≡ some (a, db) → Q a (after_call db s))
    → Holds
        (if failed then err e else elim o [ none ↦ err e | some (a, db) ↦ ok (a, after_call db s) ])
        Q
Holds-statement s Q true e o q = tt
Holds-statement s Q false e none q = tt
Holds-statement s Q false e (some (a, db)) q = q a db refl

Holds-call :
    {A : Type 0} (Q : A → Session → Type 0) (failed : Bool) (e : Error) (a : A) (t : Session)
    → Q a t
    → Holds (if failed then err e else ok (a, t)) Q
Holds-call Q true e a t q = tt
Holds-call Q false e a t q = q

Holds-draw :
    {A : Type 0} (s : Session) (Q : A → Session → Type 0) (o : Option A) (e : Error)
    → ((a : A) → o ≡ some a → Q a s)
    → Holds (or_error o e s) Q
Holds-draw s Q none e q = tt
Holds-draw s Q (some a) e q = q a refl

Holds-mono :
    {A : Type 0} (Q R : A → Session → Type 0) (r : Result (A × Session))
    → ((a : A) (t : Session) → R a t → Q a t)
    → Holds r R
    → Holds r Q
Holds-mono Q R (ok (a, t)) f h = f a t h
Holds-mono Q R (err e) f h = tt

module _ {A : Type 0} {w : World} {s : Session} {Q : A → Session → Type 0} where
  pub Ensures-pure : (a : A) → Q a s → Ensures (pure a) w s Q
  unfolding pure
  Ensures-pure a q = record { holds = q }

  pub Ensures-throw : (e : Error) → Ensures (throw e) w s Q
  unfolding throw
  Ensures-throw e = record { holds = tt }

  pub Ensures-ask : (f : World → A) → Q (f w) s → Ensures (ask f) w s Q
  unfolding ask
  Ensures-ask f q = record { holds = q }

  pub Ensures-statement :
      (e : Error) (f : Db → Option (A × Db))
      → ((a : A) (db : Db) → f s.db ≡ some (a, db) → Q a (after_call db s))
      → Ensures (statement e f) w s Q
  unfolding statement
  Ensures-statement e f q = record { holds = Holds-statement s Q (w.fails s.calls) e (f s.db) q }

  pub Ensures-query :
      (e : Error) (f : Db → A) → Q (f s.db) (after_call s.db s) → Ensures (query e f) w s Q
  unfolding query
  Ensures-query e f q = record { holds = Holds-call Q (w.fails s.calls) e (f s.db) _ q }

  pub Ensures-draw :
      (e : Error) (f : World → ℕ → Option A)
      → ((a : A) → f w s.calls ≡ some a → Q a s)
      → Ensures (draw e f) w s Q
  unfolding draw
  Ensures-draw e f q = record { holds = Holds-draw s Q (f w s.calls) e q }

  pub Ensures-mono :
      (R : A → Session → Type 0) (m : Tx A)
      → Ensures m w s R
      → ((a : A) (t : Session) → R a t → Q a t)
      → Ensures m w s Q
  Ensures-mono R m h f = record { holds = Holds-mono Q R (m w s) f h.holds }

Holds-bind :
    {A B : Type 0} (w : World) (Q : B → Session → Type 0) (r : Result (A × Session)) (f : A → Tx B)
    → Holds r (λ a t. Ensures (f a) w t Q)
    → Holds (continue r f w) Q
Holds-bind w Q (ok (a, t)) f h = h.holds
Holds-bind w Q (err e) f h = tt

module _ {A B : Type 0} {w : World} {s : Session} {Q : B → Session → Type 0} where
  pub Ensures-bind :
      (m : Tx A) (f : A → Tx B)
      → Ensures m w s (λ a t. Ensures (f a) w t Q)
      → Ensures (m >>= f) w s Q
  unfolding ◌>>=◌
  Ensures-bind m f h = record { holds = Holds-bind w Q (m w s) f h.holds }

written :
    (id : Uuid) (change : OperationRow → OperationRow) (db new : Db) {r : OperationRow}
    {u : Unit {0}}
    → find id db.operations ≡ some r
    → write_found id change db (find id db.operations) ≡ some (u, new)
    → (row_checks (change r) ≡ true)
      × (new ≡ record db { operations = put id (change r) db.operations })
written id change db new h k = ground arith

module _ {w : World} {s : Session} {Q : Unit {0} → Session → Type 0} where
  pub Ensures-exec :
      (e : Error) (f : Time → Db → Db)
      → Q tt (after_call (f w.now s.db) s)
      → Ensures (exec e f) w s Q
  unfolding exec
  Ensures-exec e f q = record { holds = Holds-call Q (w.fails s.calls) e tt _ q }

  pub Ensures-append_event :
      (e : Error) (ev : NewEvent)
      → Q tt (after_call (with_event w.now ev s.db) s)
      → Ensures (append_event e ev) w s Q
  unfolding append_event
  Ensures-append_event e ev q = Ensures-exec e (λ time db. with_event time ev db) q

  pub Ensures-reject_if :
      (bad : Bool) (e : Error) → (bad ≡ false → Q tt s) → Ensures (reject_if bad e) w s Q
  unfolding reject_if
  Ensures-reject_if true e q = Ensures-throw e
  Ensures-reject_if false e q = Ensures-pure tt (q refl)

  -- Writing a row that is there.
  pub Ensures-update_operation :
      (e : Error) (id : Uuid) (change : OperationRow → OperationRow) {r : OperationRow}
      → find id s.db.operations ≡ some r
      → (row_checks (change r) ≡ true
          → Q tt (after_call (record s.db { operations = put id (change r) s.db.operations }) s))
      → Ensures (update_operation e id change) w s Q
  unfolding update_operation
  Ensures-update_operation e id change {r} h q = Ensures-statement e _ λ u db k.
      let (ok_row, same) = written id change s.db db h k in
      subst (λ d. Q u (after_call d s)) (sym same) (q ok_row)

pub find-joined :
    (id : Uuid) (db : Db) {r : OperationRow} {x : WorkflowRow}
    → joined id db ≡ some (r, x)
    → find id db.operations ≡ some r
unfolding joined
find-joined id db h = ground arith

module _ {w : World} {s : Session} {Q : Operation → Session → Type 0} where
  Ensures-found_operation :
      (o : Option (OperationRow × WorkflowRow))
      → ((r : OperationRow) (x : WorkflowRow) → o ≡ some (r, x) → Q (scan_operation r x) s)
      → Ensures (found_operation o) w s Q
  unfolding found_operation
  Ensures-found_operation none q = Ensures-throw _
  Ensures-found_operation (some (r, x)) q = Ensures-pure _ (q r x refl)

abbrev pub Finds : (Operation → Session → Type 0) → Uuid → Session → Type 0
Finds Q id s =
    (r : OperationRow) (x : WorkflowRow)
    → joined id s.db ≡ some (r, x)
    → find id s.db.operations ≡ some r
    → Q (scan_operation r x) (after_call s.db s)

module _ {w : World} {s : Session} {Q : Operation → Session → Type 0} where
  pub Ensures-get_operation_tx : (id : Uuid) → Finds Q id s → Ensures (get_operation_tx id) w s Q
  unfolding get_operation_tx
  Ensures-get_operation_tx id q = Ensures-bind _ _ (
      Ensures-query _ (joined id)
        (Ensures-found_operation (joined id s.db) λ r x h. q r x h (find-joined id s.db h)))

  pub Ensures-get_operation_for_update :
      (id : Uuid) → Finds Q id s → Ensures (get_operation_for_update id) w s Q
  unfolding get_operation_for_update
  Ensures-get_operation_for_update id q = Ensures-bind _ _ (
      Ensures-query _ (joined id)
        (Ensures-found_operation (joined id s.db) λ r x h. q r x h (find-joined id s.db h)))

pub ok-injective : {A : Type 0} {a b : A} → ok a ≡ ok b → a ≡ b
ok-injective h = cc

pub settle-db :
    {A : Type 0} (P : Db → Type 0) (o : CommitOutcome) (a : A) (e : Error) (old new : Db)
    → P old
    → P new
    → P (settle o a e old new).1
settle-db P committed a e old new h k = k
settle-db P refused a e old new h k = h
settle-db P answer_lost a e old new h k = k

finish-db :
    {A : Type 0} (P : Db → Type 0) (r : Result (A × Session)) (w : World) (e : Error) (db : Db)
    → P db
    → Holds r (λ a t. P t.db)
    → P (finish r w e db).1
finish-db P (ok (a, t)) w e db h k = settle-db P w.commit a e db t.db h k
finish-db P (err x) w e db h k = h

begun-db :
    {A : Type 0} (P : Db → Type 0) (failed : Bool) (b : Error) (db : Db) (r : Result A × Db)
    → P db
    → P r.1
    → P (if failed then (err b, db) else r).1
begun-db P true b db r h k = h
begun-db P false b db r h k = k

-- What holds of the tables after `run`, whether the call failed, and however the commit ended.
pub run-db :
    {A : Type 0} (P : Db → Type 0) (begin_error commit_error : Error) (body : Tx A) (w : World)
    (db : Db)
    → P db
    → Ensures body w (record { db = db; calls = 1 }) (λ a t. P t.db)
    → P (run begin_error commit_error body w db).1
unfolding run
run-db P b c body w db h k =
    begun-db P (w.fails 0) b db _ h
      (finish-db P (body w (record { db = db; calls = 1 })) w c db h k.holds)

settle-ok :
    {A : Type 0} (Q : A → Db → Type 0) (o : CommitOutcome) (a : A) (e : Error) (old new : Db)
    (b : A)
    → Q a new
    → (settle o a e old new).0 ≡ ok b
    → Q b (settle o a e old new).1
settle-ok Q committed a e old new b k h = subst (λ x. Q x new) (ok-injective h) k
settle-ok Q refused a e old new b k h = cc
settle-ok Q answer_lost a e old new b k h = cc

finish-ok :
    {A : Type 0} (Q : A → Db → Type 0) (r : Result (A × Session)) (w : World) (e : Error) (db : Db)
    (b : A)
    → Holds r (λ a t. Q a t.db)
    → (finish r w e db).0 ≡ ok b
    → Q b (finish r w e db).1
finish-ok Q (ok (a, t)) w e db b k h = settle-ok Q w.commit a e db t.db b k h
finish-ok Q (err x) w e db b k h = cc

begun-ok :
    {A : Type 0} (Q : A → Db → Type 0) (failed : Bool) (e : Error) (db : Db) (r : Result A × Db)
    (b : A)
    → (r.0 ≡ ok b → Q b r.1)
    → (if failed then (err e, db) else r).0 ≡ ok b
    → Q b (if failed then (err e, db) else r).1
begun-ok Q true e db r b k h = cc
begun-ok Q false e db r b k h = k h

-- What holds of the result and the tables of a call that succeeds.
pub run-ok :
    {A : Type 0} (Q : A → Db → Type 0) (begin_error commit_error : Error) (body : Tx A) (w : World)
    (db : Db) (b : A)
    → Ensures body w (record { db = db; calls = 1 }) (λ a t. Q a t.db)
    → (run begin_error commit_error body w db).0 ≡ ok b
    → Q b (run begin_error commit_error body w db).1
unfolding run
run-ok Q e c body w db b k h =
    begun-ok Q (w.fails 0) e db _ b
      (finish-ok Q (body w (record { db = db; calls = 1 })) w c db b k.holds) h

module _ {A : Type 0} {w : World} {s : Session} {Q : A → Session → Type 0} where
  pub Ensures-returned : (f : Db → A) → Q (f s.db) s → Ensures (returned f) w s Q
  unfolding returned
  Ensures-returned f q = record { holds = q }

  pub Ensures-required :
      (e : Error) (o : Option A) → ((a : A) → o ≡ some a → Q a s) → Ensures (required e o) w s Q
  unfolding required
  Ensures-required e none q = Ensures-throw e
  Ensures-required e (some a) q = Ensures-pure a (q a refl)

module _ {w : World} {s : Session} {Q : ℕ → Session → Type 0} where
  pub Ensures-now : Q w.now s → Ensures now w s Q
  unfolding now
  Ensures-now q = Ensures-ask (λ w. w.now) q

  pub Ensures-new_id : ((id : Uuid) → Q id s) → Ensures new_id w s Q
  unfolding new_id
  Ensures-new_id q = Ensures-draw _ (λ w. w.new_id) (λ id _. q id)

not_written :
    (id : Uuid) (change : OperationRow → OperationRow) (db new : Db) {u : Unit {0}}
    → find id db.operations ≡ none
    → write_found id change db (find id db.operations) ≡ some (u, new)
    → new ≡ db
not_written id change db new h k = ground arith

module _ {w : World} {s : Session} {Q : Unit {0} → Session → Type 0} where
  -- An UPDATE that finds no row changes nothing.
  pub Ensures-update_missing :
      (e : Error) (id : Uuid) (change : OperationRow → OperationRow)
      → find id s.db.operations ≡ none
      → Q tt (after_call s.db s)
      → Ensures (update_operation e id change) w s Q
  unfolding update_operation
  Ensures-update_missing e id change h q =
      Ensures-statement e _
        λ u db k. subst (λ d. Q u (after_call d s)) (sym (not_written id change s.db db h k)) q
