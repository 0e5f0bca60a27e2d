-- ===== src/Store/Tx.antt =====
-- A transaction: what a method of `Postgres` does between `BeginTx` and `Commit`. It sees the tables
-- as it has changed them so far, and an error drops all of it. Each statement is one call of the
-- database, and the world decides, by the number of the call, which of them fail.
use watchkeeper.Prelude.{ℕ, suc, String, Bool, Option, none, some, if◌then◌else◌}
use watchkeeper.Domain.Types.{
  Uuid, Time, Error, library_error, Result, ok, err, new_error, unavailable,
}
use watchkeeper.Domain.Fingerprint.{Codec}
use watchkeeper.Store.Rows.{Db}

-- How a COMMIT ends: done and answered, refused, or done with the answer lost.
pub data CommitOutcome : Type 0 where
  committed refused answer_lost : CommitOutcome

-- What a method takes from outside of the program: PostgreSQL's `now()`, which is one time for the
-- whole transaction; which calls fail; how the commit ends; the identifiers of `uuid.NewV7` and the
-- random claim tokens, by the number of the call before them; JSON and SHA-256.
pub record World : Type 0 where
  pub now : Time
  pub fails : ℕ → Bool
  pub commit : CommitOutcome
  pub new_id : ℕ → Option Uuid
  pub random_token : ℕ → Option String
  pub codec : Codec
  -- the rows that another transaction has locked when `SKIP LOCKED` looks
  pub locked : Uuid → Bool

pub record Session : Type 0 where
  pub db : Db
  pub calls : ℕ

abbrev pub Tx : Type 0 → Type 0
Tx A = World → Session → Result (A × Session)

unfoldable pub unavailable_error : String → Error
unavailable_error action = new_error unavailable "database_unavailable" action

module _ {A : Type 0} where
  unfoldable pub pure : A → Tx A
  pure a w s = ok (a, s)

  unfoldable pub throw : Error → Tx A
  throw e w s = err e

  abbrev pub or_error : Option A → Error → Session → Result (A × Session)
  or_error none e s = err e
  or_error (some a) e s = ok (a, s)

  unfoldable pub required : Error → Option A → Tx A
  required e none = throw e
  required e (some a) = pure a

  -- One statement: its error if the call fails or a constraint is violated (`none`).
  unfoldable pub statement : Error → (Db → Option (A × Db)) → Tx A
  statement e f w s = if w.fails s.calls then err e else elim (f s.db) [
    | none ↦ err e
    | some (a, db) ↦ ok (a, record s { db = db; calls = suc s.calls })
  ]

  unfoldable pub query : Error → (Db → A) → Tx A
  unfolding statement
  query e f = statement e (λ db. some (f db, db))

  -- A value of the world that the program asks for, such as a new identifier.
  unfoldable pub draw : Error → (World → ℕ → Option A) → Tx A
  draw e f w s = or_error (f w s.calls) e s

  -- What a statement with `RETURNING` gives back: no call of its own.
  unfoldable pub returned : (Db → A) → Tx A
  returned f w s = ok (f s.db, s)

  unfoldable pub ask : (World → A) → Tx A
  ask f w s = ok (f w, s)

-- A statement that changes the tables by a function of the transaction's time.
unfoldable pub exec : Error → (Time → Db → Db) → Tx (Unit {0})
exec e f w s =
    if w.fails s.calls then err e else ok (tt, record s { db = f w.now s.db; calls = suc s.calls })

unfoldable pub now : Tx Time
now = ask (λ w. w.now)

-- `if bad { return ..., e }`
unfoldable pub reject_if : Bool → Error → Tx (Unit {0})
reject_if bad e = if bad then throw e else pure tt

unfoldable pub new_id : Tx Uuid
new_id = draw (library_error "generate UUIDv7") (λ w. w.new_id)

module _ {A B : Type 0} where
  abbrev pub continue : Result (A × Session) → (A → Tx B) → World → Result (B × Session)
  continue (ok (a, s)) f w = f a w s
  continue (err e) f w = err e

  infixl 5 ◌>>=◌ ◌>>◌
  unfoldable pub ◌>>=◌ : Tx A → (A → Tx B) → Tx B
  unfolding pure throw statement query draw ask exec now reject_if new_id
  ◌>>=◌ m f w s = continue (m w s) f w

  abbrev pub ◌>>◌ : Tx A → Tx B → Tx B
  m >> n = m >>= λ _. n

module _ {A : Type 0} where
  abbrev pub settle : {S : Type 0} → CommitOutcome → A → Error → S → S → Result A × S
  settle committed a e old new = (ok a, new)
  settle refused a e old new = (err e, old)
  settle answer_lost a e old new = (err e, new)

  abbrev pub finish : Result (A × Session) → World → Error → Db → Result A × Db
  finish (ok (a, s)) w e db = settle w.commit a e db s.db
  finish (err e) w commit_error db = (err e, db)

  -- `BeginTx`, the statements, `Commit`; the deferred `Rollback` undoes what was not committed.
  unfoldable pub run : Error → Error → Tx A → World → Db → Result A × Db
  run begin_error commit_error body w db =
      if w.fails 0
      then (err begin_error, db)
      else finish (body w (record { db = db; calls = 1 })) w commit_error db
