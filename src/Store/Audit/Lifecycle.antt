-- ===== src/Store/Audit/Lifecycle.antt =====
-- The lifecycle of an operation over all calls, read off its events.
pub mod Theorems
use watchkeeper.Prelude.{
  ==_iff, ◌==◌, Bool-cases, ◌≢◌, ◌&&◌, arith, some-equal, ◌⊎◌, [], not, ◌∷◌, ◌∙◌, ap, ℕ, All, ◌++◌,
  sym, List, subst, true, false, Bool, refl, none, some, ◌≡◌, inl, inr, select, select-append,
  append-nil, if◌then◌else◌,
}
use watchkeeper.Store.Rows.{Lease, OperationRow, Db, empty_db}
use watchkeeper.Store.Changes.{
  IsOpen, Write, Changes, Change, done, more, keeps, creates, writes, renews,
}
use watchkeeper.Store.Changes.Lifecycle.{
  Moves, LeasedOpen, is_manual, Write-Moves, Write-LeasedOpen, Write-states,
}
use watchkeeper.Domain.Types.{PrepareRequest, Event, Uuid}
use watchkeeper.Store.Tables.{
  Distinct-append, find-append, find-put_ne, find-put_self, Distinct-put, id-find, put, find,
  Distinct,
}
use watchkeeper.Store.Queries.{NewEvent, stamp}
use watchkeeper.Store.Audit.{OperationState, about, history}
use watchkeeper.Store.Prepare.{prepared_row, intent_event}
use watchkeeper.Store.Tx.{World}
use watchkeeper.Store.Claims.{renewed_lease}
use watchkeeper.Store.Calls.{perform, Call, serve}
use watchkeeper.Store.Audit.Invariant.{Write-keys}

-- No operator has resolved the operation by hand.
unfoldable pub untouched : List Event → Bool
untouched [] = true
untouched (e ∷ events) = not (is_manual e.event_type) && untouched events

-- The event stays in a state or goes where `allowedTransitions` lets it.
unfoldable pub EventMoves : Event → Type 0
EventMoves e =
    (from to : OperationState) → e.from_state ≡ some from → e.to_state ≡ some to → Moves from to

pub record Orderly (db : Db) : Type 0 where
  pub keys : Distinct db.operations
  pub rows :
      (id : Uuid) (r : OperationRow)
      → find id db.operations ≡ some r
      → untouched (history id db) ≡ true
      → LeasedOpen r
  pub moves : (id : Uuid) → untouched (history id db) ≡ true → All EventMoves (history id db)

open_with : (r : OperationRow) → IsOpen r.state → LeasedOpen r
unfolding LeasedOpen
open_with r is_open l leased = is_open

untouched-append :
    (xs : List Event) (e : Event)
    → untouched (xs ++ e ∷ []) ≡ true
    → (untouched xs ≡ true) × (is_manual e.event_type ≡ false)
unfolding untouched
untouched-append [] e h = (refl, ground arith)
untouched-append (x ∷ xs) e h = ground (arith, untouched-append xs e)

All-append_one :
    (xs : List Event) (e : Event) → All EventMoves xs → EventMoves e → All EventMoves (xs ++ e ∷ [])
All-append_one [] e h k = (k, tt)
All-append_one (x ∷ xs) e h k = (h.0, All-append_one xs e h.1 k)

-- The history of one operation after one more event, of it or of another.
history-logged :
    (j : Uuid) (a b : Db) (e : Event)
    → b.events ≡ a.events ++ e ∷ []
    → ((e.operation_id ≡ j) × (history j b ≡ history j a ++ e ∷ []))
      ⊎ ((e.operation_id ≢ j) × (history j b ≡ history j a))
unfolding history select about
history-logged j a b e evs = elim (Bool-cases (e.operation_id == j)) [
  | inl hit ↦ inl (
    (==_iff _ _).0 hit,
    ap (select (about j)) evs ∙ select-append (about j) a.events (e ∷ []) ∙ rw hit refl,
  )
  | inr miss ↦ inr (
    (λ same. cc (miss, (==_iff e.operation_id j).1 same)),
    ap (select (about j)) evs
        ∙ select-append (about j) a.events (e ∷ [])
        ∙ rw miss (append-nil (select (about j) a.events)),
  )
]

history-kept : (j : Uuid) (a b : Db) → b.events ≡ a.events → history j b ≡ history j a
unfolding history
history-kept j a b evs = ap (select (about j)) evs

keeps-Orderly :
    {a b : Db} → b.operations ≡ a.operations → b.events ≡ a.events → Orderly a → Orderly b
keeps-Orderly {a} {b} ops evs h = record {
  keys = subst Distinct (sym ops) h.keys;
  rows = λ id r found calm.
      h.rows id r (ap (find id) (sym ops) ∙ found)
        (ap untouched (sym (history-kept id a b evs)) ∙ calm);
  moves = λ id calm.
      subst (All EventMoves) (sym (history-kept id a b evs))
        (h.moves id (ap untouched (sym (history-kept id a b evs)) ∙ calm));
}

stamp-EventMoves :
    (n time : ℕ) (id : Uuid) (old new : OperationRow) (e : NewEvent)
    → LeasedOpen old
    → Write time id old new e
    → EventMoves (stamp n time e)
unfolding EventMoves stamp
stamp-EventMoves n time id old new e is_open wr from to h k =
    let (before, after) = Write-states time id old new e wr in
    subst (λ s. Moves s to) (some-equal (sym before ∙ h))
      (subst (λ s. Moves old.state s) (some-equal (sym after ∙ k))
        (Write-Moves time id old new e is_open wr))

-- The moves of one operation after one more event, given those of the events before it.
moves-logged :
    (j : Uuid) (a b : Db) (e : Event)
    → b.events ≡ a.events ++ e ∷ []
    → (untouched (history j a) ≡ true → All EventMoves (history j a))
    → (e.operation_id ≡ j → untouched (history j a) ≡ true → EventMoves e)
    → untouched (history j b) ≡ true
    → All EventMoves (history j b)
moves-logged j a b e evs before new calm = elim (history-logged j a b e evs) [
  | inl (mine, longer) ↦
      let (quiet, _) = untouched-append (history j a) e (ap untouched (sym longer) ∙ calm) in
      subst (All EventMoves) (sym longer)
        (All-append_one (history j a) e (before quiet) (new mine quiet))
  | inr (other, same) ↦ subst (All EventMoves) (sym same) (before (ap untouched (sym same) ∙ calm))
]

quiet-before :
    (j : Uuid) (a b : Db) (e : Event)
    → b.events ≡ a.events ++ e ∷ []
    → untouched (history j b) ≡ true
    → untouched (history j a) ≡ true
quiet-before j a b e evs calm = elim (history-logged j a b e evs) [
  | inl (mine, longer) ↦ (untouched-append (history j a) e (ap untouched (sym longer) ∙ calm)).0
  | inr (other, same) ↦ ap untouched (sym same) ∙ calm
]

not_manual :
    (j : Uuid) (a b : Db) (e : Event)
    → b.events ≡ a.events ++ e ∷ []
    → e.operation_id ≡ j
    → untouched (history j b) ≡ true
    → is_manual e.event_type ≡ false
not_manual j a b e evs mine calm = elim (history-logged j a b e evs) [
  | inl (_, longer) ↦ (untouched-append (history j a) e (ap untouched (sym longer) ∙ calm)).1
  | inr (other, same) ↦ elim (other mine) [ ]
]
