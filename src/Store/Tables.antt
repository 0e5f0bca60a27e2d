-- ===== src/Store/Tables.antt =====
-- Reading and writing `operations` by primary key.
use watchkeeper.Prelude.{
  All-map, ==_self, All, ◌≡◌, refl, ◌≢◌, inl, inr, true, Option, none, some, List, [], ◌∷◌, ◌++◌,
  arith, ◌==◌, ==_iff, Bool-cases, if◌then◌else◌,
}
use watchkeeper.Domain.Types.{Uuid}
use watchkeeper.Store.Rows.{OperationRow, WorkflowRow}

-- `SELECT ... WHERE id = $1`
unfoldable pub find : Uuid → List OperationRow → Option OperationRow
find i [] = none
find i (r ∷ rows) = if r.id == i then some r else find i rows

-- The row with this key is written over.
unfoldable pub put : Uuid → OperationRow → List OperationRow → List OperationRow
put i new [] = []
put i new (r ∷ rows) = (if r.id == i then new else r) ∷ put i new rows

unfoldable pub find_workflow : Uuid → List WorkflowRow → Option WorkflowRow
find_workflow i [] = none
find_workflow i (w ∷ rows) = if w.id == i then some w else find_workflow i rows

pub id-find :
    (i : Uuid) (rows : List OperationRow) (r : OperationRow) → find i rows ≡ some r → r.id ≡ i
unfolding find
id-find i [] r h = ground arith
id-find i (x ∷ rows) r h = ground (arith, id-find i rows r)

-- Writing a row that keeps its key is seen under that key, and nowhere else.
pub find-put_self :
    (i : Uuid) (new : OperationRow) (rows : List OperationRow) {old : OperationRow}
    → new.id ≡ i
    → find i rows ≡ some old
    → find i (put i new rows) ≡ some new
unfolding find put
find-put_self i new [] k h = ground arith
find-put_self i new (r ∷ rows) k h = elim (Bool-cases (r.id == i)) [
  | inl same ↦ rw (same, same_key) refl
  | inr other ↦ rw (other, other) (find-put_self i new rows k (rw other at h))
]
  where
    same_key : (new.id == i) ≡ true
    same_key = (==_iff new.id i).1 k

pub find-put_ne :
    (i j : Uuid) (new : OperationRow) (rows : List OperationRow)
    → new.id ≡ i
    → i ≢ j
    → find j (put i new rows) ≡ find j rows
unfolding find put
find-put_ne i j new [] k h = refl
find-put_ne i j new (r ∷ rows) k h = elim (Bool-cases (r.id == i)) [
  | inl same ↦ ground (arith, find-put_ne i j new rows k h)
  | inr other ↦ rw (other, find-put_ne i j new rows k h) refl
]

pub find-append :
    (j : Uuid) (rows : List OperationRow) (r : OperationRow)
    → find j (rows ++ r ∷ [])
      ≡ elim (find j rows) [ some old ↦ some old | none ↦ if r.id == j then some r else none ]
unfolding find
find-append j [] r = refl
find-append j (x ∷ rows) r = ground (arith, find-append j rows r)

-- The primary key: no two rows have one identifier.
abbrev pub Distinct : List OperationRow → Type 0
Distinct [] = Unit {0}
Distinct (r ∷ rows) = (find r.id rows ≡ none) × Distinct rows

pub Distinct-append :
    (rows : List OperationRow) (r : OperationRow)
    → find r.id rows ≡ none
    → Distinct rows
    → Distinct (rows ++ r ∷ [])
unfolding find
Distinct-append [] r h d = (refl, tt)
Distinct-append (x ∷ rows) r h d = (
  ground (arith, find-append x.id rows r, ==_iff r.id x.id, ==_iff x.id r.id),
  Distinct-append rows r (ground arith) d.1,
)

find-put-none :
    (i j : Uuid) (new : OperationRow) (rows : List OperationRow)
    → new.id ≡ i
    → find j rows ≡ none
    → find j (put i new rows) ≡ none
unfolding find put
find-put-none i j new [] k h = refl
find-put-none i j new (r ∷ rows) k h = ground (arith, find-put-none i j new rows k)

pub Distinct-put :
    (i : Uuid) (new : OperationRow) (rows : List OperationRow)
    → new.id ≡ i
    → Distinct rows
    → Distinct (put i new rows)
unfolding put
Distinct-put i new [] k d = tt
Distinct-put i new (r ∷ rows) k d = (
  ground (arith, find-put-none i r.id new rows k d.0, find-put-none i new.id new rows k),
  Distinct-put i new rows k d.1,
)

-- With distinct keys each row is what its key finds.
pub All-find : (rows : List OperationRow) → Distinct rows → All (λ r. find r.id rows ≡ some r) rows
unfolding find
All-find [] d = tt
All-find (r ∷ rows) d = (
  rw (==_self r.id) refl,
  All-map (λ x. find x.id rows ≡ some x) (λ x. find x.id (r ∷ rows) ≡ some x) rows
      (λ x h. ground (arith, d.0)) (All-find rows d.1),
)
