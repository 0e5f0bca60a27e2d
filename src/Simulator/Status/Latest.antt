-- ===== src/Simulator/Status/Latest.antt =====
-- The latest of the effects that are counted in the order of their times.
use watchkeeper.Prelude.{
  ◌≡◌, ◌≤◌, refl, some, none, Option, List, [], ◌∷◌, arith, ◌∙◌, Memᴰ, head, tail, All, All-map,
  Bool-cases, inl, inr, sym, subst,
}
use watchkeeper.Simulator.Email.{EmailEffect}
use watchkeeper.Simulator.Status.{
  EmailStatus, count_effects, by_time, insert_by_time, effect_before,
}

-- What `latest` is of the rows that are counted: none of none, or one that no row is later than.
pub data IsLatest (rows : List EmailEffect) : Option EmailEffect → Type 0 where
  of_none : rows ≡ [] → IsLatest rows none
  of_some :
      {e : EmailEffect}
      → Memᴰ e rows
      → All (λ x. x.committed_at ≤ e.committed_at) rows
      → IsLatest rows (some e)

abbrev Rising : List EmailEffect → Type 0
Rising [] = Unit {0}
Rising (e ∷ rows) = All (λ x. e.committed_at ≤ x.committed_at) rows × Rising rows

All-insert :
    (P : EmailEffect → Type 0) (e : EmailEffect) (rows : List EmailEffect)
    → P e
    → All P rows
    → All P (insert_by_time e rows)
unfolding insert_by_time
All-insert P e [] h k = (h, tt)
All-insert P e (x ∷ rows) h k = elim (Bool-cases (effect_before e x)) [
  | inl first ↦ rw first (h, k)
  | inr later ↦ rw later (k.0, All-insert P e rows h k.1)
]

All-inserted :
    (P : EmailEffect → Type 0) (e : EmailEffect) (rows : List EmailEffect)
    → All P (insert_by_time e rows)
    → P e × All P rows
unfolding insert_by_time
All-inserted P e [] h = h
All-inserted P e (x ∷ rows) h = elim (Bool-cases (effect_before e x)) [
  | inl first ↦ (rw first at h)
  | inr later ↦
      let (hx, rest) = (rw later at h) in
      let (he, others) = All-inserted P e rows rest in (he, (hx, others))
]

under : (l e x : EmailEffect) (rows : List EmailEffect) → Memᴰ l (e ∷ rows) → Memᴰ l (e ∷ x ∷ rows)
under l e x rows (head same) = head same
under l e x rows (tail m) = tail (tail m)

-- A list that begins with an element and goes on with elements of another.
within :
    (l x : EmailEffect) (rest all : List EmailEffect)
    → Memᴰ l (x ∷ rest)
    → Memᴰ x all
    → (Memᴰ l rest → Memᴰ l all)
    → Memᴰ l all
within l x rest all (head same) m h = subst (λ y. Memᴰ y all) (sym same) m
within l x rest all (tail n) m h = h n

Memᴰ-inserted :
    (l e : EmailEffect) (rows : List EmailEffect)
    → Memᴰ l (insert_by_time e rows)
    → Memᴰ l (e ∷ rows)
unfolding insert_by_time
Memᴰ-inserted l e [] m = m
Memᴰ-inserted l e (x ∷ rows) m = elim (Bool-cases (effect_before e x)) [
  | inl first ↦ (rw first at m)
  | inr later ↦
      within l x (insert_by_time e rows) _ (rw later at m) (tail (head refl))
        λ n. under l e x rows (Memᴰ-inserted l e rows n)
]

Rising-insert :
    (e : EmailEffect) (rows : List EmailEffect) → Rising rows → Rising (insert_by_time e rows)
unfolding insert_by_time effect_before
Rising-insert e [] h = (tt, tt)
Rising-insert e (x ∷ rows) h = elim (Bool-cases (effect_before e x)) [
  | inl first ↦
      let low : e.committed_at ≤ x.committed_at = ground (arith, first) in
      rw first (
        (
          low,
          All-map _ (λ y. e.committed_at ≤ y.committed_at) rows (λ y k. omega (arith, low, k)) h.0,
        ),
        h,
      )
  | inr later ↦ rw later (
    All-insert (λ y. x.committed_at ≤ y.committed_at) e rows (ground (arith, later)) h.0,
    Rising-insert e rows h.1,
  )
]

by_time-Rising : (rows : List EmailEffect) → Rising (by_time rows)
unfolding by_time
by_time-Rising [] = tt
by_time-Rising (e ∷ rows) = Rising-insert e (by_time rows) (by_time-Rising rows)

All-by_time :
    (P : EmailEffect → Type 0) (rows : List EmailEffect) → All P (by_time rows) → All P rows
unfolding by_time
All-by_time P [] h = tt
All-by_time P (e ∷ rows) h =
    let (he, others) = All-inserted P e (by_time rows) h in (he, All-by_time P rows others)

Memᴰ-by_time : (l : EmailEffect) (rows : List EmailEffect) → Memᴰ l (by_time rows) → Memᴰ l rows
unfolding by_time
Memᴰ-by_time l [] m = m
Memᴰ-by_time l (e ∷ rows) m =
    within l e (by_time rows) (e ∷ rows) (Memᴰ-inserted l e (by_time rows) m) (head refl)
      λ n. tail (Memᴰ-by_time l rows n)

-- The loop keeps the last row, which none of rising rows is later than.
counted-IsLatest :
    (s : EmailStatus) (e : EmailEffect) (rows : List EmailEffect)
    → Rising (e ∷ rows)
    → IsLatest (e ∷ rows) (count_effects s (e ∷ rows)).latest
unfolding count_effects
counted-IsLatest s e [] h = of_some (head refl) (omega arith, tt)
counted-IsLatest s e (x ∷ rows) h =
    further (counted-IsLatest (record s { committed_count = _; latest = some e }) x rows h.1)
  where
    further : {o : Option EmailEffect} → IsLatest (x ∷ rows) o → IsLatest (e ∷ x ∷ rows) o
    further (of_none empty) = cc
    further (of_some m k) = of_some (tail m) (omega (arith, h.0.0, k.0), k)

no_rows : (rows : List EmailEffect) → All (λ e. ⊥) rows → rows ≡ []
no_rows [] h = refl
no_rows (e ∷ rows) h = elim h.0 [ ]

moved :
    (rows sorted : List EmailEffect) (o : Option EmailEffect)
    → by_time rows ≡ sorted
    → IsLatest sorted o
    → IsLatest rows o
moved rows sorted none same (of_none empty) =
    of_none
      (no_rows rows (All-by_time (λ e. ⊥) rows (subst (All (λ e. ⊥)) (sym (same ∙ empty)) tt)))
moved rows sorted (some e) same (of_some m k) =
    of_some (Memᴰ-by_time e rows (subst (Memᴰ e) (sym same) m)) (
      All-by_time (λ x. x.committed_at ≤ e.committed_at) rows
        (subst (All (λ x. x.committed_at ≤ e.committed_at)) (sym same) k))

sorted-IsLatest :
    (s : EmailStatus) (sorted : List EmailEffect)
    → s.latest ≡ none
    → Rising sorted
    → IsLatest sorted (count_effects s sorted).latest
unfolding count_effects
sorted-IsLatest s [] empty h = subst (IsLatest []) (sym empty) (of_none refl)
sorted-IsLatest s (e ∷ rows) empty h = counted-IsLatest s e rows h

pub by_time-IsLatest :
    (s : EmailStatus) (rows : List EmailEffect)
    → s.latest ≡ none
    → IsLatest rows (count_effects s (by_time rows)).latest
by_time-IsLatest s rows empty =
    moved rows (by_time rows) _ refl (sorted-IsLatest s (by_time rows) empty (by_time-Rising rows))
