-- ===== src/Store/Pages/Ordered.antt =====
-- Lists of events in the order of their identifiers, cut by cursors.
use watchkeeper.Prelude.{
  ℕ, zero, suc, ◌+◌, ◌≤◌, ◌<◌, ◌≡◌, refl, ap, Bool, true, false, List, [], ◌∷◌, ◌++◌, ◌==◌, arith,
  length, take, select, All, All-map, All-select, Bool-cases, lt→ltb, inl, inr,
}
use watchkeeper.Domain.Types.{Uuid, Event}
use watchkeeper.Store.Audit.{about}
use watchkeeper.Store.Pages.{after_cursor, last_id}

-- The primary key orders the events.
abbrev pub Ascending : List Event → Type 0
Ascending [] = Unit {0}
Ascending (e ∷ events) = All (λ x. e.id < x.id) events × Ascending events

abbrev pub drop : ℕ → List Event → List Event
drop zero xs = xs
drop (suc n) [] = []
drop (suc n) (x ∷ xs) = drop n xs

pub take-drop : (n : ℕ) (xs : List Event) → take n xs ++ drop n xs ≡ xs
take-drop zero xs = refl
take-drop (suc n) [] = refl
take-drop (suc n) (x ∷ xs) = ap (λ ys. x ∷ ys) (take-drop n xs)

pub length-drop : (n : ℕ) (xs : List Event) → n ≤ length xs → length (drop n xs) + n ≡ length xs
length-drop zero xs h = omega arith
length-drop (suc n) [] h = omega arith
length-drop (suc n) (x ∷ xs) h = omega (arith, length-drop n xs (omega arith))

pub take_all : (n : ℕ) (xs : List Event) → length (take (suc n) xs) ≤ n → take (suc n) xs ≡ xs
take_all n [] h = refl
take_all zero (x ∷ xs) h = ground (arith, h)
take_all (suc n) (x ∷ xs) h = ap (λ ys. x ∷ ys) (take_all n xs (omega arith))

pub take-take : (n : ℕ) (xs : List Event) → take n (take (suc n) xs) ≡ take n xs
take-take zero xs = refl
take-take (suc n) [] = refl
take-take (suc n) (x ∷ xs) = ap (λ ys. x ∷ ys) (take-take n xs)

pub length-take_more : (n : ℕ) (xs : List Event) → n < length (take (suc n) xs) → n < length xs
length-take_more n [] h = omega arith
length-take_more zero (x ∷ xs) h = omega arith
length-take_more (suc n) (x ∷ xs) h = omega (arith, length-take_more n xs (omega arith))

pub select_implied :
    (p q : Event → Bool) (xs : List Event)
    → ((e : Event) → q e ≡ true → p e ≡ true)
    → select q (select p xs) ≡ select q xs
unfolding select
select_implied p q [] h = refl
select_implied p q (x ∷ xs) h = elim (Bool-cases (p x)) [
  | inl in_p ↦ rw (in_p, select_implied p q xs h) refl
  | inr out_p ↦ elim (Bool-cases (q x)) [
    | inl in_q ↦ ground (arith, h x in_q)
    | inr out_q ↦ rw (out_p, out_q, select_implied p q xs h) refl
  ]
]

All-select_still :
    (P : Event → Type 0) (p : Event → Bool) (xs : List Event) → All P xs → All P (select p xs)
All-select_still P p xs h =
    All-map (λ e. P e × (p e ≡ true)) P (select p xs) (λ e x. x.0) (All-select P p xs h)

pub select-Ascending : (p : Event → Bool) (xs : List Event) → Ascending xs → Ascending (select p xs)
unfolding select
select-Ascending p [] h = tt
select-Ascending p (x ∷ xs) (first, rest) = elim (Bool-cases (p x)) [
  | inl in_p ↦ rw in_p (All-select_still (λ e. x.id < e.id) p xs first, select-Ascending p xs rest)
  | inr out_p ↦ rw out_p (select-Ascending p xs rest)
]

select_all : (p : Event → Bool) (xs : List Event) → All (λ e. p e ≡ true) xs → select p xs ≡ xs
unfolding select
select_all p [] h = refl
select_all p (x ∷ xs) (first, rest) = rw (first, select_all p xs rest) refl

-- The last of the first events is none before the first.
last_id-from :
    (n : ℕ) (x : Event) (xs : List Event)
    → Ascending (x ∷ xs)
    → x.id ≤ last_id (take (suc n) (x ∷ xs))
last_id-from zero x xs h = omega arith
last_id-from (suc n) x [] h = omega arith
last_id-from (suc n) x (y ∷ ys) ((before, _), rest) = omega (arith, last_id-from n y ys rest)

abbrev pub Of : Uuid → List Event → Type 0
Of id xs = All (λ e. (e.operation_id == id) ≡ true) xs

after_first :
    (id : Uuid) (c : ℕ) (xs : List Event)
    → All (λ e. c < e.id) xs
    → Of id xs
    → All (λ e. after_cursor id c e ≡ true) xs
unfolding after_cursor
after_first id c [] later mine = tt
after_first id c (x ∷ xs) (later, all_later) (mine, all_mine) =
    (ground arith, after_first id c xs all_later all_mine)

not_past : (id : Uuid) (c : ℕ) (e : Event) → e.id ≤ c → after_cursor id c e ≡ false
unfolding after_cursor
not_past id c e h = elim (Bool-cases (e.operation_id == id)) [
  | inl same ↦ rw same (ground arith)
  | inr other ↦ rw other refl
]

-- What comes after the last of the first `n` events.
pub select_past :
    (id : Uuid) (n : ℕ) (xs : List Event)
    → Ascending xs
    → Of id xs
    → select (after_cursor id (last_id (take (suc n) xs))) xs ≡ drop (suc n) xs
unfolding select
select_past id n [] h mine = refl
select_past id zero (x ∷ xs) (later, rest) (_, mine) =
    rw (not_past id x.id x (omega arith))
      (select_all (after_cursor id x.id) xs (after_first id x.id xs later mine))
select_past id (suc n) (x ∷ []) h mine = rw (not_past id x.id x (omega arith)) refl
select_past id (suc n) (x ∷ y ∷ ys) ((before, later), rest) (_, mine) =
    let past : (x.id ≤ last_id (take (suc n) (y ∷ ys))) = omega (arith, last_id-from n y ys rest) in
    rw (not_past id (last_id (take (suc n) (y ∷ ys))) x past) (select_past id n (y ∷ ys) rest mine)

pub All-any : (rows : List Event) → All (λ e. Unit {0}) rows
All-any [] = tt
All-any (e ∷ rows) = (tt, All-any rows)

pub after_is :
    (id : Uuid) (c : ℕ) (e : Event) → after_cursor id c e ≡ true → (e.operation_id == id) ≡ true
unfolding after_cursor
after_is id c e h = ground arith

after_id : (id : Uuid) (c : ℕ) (e : Event) → after_cursor id c e ≡ true → c < e.id
unfolding after_cursor
after_id id c e h = ground arith

pub after_still :
    (id : Uuid) (c n : ℕ)
    → c ≤ n
    → (e : Event) → after_cursor id n e ≡ true
    → after_cursor id c e ≡ true
unfolding after_cursor
after_still id c n h e past = ground arith

pub last_id-past :
    (id : Uuid) (c l : ℕ) (xs : List Event)
    → 0 < length xs
    → Ascending xs
    → All (λ e. after_cursor id c e ≡ true) xs
    → c ≤ last_id (take (suc l) xs)
last_id-past id c l [] h ordered past = ground (arith, h)
last_id-past id c l (x ∷ xs) h ordered (first, _) =
    omega (arith, last_id-from l x xs ordered, after_id id c x first)

-- From the first identifier on, a cursor of 0 is behind every event.
pub select_first :
    (id : Uuid) (xs : List Event)
    → All (λ e. 0 < e.id) xs
    → select (after_cursor id 0) xs ≡ select (about id) xs
unfolding select after_cursor about
select_first id [] h = refl
select_first id (x ∷ xs) (positive, rest) = elim (Bool-cases (x.operation_id == id)) [
  | inl same ↦ rw (same, lt→ltb 0 x.id positive, select_first id xs rest) refl
  | inr other ↦ rw (other, select_first id xs rest) refl
]
