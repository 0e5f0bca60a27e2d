-- ===== src/Prelude/Lists.antt =====
-- Lists measured and selected by native numbers and Boolean tests.
use Prim.Native.Nat.{ℕ, zero, suc, ◌+◌, ◌≤◌}
use mathlib.Core.Path.{◌≡◌, refl}
use mathlib.Core.Bool.{false, true, Bool}
use mathlib.Core.List.{List, [], ◌∷◌, ◌++◌}
use native.Mathlib.Omega.{arith}
use watchkeeper.Prelude.Tests.{if◌then◌else◌}

module _ {ℓ} {A : Type ℓ} where
  abbrev pub length : List A → ℕ
  length [] = 0
  length (x ∷ xs) = suc (length xs)

  abbrev pub take : ℕ → List A → List A
  take zero xs = []
  take (suc n) [] = []
  take (suc n) (x ∷ xs) = x ∷ take n xs

  pub length-take_le : (n : ℕ) (xs : List A) → length (take n xs) ≤ n
  length-take_le zero xs = omega arith
  length-take_le (suc n) [] = omega arith
  length-take_le (suc n) (x ∷ xs) = omega (arith, length-take_le n xs)

  -- The rows that pass a test, in order.
  unfoldable pub select : (A → Bool) → List A → List A
  select p [] = []
  select p (x ∷ xs) = let rest = select p xs in if p x then x ∷ rest else rest

  pub length-append : (xs ys : List A) → length (xs ++ ys) ≡ length xs + length ys
  length-append [] ys = omega arith
  length-append (x ∷ xs) ys = omega (arith, length-append xs ys)

  pub select-append :
      (p : A → Bool) (xs ys : List A) → select p (xs ++ ys) ≡ select p xs ++ select p ys
  unfolding select
  select-append p [] ys = refl
  select-append p (x ∷ xs) ys = ground (arith, select-append p xs ys)

-- Every item has the property.
-- The second list holds the elements of the first that have the property, in order, and no others.
pub data Chosen {ℓ κ} {A : Type ℓ} (P : A → Type κ) : List A → List A → Type (ℓ ⊔ κ) where
  none_left : Chosen P [] []
  takes : {x : A} {xs ys : List A} → P x → Chosen P xs ys → Chosen P (x ∷ xs) (x ∷ ys)
  leaves : {x : A} {xs ys : List A} → ¬ P x → Chosen P xs ys → Chosen P (x ∷ xs) ys

Chosen-cons {ℓ κ} :
    {A : Type ℓ} (P : A → Type κ) (x : A) (xs rest : List A) (b : Bool)
    → (b ≡ true → P x)
    → (b ≡ false → ¬ P x)
    → Chosen P xs rest
    → Chosen P (x ∷ xs) (if b then x ∷ rest else rest)
Chosen-cons P x xs rest true yes_P no_P h = takes (yes_P refl) h
Chosen-cons P x xs rest false yes_P no_P h = leaves (no_P refl) h

-- A test that decides the property selects the elements that have it.
pub select-Chosen {ℓ κ} :
    {A : Type ℓ} (P : A → Type κ) (p : A → Bool) (xs : List A)
    → ((x : A) → p x ≡ true → P x)
    → ((x : A) → p x ≡ false → ¬ P x)
    → Chosen P xs (select p xs)
unfolding select
select-Chosen P p [] is_P not_P = none_left
select-Chosen P p (x ∷ xs) is_P not_P =
    Chosen-cons P x xs (select p xs) (p x) (is_P x) (not_P x) (select-Chosen P p xs is_P not_P)

abbrev pub All {ℓ κ} : {A : Type ℓ} → (A → Type κ) → List A → Type κ
All P [] = Unit
All P (x ∷ xs) = P x × All P xs

pub All-map {ℓ κ μ} :
    {A : Type ℓ} (P : A → Type κ) (Q : A → Type μ) (xs : List A)
    → ((a : A) → P a → Q a)
    → All P xs
    → All Q xs
All-map P Q [] f h = tt
All-map P Q (x ∷ xs) f h = (f x h.0, All-map P Q xs f h.1)

pub All-take {ℓ κ} :
    {A : Type ℓ} (P : A → Type κ) (n : ℕ) (xs : List A) → All P xs → All P (take n xs)
All-take P zero xs h = tt
All-take P (suc n) [] h = tt
All-take P (suc n) (x ∷ xs) h = (h.0, All-take P n xs h.1)

pub All-if {ℓ κ} :
    {A : Type ℓ} (P : A → Type κ) (b : Bool) (xs ys : List A)
    → (b ≡ true → All P xs)
    → (b ≡ false → All P ys)
    → All P (if b then xs else ys)
All-if P true xs ys h k = h refl
All-if P false xs ys h k = k refl

-- What is selected has the property and passes the test.
pub All-select {ℓ κ} :
    {A : Type ℓ} (P : A → Type κ) (p : A → Bool) (xs : List A)
    → All P xs
    → All (λ a. P a × (p a ≡ true)) (select p xs)
unfolding select
All-select P p [] h = tt
All-select P p (x ∷ xs) h =
    All-if (λ a. P a × (p a ≡ true)) (p x) (x ∷ select p xs) (select p xs)
      (λ e. ((h.0, e), All-select P p xs h.1)) (λ e. All-select P p xs h.1)
