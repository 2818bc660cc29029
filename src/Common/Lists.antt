-- ===== src/Common/Lists.antt =====
-- Lists measured by native numbers, and the searches and updates that a table of rows needs.
use Prim.Native.Nat.{ℕ, zero, suc, ◌+◌, ◌≤◌}
use mathlib.Core.Path.{◌≡◌, refl, ap}
use mathlib.Core.Bool.{Bool, true, false}
use mathlib.Core.Option.{Option, none, some}
use mathlib.Core.List.{List, [], ◌∷◌, ◌++◌}
use native.Mathlib.Nat.{zero-add, suc-add}
use native.Mathlib.Omega.{arith}
use smart_class_agent.Common.Tests.{if◌then◌else◌}

module _ {ℓ} {A : Type ℓ} where
  abbrev pub length : List A → ℕ
  length [] = 0
  length (x ∷ xs) = suc (length xs)

  -- The elements that pass a test, in order: a `where` clause over a table.
  abbrev pub keep : (A → Bool) → List A → List A
  keep p [] = []
  keep p (x ∷ xs) = let rest = keep p xs in if p x then x ∷ rest else rest

  -- The first element that passes a test.
  abbrev pub first : (A → Bool) → List A → Option A
  first p [] = none
  first p (x ∷ xs) = let rest = first p xs in if p x then some x else rest

  abbrev pub any : (A → Bool) → List A → Bool
  any p [] = false
  any p (x ∷ xs) = let rest = any p xs in if p x then true else rest

  -- `update` of every row that passes a test.
  abbrev pub update : (A → Bool) → (A → A) → List A → List A
  update p f [] = []
  update p f (x ∷ xs) = (if p x then f x else x) ∷ update p f xs

  -- How many elements pass a test.
  abbrev pub count : (A → Bool) → List A → ℕ
  count p [] = 0
  count p (x ∷ xs) = let rest = count p xs in if p x then suc rest else rest

  abbrev pub take : ℕ → List A → List A
  take zero xs = []
  take (suc n) [] = []
  take (suc n) (x ∷ xs) = x ∷ take n xs

  abbrev pub drop : ℕ → List A → List A
  drop zero xs = xs
  drop (suc n) [] = []
  drop (suc n) (x ∷ xs) = drop n xs

  pub drop-nil : (n : ℕ) → drop n [] ≡ []
  drop-nil zero = refl
  drop-nil (suc n) = refl

  take-nil : (n : ℕ) → take n [] ≡ []
  take-nil zero = refl
  take-nil (suc n) = refl

  -- A list in two windows is a longer window.
  pub take-add : (m n : ℕ) (xs : List A) → take m xs ++ take n (drop m xs) ≡ take (m + n) xs
  take-add zero n xs = rw zero-add
  take-add (suc m) n [] = rw (take-nil, take-nil)
  take-add (suc m) n (x ∷ xs) = rw (suc-add, take-add m n xs)

  pub drop-drop : (m n : ℕ) (xs : List A) → drop n (drop m xs) ≡ drop (m + n) xs
  drop-drop zero n xs = rw zero-add
  drop-drop (suc m) n [] = rw (drop-nil, drop-nil)
  drop-drop (suc m) n (x ∷ xs) = rw (suc-add, drop-drop m n xs)

  -- A window within a longer one, or at a place that the list had before it grew.
  pub take-take : (c m : ℕ) (xs : List A) → c ≤ length (take m xs) → take c (take m xs) ≡ take c xs
  take-take zero m xs h = refl
  take-take (suc c) zero xs h = absurd (omega (arith, h))
  take-take (suc c) (suc m) [] h = refl
  take-take (suc c) (suc m) (x ∷ xs) h = ap (λ l. x ∷ l) (take-take c m xs (omega (arith, h)))

  take-append : (c : ℕ) (xs ys : List A) → c ≤ length xs → take c (xs ++ ys) ≡ take c xs
  take-append zero xs ys h = refl
  take-append (suc c) [] ys h = absurd (omega (arith, h))
  take-append (suc c) (x ∷ xs) ys h = ap (λ l. x ∷ l) (take-append c xs ys (omega (arith, h)))

  pub take-drop_append :
      (c n : ℕ) (xs ys : List A)
      → c ≤ length (drop n xs)
      → take c (drop n (xs ++ ys)) ≡ take c (drop n xs)
  take-drop_append c zero xs ys h = take-append c xs ys h
  take-drop_append zero (suc n) xs ys h = refl
  take-drop_append (suc c) (suc n) [] ys h = absurd (omega (arith, h))
  take-drop_append (suc c) (suc n) (x ∷ xs) ys h = take-drop_append (suc c) n xs ys h

  pub length-take-le : (n : ℕ) (xs : List A) → length (take n xs) ≤ n
  length-take-le zero xs = omega arith
  length-take-le (suc n) [] = omega arith
  length-take-le (suc n) (x ∷ xs) = omega (arith, length-take-le n xs)

  pub length-take_within : (n : ℕ) (xs : List A) → length (take n xs) ≤ length xs
  length-take_within zero xs = omega arith
  length-take_within (suc n) [] = omega arith
  length-take_within (suc n) (x ∷ xs) = omega (arith, length-take_within n xs)

  pub length-append : (xs ys : List A) → length (xs ++ ys) ≡ length xs + length ys
  length-append [] ys = omega arith
  length-append (x ∷ xs) ys = omega (arith, length-append xs ys)

-- A predicate on every element.
abbrev pub All {ℓ κ} : {A : Type ℓ} → (A → Type κ) → List A → Type κ
All P [] = Unit
All P (x ∷ xs) = P x × All P xs

module _ {ℓ κ} {A : Type ℓ} (P : A → Type κ) where
  pub All-append : (xs ys : List A) → All P xs → All P ys → All P (xs ++ ys)
  All-append [] ys hx hy = hy
  All-append (x ∷ xs) ys hx hy = (hx.0, All-append xs ys hx.1 hy)
