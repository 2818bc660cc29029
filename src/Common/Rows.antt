-- ===== src/Common/Rows.antt =====
-- Lemmas on tables: what an update, an insert or a deletion keeps of the rows.
use mathlib.Core.Path.{◌≡◌, refl, sym, ap, subst, ◌∙◌}
use mathlib.Core.Logic.{inl, inr}
use mathlib.Core.Bool.{Bool, true, false, not}
use mathlib.Core.Option.{none, some}
use mathlib.Core.List.{List, [], ◌∷◌, Memᴰ}
use Prim.Native.Nat.{◌+◌, ◌≤◌, ◌<◌}
use native.Mathlib.Omega.{arith}
use smart_class_agent.Common.Tests.{Bool-cases}
use smart_class_agent.Common.Lists.{length, count, keep, first, any, update, All}

module _ {ℓ κ} {A : Type ℓ} (P : A → Type κ) where
  -- A predicate survives an update that keeps it on the rows that it changes.
  pub All-update :
      (p : A → Bool) (f : A → A) (xs : List A)
      → ((x : A) → p x ≡ true → P x → P (f x))
      → All P xs
      → All P (update p f xs)
  All-update p f [] step h = tt
  All-update p f (x ∷ xs) step h = elim (Bool-cases (p x)) [
    | inl e ↦ rw e (step x e h.0, All-update p f xs step h.1)
    | inr e ↦ rw e (h.0, All-update p f xs step h.1)
  ]

  pub All-keep : (p : A → Bool) (xs : List A) → All P xs → All P (keep p xs)
  All-keep p [] h = tt
  All-keep p (x ∷ xs) h = elim (Bool-cases (p x)) [
    | inl e ↦ rw e (h.0, All-keep p xs h.1)
    | inr e ↦ rw e (All-keep p xs h.1)
  ]

  pub All-first : (q : A → Bool) (xs : List A) (a : A) → first q xs ≡ some a → All P xs → P a
  All-first q [] a h all_hold = absurd (cc)
  All-first q (x ∷ xs) a h all_hold = elim (Bool-cases (q x)) [
    | inl e ↦ subst P (ground arith) all_hold.0
    | inr e ↦ All-first q xs a (ground arith) all_hold.1
  ]

module _ {ℓ} {A : Type ℓ} where
  -- A test that the update does not change finds as much as before.
  pub any-update :
      (q p : A → Bool) (f : A → A) (xs : List A)
      → ((x : A) → q (f x) ≡ q x)
      → any q (update p f xs) ≡ any q xs
  any-update q p f [] same = refl
  any-update q p f (x ∷ xs) same = ground (arith, same x, any-update q p f xs same)

  pub any-keep : (q p : A → Bool) (xs : List A) → any q xs ≡ false → any q (keep p xs) ≡ false
  any-keep q p [] h = refl
  any-keep q p (x ∷ xs) h = ground (arith, any-keep q p xs)

  pub first-none : (q : A → Bool) (xs : List A) → first q xs ≡ none → any q xs ≡ false
  first-none q [] h = refl
  first-none q (x ∷ xs) h = ground (arith, first-none q xs)

  pub first-some :
      (q : A → Bool) (xs : List A) (a : A) → first q xs ≡ some a → (any q xs ≡ true) × (q a ≡ true)
  first-some q [] a h = absurd (cc)
  first-some q (x ∷ xs) a h = ground (arith, first-some q xs a)

  -- If it does touch that row, the first is the row as the update leaves it.
  pub first-update_self :
      (q p : A → Bool) (f : A → A) (xs : List A)
      → ((x : A) → q (f x) ≡ q x)
      → (a : A) → first q xs ≡ some a
      → p a ≡ true
      → first q (update p f xs) ≡ some (f a)
  first-update_self q p f [] same a h touched = absurd (cc)
  first-update_self q p f (x ∷ xs) same a h touched =
      ground (arith, same x, first-update_self q p f xs same a)

  -- An update of rows that do not pass `q` leaves what a search for `q` finds.
  pub first-update_other :
      (q p : A → Bool) (f : A → A) (xs : List A)
      → ((x : A) → q (f x) ≡ q x)
      → ((x : A) → q x ≡ true → p x ≡ false)
      → first q (update p f xs) ≡ first q xs
  first-update_other q p f [] same apart = refl
  first-update_other q p f (x ∷ xs) same apart =
      ground (arith, same x, apart x, first-update_other q p f xs same apart)

  -- An update that makes no row pass a test does not raise the number of those that pass.
  pub count-update-le :
      (q p : A → Bool) (f : A → A) (xs : List A)
      → ((x : A) → p x ≡ true → q (f x) ≡ true → q x ≡ true)
      → count q (update p f xs) ≤ count q xs
  count-update-le q p f [] step = omega arith
  count-update-le q p f (x ∷ xs) step = ground (arith, step x, count-update-le q p f xs step)

  pub count-le :
      (q q' : A → Bool) (xs : List A)
      → ((x : A) → q' x ≡ true → q x ≡ true)
      → count q' xs ≤ count q xs
  count-le q q' [] step = omega arith
  count-le q q' (x ∷ xs) step = ground (arith, step x, count-le q q' xs step)

  -- A stricter test that refuses one element more passes fewer.
  pub count-lt :
      (q q' : A → Bool) (a : A) (xs : List A)
      → ((x : A) → q' x ≡ true → q x ≡ true)
      → q a ≡ true
      → q' a ≡ false
      → Memᴰ a xs
      → count q' xs < count q xs
  count-lt q q' a [] step p n m = elim m [ ]
  count-lt q q' a (x ∷ xs) step p n (Memᴰ.head e) =
      ground (arith, ap q e, ap q' e, count-le q q' xs step)
  count-lt q q' a (x ∷ xs) step p n (Memᴰ.tail m) =
      ground (arith, step x, count-lt q q' a xs step p n m)

  pub length-keep-not :
      (p : A → Bool) (xs : List A)
      → length (keep (λ x. not (p x)) xs) + length (keep p xs) ≡ length xs
  length-keep-not p [] = omega arith
  length-keep-not p (x ∷ xs) = ground (arith, length-keep-not p xs)

module _ {ℓ} {A : Type ℓ} {a : A} where
  pub mem-first : (q : A → Bool) (xs : List A) → first q xs ≡ some a → Memᴰ a xs
  mem-first q [] h = absurd (cc)
  mem-first q (x ∷ xs) h = elim (Bool-cases (q x)) [
    | inl e ↦ Memᴰ.head (ground arith)
    | inr e ↦ Memᴰ.tail (mem-first q xs (ground arith))
  ]

  -- A row that an update does not change, or a deletion does not take, is still there.
  pub mem-update :
      (p : A → Bool) (f : A → A) {xs : List A} → p a ≡ false → Memᴰ a xs → Memᴰ a (update p f xs)
  mem-update p f h (Memᴰ.head {x = x} e) = Memᴰ.head (ground (arith, ap p e))
  mem-update p f h (Memᴰ.tail m) = Memᴰ.tail (mem-update p f h m)

  -- A row that an update chooses is there as the update leaves it.
  pub mem-update_chosen :
      (p : A → Bool) (f : A → A) {xs : List A} → p a ≡ true → Memᴰ a xs → Memᴰ (f a) (update p f xs)
  mem-update_chosen p f h (Memᴰ.head {x = x} e) = Memᴰ.head (ground (arith, ap p e, ap f e))
  mem-update_chosen p f h (Memᴰ.tail m) = Memᴰ.tail (mem-update_chosen p f h m)

  pub mem-keep : (p : A → Bool) {xs : List A} → p a ≡ true → Memᴰ a xs → Memᴰ a (keep p xs)
  mem-keep p h (Memᴰ.head {x = x} e) = rw (ap p (sym e) ∙ h) (Memᴰ.head e)
  mem-keep p h (Memᴰ.tail {x = x} m) = elim (Bool-cases (p x)) [
    | inl e ↦ rw e (Memᴰ.tail (mem-keep p h m))
    | inr e ↦ rw e (mem-keep p h m)
  ]

module _ {ℓ} {A : Type ℓ} (p : A → Bool) (f : A → A) (same : (x : A) → p (f x) ≡ p x) where
  -- The rows that an update does not choose stay, and those that it chooses pass no test that its
  -- results do not pass.
  pub keep-update_other :
      (xs : List A) → keep (λ x. not (p x)) (update p f xs) ≡ keep (λ x. not (p x)) xs
  keep-update_other [] = refl
  keep-update_other (x ∷ xs) = ground (arith, same x, keep-update_other xs)

  pub any-update_ended :
      (q : A → Bool) (xs : List A)
      → ((x : A) → q (f x) ≡ false)
      → ((x : A) → p x ≡ false → q x ≡ false)
      → any q (update p f xs) ≡ false
  any-update_ended q [] ended other = refl
  any-update_ended q (x ∷ xs) ended other =
      ground (arith, ended x, other x, any-update_ended q xs ended other)
