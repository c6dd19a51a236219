-- ===== src/Common/Sort.antt =====
-- Sorting by a strict order, equal elements in the order in which they stood.
use Prim.Native.Nat.{suc}
use mathlib.Core.Path.{◌≡◌, refl}
use mathlib.Core.Bool.{Bool}
use mathlib.Core.Logic.{inl, inr}
use mathlib.Core.List.{List, [], ◌∷◌, map}
use native.Mathlib.Omega.{arith}
use web_sandbox.Common.Tests.{Eq, if◌then◌else◌, Bool-cases}
use web_sandbox.Common.Lists.{length, All}
use web_sandbox.Common.Counts.{count, count-cons}

module _ {ℓ} {A : Type ℓ} (before : A → A → Bool) where
  unfoldable pub insert_by : A → List A → List A
  insert_by x [] = x ∷ []
  insert_by x (y ∷ ys) = let rest = insert_by x ys in if before y x then y ∷ rest else x ∷ y ∷ ys

  unfoldable pub sort_by : List A → List A
  unfolding insert_by
  sort_by [] = []
  sort_by (x ∷ xs) = insert_by x (sort_by xs)

  -- Sorting keeps every key as often as it was.
  count-insert_by {κ} :
      {B : Type κ} ⦃e : Eq B⦄ (f : A → B) (b : B) (x : A) (xs : List A)
      → count b (map f (insert_by x xs)) ≡ count b (map f (x ∷ xs))
  unfolding insert_by count
  count-insert_by f b x [] = refl
  count-insert_by f b x (y ∷ ys) = ground (arith, count-insert_by f b x ys)

  pub count-sort_by {κ} :
      {B : Type κ} ⦃e : Eq B⦄ (f : A → B) (b : B) (xs : List A)
      → count b (map f (sort_by xs)) ≡ count b (map f xs)
  unfolding sort_by
  count-sort_by f b [] = refl
  count-sort_by f b (x ∷ xs) = ground (
    arith,
    count-insert_by f b x (sort_by xs),
    count-cons b (f x) (map f xs),
    count-cons b (f x) (map f (sort_by xs)),
    count-sort_by f b xs,
  )

  length-insert_by : (x : A) (xs : List A) → length (insert_by x xs) ≡ suc (length xs)
  unfolding insert_by
  length-insert_by x [] = refl
  length-insert_by x (y ∷ ys) = ground (arith, length-insert_by x ys)

  pub length-sort_by : (xs : List A) → length (sort_by xs) ≡ length xs
  unfolding sort_by
  length-sort_by [] = refl
  length-sort_by (x ∷ xs) = ground (arith, length-insert_by x (sort_by xs), length-sort_by xs)

  All-insert_by {κ} :
      (P : A → Type κ) (x : A) (xs : List A) → P x → All P xs → All P (insert_by x xs)
  unfolding insert_by
  All-insert_by P x [] h k = (h, tt)
  All-insert_by P x (y ∷ ys) h k = elim (Bool-cases (before y x)) [
    | inl first ↦ rw first (k.0, All-insert_by P x ys h k.1)
    | inr later ↦ rw later (h, k)
  ]

  pub All-sort_by {κ} : (P : A → Type κ) (xs : List A) → All P xs → All P (sort_by xs)
  unfolding sort_by
  All-sort_by P [] h = tt
  All-sort_by P (x ∷ xs) h = All-insert_by P x (sort_by xs) h.0 (All-sort_by P xs h.1)
