-- ===== src/Common/Counts.antt =====
-- Membership and counts over keys. A list is distinct when no key stands in it twice.
use Prim.Native.Nat.{ℕ, suc, ◌+◌, ◌≤◌}
use mathlib.Core.Path.{◌≡◌, refl}
use mathlib.Core.Logic.{◌≢◌, inl, inr}
use mathlib.Core.Bool.{Bool, true, false, ◌||◌}
use mathlib.Core.List.{List, [], ◌∷◌, ◌++◌, map}
use native.Mathlib.Omega.{arith}
use web_sandbox.Common.Tests.{Eq, ◌==◌, if◌then◌else◌, Bool-cases, beq_refl}
use web_sandbox.Common.Lists.{length, filter, All}

module _ {ℓ} {A : Type ℓ} ⦃e : Eq A⦄ where
  -- Go's `set[a]` for a set of keys.
  unfoldable pub contains : List A → A → Bool
  contains [] a = false
  contains (x ∷ xs) a = x == a || contains xs a

  unfoldable pub count : A → List A → ℕ
  count a [] = 0
  count a (x ∷ xs) = (if x == a then 1 else 0) + count a xs

  abbrev pub Distinct : List A → Type ℓ
  Distinct xs = (a : A) → count a xs ≤ 1

  pub count-nil : (a : A) → count a [] ≡ 0
  unfolding count
  count-nil a = refl

  pub count-cons :
      (a x : A) (xs : List A) → count a (x ∷ xs) ≡ (if x == a then 1 else 0) + count a xs
  unfolding count
  count-cons a x xs = refl

  pub count-contains : (a : A) (xs : List A) → contains xs a ≡ false → count a xs ≡ 0
  unfolding contains count
  count-contains a [] h = refl
  count-contains a (x ∷ xs) h = ground (arith, count-contains a xs)

  pub contains-count : (a : A) (xs : List A) → count a xs ≡ 0 → contains xs a ≡ false
  unfolding contains count
  contains-count a [] h = refl
  contains-count a (x ∷ xs) h = ground (arith, contains-count a xs)

  pub count-append : (a : A) (xs ys : List A) → count a (xs ++ ys) ≡ count a xs + count a ys
  unfolding count
  count-append a [] ys = omega arith
  count-append a (x ∷ xs) ys = omega (arith, count-append a xs ys)

  -- Keys of the rows that a statement keeps.
  pub count-filter-le {κ} :
      {B : Type κ} (f : B → A) (p : B → Bool) (a : A) (xs : List B)
      → count a (map f (filter p xs)) ≤ count a (map f xs)
  unfolding count filter
  count-filter-le f p a [] = omega arith
  count-filter-le f p a (x ∷ xs) = ground (arith, count-filter-le f p a xs)

  pub contains-append :
      (a : A) (xs ys : List A) → contains (xs ++ ys) a ≡ (contains xs a || contains ys a)
  unfolding contains
  contains-append a [] ys = refl
  contains-append a (x ∷ xs) ys = ground (arith, contains-append a xs ys)

  pub count-positive : (a : A) (xs : List A) → contains xs a ≡ true → 1 ≤ count a xs
  unfolding contains count
  count-positive a [] h = cc
  count-positive a (x ∷ xs) h = ground (arith, count-positive a xs)

  pub erase : A → List A → List A
  erase a [] = []
  erase a (x ∷ xs) = if x == a then xs else x ∷ erase a xs

  length-erase :
      (a : A) (xs : List A) → contains xs a ≡ true → suc (length (erase a xs)) ≡ length xs
  unfolding contains erase
  length-erase a [] h = cc
  length-erase a (x ∷ xs) h = ground (arith, length-erase a xs)

  contains-erase :
      (a b : A) (xs : List A) → a ≢ b → contains xs b ≡ true → contains (erase a xs) b ≡ true
  unfolding contains erase
  contains-erase a b [] n h = h
  contains-erase a b (x ∷ xs) n h =
      ground (arith, e.is_same_iff x a, e.is_same_iff x b, contains-erase a b xs n)

  All-erase :
      (a : A) (ys xs : List A)
      → count a xs ≡ 0
      → All (λ x. contains ys x ≡ true) xs
      → All (λ x. contains (erase a ys) x ≡ true) xs
  unfolding count
  All-erase a ys [] c h = tt
  All-erase a ys (x ∷ xs) c h = elim (Bool-cases (x == a)) [
    | inl same ↦ absurd (ground arith)
    | inr other ↦ (
      contains-erase a x ys (λ p. ground (arith, e.is_same_iff x a)) h.0,
      All-erase a ys xs (ground arith) h.1,
    )
  ]

  pub Distinct-tail : (x : A) (xs : List A) → Distinct (x ∷ xs) → Distinct xs
  unfolding count
  Distinct-tail x xs d a = omega (arith, d a)

  pub Distinct-head : (x : A) (xs : List A) → Distinct (x ∷ xs) → count x xs ≡ 0
  unfolding count
  Distinct-head x xs d = ground (arith, d x, beq_refl x)

  pub Distinct-right : (xs ys : List A) → Distinct (xs ++ ys) → Distinct ys
  Distinct-right xs ys d a = omega (arith, d a, count-append a xs ys)

  -- A key of the first of two lists is not one of the second.
  pub Distinct-apart :
      (a : A) (xs ys : List A) → Distinct (xs ++ ys) → contains xs a ≡ true → contains ys a ≡ false
  Distinct-apart a xs ys d h =
      contains-count a ys (omega (arith, d a, count-append a xs ys, count-positive a xs h))

  -- Distinct keys that all lie in a list are no more than it has.
  pub pigeonhole :
      (xs ys : List A) → Distinct xs → All (λ x. contains ys x ≡ true) xs → length xs ≤ length ys
  pigeonhole [] ys d h = omega arith
  pigeonhole (x ∷ xs) ys d h = omega (
    arith,
    length-erase x ys h.0,
    pigeonhole xs (erase x ys) (Distinct-tail x xs d)
        (All-erase x ys xs (Distinct-head x xs d) h.1),
  )
