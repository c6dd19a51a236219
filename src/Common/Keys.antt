-- ===== src/Common/Keys.antt =====
-- Distinct keys of tables whose rows are inserted, deleted and updated.
use mathlib.Core.Path.{◌≡◌, refl}
use mathlib.Core.Bool.{Bool, false}
use mathlib.Core.List.{List, [], ◌∷◌, ◌++◌, map}
use native.Mathlib.Omega.{arith}
use web_sandbox.Common.Tests.{Eq}
use web_sandbox.Common.Lists.{filter}
use web_sandbox.Common.Counts.{
  count, contains, Distinct, count-cons, count-append, count-contains, count-filter-le,
}

pub filter_comm {ℓ} :
    {A : Type ℓ} (p q : A → Bool) (xs : List A) → filter p (filter q xs) ≡ filter q (filter p xs)
unfolding filter
filter_comm p q [] = refl
filter_comm p q (x ∷ xs) = ground (arith, filter_comm p q xs)

module _ {ℓ} {A : Type ℓ} ⦃e : Eq A⦄ where
  pub Distinct-nil : Distinct {A = A} []
  unfolding count
  Distinct-nil a = omega arith

  pub Distinct-cons :
      (a : A) (xs : List A) → contains xs a ≡ false → Distinct xs → Distinct (a ∷ xs)
  Distinct-cons a xs new d b =
      ground (arith, e.is_same_iff a b, count-cons b a xs, count-contains a xs, d b)

  pub Distinct-middle :
      (a : A) (xs ys : List A)
      → contains (xs ++ ys) a ≡ false
      → Distinct (xs ++ ys)
      → Distinct (xs ++ (a ∷ ys))
  Distinct-middle a xs ys new d b = ground (
    arith,
    e.is_same_iff a b,
    count-cons b a ys,
    count-append b xs ys,
    count-append b xs (a ∷ ys),
    count-append a xs ys,
    count-contains a (xs ++ ys),
    d b,
  )

  module _ {κ} {B : Type κ} (f : B → A) where
    pub Distinct-filter :
        (p : B → Bool) (xs : List B) → Distinct (map f xs) → Distinct (map f (filter p xs))
    Distinct-filter p xs d a = omega (arith, d a, count-filter-le f p a xs)

    pub Distinct-append-filter {μ} :
        {C : Type μ} (g : C → A) (p : B → Bool) (q : C → Bool) (xs : List B) (ys : List C)
        → Distinct (map f xs ++ map g ys)
        → Distinct (map f (filter p xs) ++ map g (filter q ys))
    Distinct-append-filter g p q xs ys d a = omega (
      arith,
      d a,
      count-append a (map f xs) (map g ys),
      count-append a (map f (filter p xs)) (map g (filter q ys)),
      count-filter-le f p a xs,
      count-filter-le g q a ys,
    )

  pub Distinct-append-filter_right {κ} :
      {C : Type κ} (xs : List A) (g : C → A) (q : C → Bool) (ys : List C)
      → Distinct (xs ++ map g ys)
      → Distinct (xs ++ map g (filter q ys))
  Distinct-append-filter_right xs g q ys d a = omega (
    arith,
    d a,
    count-append a xs (map g ys),
    count-append a xs (map g (filter q ys)),
    count-filter-le g q a ys,
  )
