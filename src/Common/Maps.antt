-- ===== src/Common/Maps.antt =====
-- Go's maps with text keys, as lists of entries. The order in which a `range` loop visits a map is
-- that of the list, so what holds for every list holds for every order.
use Prim.Native.String.{String}
use mathlib.Core.Path.{◌≡◌, refl}
use mathlib.Core.Bool.{Bool}
use mathlib.Core.Option.{Option, none, some}
use mathlib.Core.List.{List, [], ◌∷◌}
use native.Mathlib.Omega.{arith}
use text.Mathlib.TextEquality.{eq_iff}
use mathlib.Core.Logic.{inl, inr}
use web_sandbox.Common.Tests.{Eq-String, ◌==◌, if◌then◌else◌, Bool-cases, beq_refl}

abbrev pub Map {ℓ} : Type ℓ → Type ℓ
Map V = List (String × V)

module _ {ℓ} {V : Type ℓ} where
  -- m[k], with `none` for a missing key.
  unfoldable pub lookup : String → Map V → Option V
  lookup k [] = none
  lookup k ((j, v) ∷ m) = if j == k then some v else lookup k m

  -- delete(m, k)
  unfoldable pub remove : String → Map V → Map V
  remove k [] = []
  remove k ((j, v) ∷ m) = let rest = remove k m in if j == k then rest else (j, v) ∷ rest

  -- m[k] = v
  unfoldable pub put : String → V → Map V → Map V
  unfolding remove
  put k v m = (k, v) ∷ remove k m

  -- The loop that deletes the entries with a value that passes a test.
  unfoldable pub remove_where : (V → Bool) → Map V → Map V
  remove_where p [] = []
  remove_where p ((j, v) ∷ m) = let rest = remove_where p m in if p v then rest else (j, v) ∷ rest

  pub lookup-remove :
      (k j : String) (m : Map V) → lookup j (remove k m) ≡ (if k == j then none else lookup j m)
  unfolding lookup remove
  lookup-remove k j [] = ground arith
  lookup-remove k j ((i, v) ∷ m) =
      ground (arith, eq_iff k j, eq_iff i k, eq_iff i j, lookup-remove k j m)

  pub lookup-put :
      (k j : String) (v : V) (m : Map V)
      → lookup j (put k v m) ≡ (if k == j then some v else lookup j m)
  unfolding lookup put
  lookup-put k j v m = ground (arith, lookup-remove k j m)

-- The loop deletes every entry of its kind, where no key has two entries.
module _ {ℓ} {V : Type ℓ} where
  -- No key has two entries, as in every map.
  abbrev pub IsMap : Map V → Type ℓ
  IsMap [] = Unit
  IsMap ((k, v) ∷ m) = (lookup k m ≡ none) × IsMap m

  abbrev pub keep_unless : (V → Bool) → Option V → Option V
  keep_unless p none = none
  keep_unless p (some v) = if p v then none else some v

  lookup-remove_where-none :
      (p : V → Bool) (k : String) (m : Map V)
      → lookup k m ≡ none
      → lookup k (remove_where p m) ≡ none
  unfolding lookup remove_where
  lookup-remove_where-none p k [] h = refl
  lookup-remove_where-none p k ((j, v) ∷ m) h = ground (arith, lookup-remove_where-none p k m)

  pub lookup-remove_where :
      (p : V → Bool) (k : String) (m : Map V)
      → IsMap m
      → lookup k (remove_where p m) ≡ keep_unless p (lookup k m)
  unfolding lookup remove_where
  lookup-remove_where p k [] h = refl
  lookup-remove_where p k ((j, v) ∷ m) h =
      ground (arith, eq_iff j k, lookup-remove_where p k m h.1, lookup-remove_where-none p k m)

  pub remove_where-IsMap : (p : V → Bool) (m : Map V) → IsMap m → IsMap (remove_where p m)
  unfolding remove_where
  remove_where-IsMap p [] h = tt
  remove_where-IsMap p ((j, v) ∷ m) h = elim (Bool-cases (p v)) [
    | inl gone ↦ rw gone (remove_where-IsMap p m h.1)
    | inr kept ↦ rw kept (lookup-remove_where-none p j m h.0, remove_where-IsMap p m h.1)
  ]

  pub remove-IsMap : (k : String) (m : Map V) → IsMap m → IsMap (remove k m)
  unfolding remove
  remove-IsMap k [] h = tt
  remove-IsMap k ((j, v) ∷ m) h = elim (Bool-cases (j == k)) [
    | inl gone ↦ rw gone (remove-IsMap k m h.1)
    | inr kept ↦ rw kept (ground (arith, lookup-remove k j m, h.0), remove-IsMap k m h.1)
  ]

  pub put-IsMap : (k : String) (v : V) (m : Map V) → IsMap m → IsMap (put k v m)
  unfolding put
  put-IsMap k v m h = (rw (lookup-remove k k m) (rw (beq_refl k) refl), remove-IsMap k m h)
