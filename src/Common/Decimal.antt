-- ===== src/Common/Decimal.antt =====
-- Decimal text: strconv.Itoa, and the `%d` verb of fmt on a number that is not negative.
use Prim.Native.Nat.{ℕ, zero, suc, ◌+◌, ◌-◌, ◌*◌, ◌/◌, ◌%◌, ◌<◌}
use Prim.Native.Char.{Char, code}
use Prim.Native.String.{String}
use mathlib.Core.Path.{◌≡◌, refl, sym, ap, ◌∙◌}
use mathlib.Core.Logic.{inl, inr}
use native.Mathlib.Omega.{arith}
use web_sandbox.Common.Tests.{ltb, if◌then◌else◌, Bool-cases, ◌==◌, Eq-String}
use text.Mathlib.TextEquality.{eq_iff}
use mathlib.Core.Bool.{false}

unfoldable pub digit : ℕ → Char
digit zero = "0"
digit (suc zero) = "1"
digit (suc (suc zero)) = "2"
digit (suc (suc (suc zero))) = "3"
digit (suc (suc (suc (suc zero)))) = "4"
digit (suc (suc (suc (suc (suc zero))))) = "5"
digit (suc (suc (suc (suc (suc (suc zero)))))) = "6"
digit (suc (suc (suc (suc (suc (suc (suc zero))))))) = "7"
digit (suc (suc (suc (suc (suc (suc (suc (suc zero)))))))) = "8"
digit _ = "9"

-- The digits of `n`, put in front of a text.
unfoldable pub digits_onto : ℕ → ℕ → String → String
digits_onto zero n tail = tail
digits_onto (suc fuel) n tail =
    let rest = digits_onto fuel (n / 10) (String.◌∷◌ (digit (n % 10)) tail) in
    if ltb n 10 then String.◌∷◌ (digit n) tail else rest

-- `n + 1` rounds are enough, since each takes a digit off `n`.
unfoldable pub itoa : ℕ → String
unfolding digits_onto digit
itoa n = digits_onto (suc n) n ""

pub code-digit : (d : ℕ) → d < 10 → code (digit d) ≡ 48 + d
unfolding digit
code-digit zero h = refl
code-digit (suc zero) h = refl
code-digit (suc (suc zero)) h = refl
code-digit (suc (suc (suc zero))) h = refl
code-digit (suc (suc (suc (suc zero)))) h = refl
code-digit (suc (suc (suc (suc (suc zero))))) h = refl
code-digit (suc (suc (suc (suc (suc (suc zero)))))) h = refl
code-digit (suc (suc (suc (suc (suc (suc (suc zero))))))) h = refl
code-digit (suc (suc (suc (suc (suc (suc (suc (suc zero)))))))) h = refl
code-digit (suc (suc (suc (suc (suc (suc (suc (suc (suc zero))))))))) h = refl
code-digit (suc (suc (suc (suc (suc (suc (suc (suc (suc (suc n)))))))))) h = absurd (omega arith)

value : ℕ → String → ℕ
value v String.[] = v
value v (String.◌∷◌ c s) = value (v * 10 + (code c - 48)) s

value-digits_onto :
    (fuel n : ℕ) (tail : String) → n < fuel → value 0 (digits_onto fuel n tail) ≡ value n tail
unfolding digits_onto value
value-digits_onto zero n tail h = absurd (omega arith)
value-digits_onto (suc fuel) n tail h = elim (Bool-cases (ltb n 10)) [
  | inl small ↦ rw small (ap (λ v. value v tail) (ground (arith, code-digit n)))
  | inr large ↦ rw large (
      value-digits_onto fuel (n / 10) (String.◌∷◌ (digit (n % 10)) tail) (ground arith)
      ∙ ap (λ v. value v tail) (omega (arith, code-digit (n % 10) (omega arith))))
]

value-itoa : (n : ℕ) → value 0 (itoa n) ≡ n
unfolding itoa value
value-itoa n = value-digits_onto (suc n) n "" (omega arith)

-- Two numbers with one decimal text are equal.
pub itoa-injective : (m n : ℕ) → itoa m ≡ itoa n → m ≡ n
itoa-injective m n e = sym (value-itoa m) ∙ ap (value 0) e ∙ value-itoa n

zero_nonempty : (itoa 0 == "") ≡ false
unfolding itoa
zero_nonempty = refl

value-empty : (s : String) → s ≡ "" → value 0 s ≡ 0
unfolding value
value-empty s e = ap (value 0) e

-- A printed number has a digit.
pub itoa_nonempty : (n : ℕ) → (itoa n == "") ≡ false
itoa_nonempty n = elim (Bool-cases (itoa n == "")) [
  | inr some_ ↦ some_
  | inl empty ↦
      let zero_ : n ≡ 0 =
        sym (value-itoa n) ∙ value-empty (itoa n) ((eq_iff (itoa n) "").0 empty) in
      ap (λ m. itoa m == "") zero_ ∙ zero_nonempty
]
