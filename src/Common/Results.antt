-- ===== src/Common/Results.antt =====
-- Calls that may fail and change no state: do blocks over Go's (value, error).
use web_sandbox.Common.{Result, err, ok, ◌≡◌, refl}

module _ {E : Type 0} where
  infixl 5 ◌>>=◌ ◌>>◌
  abbrev pub ◌>>=◌ : {A B : Type 0} → Result E A → (A → Result E B) → Result E B
  ok a >>= f = f a
  err e >>= f = err e

  abbrev pub ◌>>◌ : {A B : Type 0} → Result E A → Result E B → Result E B
  m >> k = m >>= λ _. k

  module _ {A B : Type 0} where
    -- A chain that has succeeded has succeeded at its first call.
    pub >>=-ok :
        (m : Result E A) (f : A → Result E B) (b : B)
        → (m >>= f) ≡ ok b
        → (a : A) × (m ≡ ok a) × (f a ≡ ok b)
    >>=-ok (ok a) f b h = (a, refl, h)
    >>=-ok (err e) f b h = cc
