-- ===== src/Common/Triples.antt =====
-- Reasoning about calls that may fail: what holds of the value and the state at the end, on success
-- and on failure, with a rule for each way to build a call.
use mathlib.Core.Path.{◌≡◌, refl, subst}
use mathlib.Core.Bool.{Bool, true, false}
use web_sandbox.Common.Tests.{if◌then◌else◌}
use web_sandbox.Common.Actions.{Result, ok, err, Exec, continue, ◌>>=◌}

abbrev pub EndsAt {ℓ} :
    {S E A : Type 0} → (A → S → Type ℓ) → (E → S → Type ℓ) → Result E A × S → Type ℓ
EndsAt Q R (ok a, s) = Q a s
EndsAt Q R (err e, s) = R e s

-- A success ends in `Q` of the value and the state, a failure in `R` of the error and the state.
pub record Ends {S E A : Type 0} (Q : A → S → Type 0) (R : E → S → Type 0) (r : Result E A × S)
    : Type 0 where
  pub at : EndsAt Q R r

module _ {S E A : Type 0} {Q : A → S → Type 0} {R : E → S → Type 0} where
  pub Ends-ok : (a : A) (s : S) → Q a s → Ends Q R (ok a, s)
  Ends-ok a s h = record { at = h }

  pub Ends-err : (e : E) (s : S) → R e s → Ends Q R (err e, s)
  Ends-err e s h = record { at = h }

  pub Ends-lift :
      (r : Result E A) (s : S)
      → ((a : A) → r ≡ ok a → Q a s)
      → ((e : E) → r ≡ err e → R e s)
      → Ends Q R (r, s)
  Ends-lift (ok a) s q r = record { at = q a refl }
  Ends-lift (err e) s q r = record { at = r e refl }

  pub Ends-if :
      (b : Bool) (m n : Result E A × S)
      → (b ≡ true → Ends Q R m)
      → (b ≡ false → Ends Q R n)
      → Ends Q R (if b then m else n)
  Ends-if true m n h k = h refl
  Ends-if false m n h k = k refl

module _ {S E A : Type 0} (Q : A → S → Type 0) (R : E → S → Type 0) (Q' : A → S → Type 0)
    (R' : E → S → Type 0) where
  mono :
      (r : Result E A) (s : S)
      → EndsAt Q R (r, s)
      → ((a : A) → r ≡ ok a → Q a s → Q' a s)
      → ((e : E) → r ≡ err e → R e s → R' e s)
      → EndsAt Q' R' (r, s)
  mono (ok a) s h q r = q a refl h
  mono (err e) s h q r = r e refl h

  -- A weaker conclusion, from what the call returned.
  pub Ends-mono :
      (r : Result E A × S)
      → Ends Q R r
      → ((a : A) → r.0 ≡ ok a → Q a r.1 → Q' a r.1)
      → ((e : E) → r.0 ≡ err e → R e r.1 → R' e r.1)
      → Ends Q' R' r
  Ends-mono r h q k = record { at = mono r.0 r.1 h.at q k }

module _ {S E A B : Type 0} {Q : B → S → Type 0} {R : E → S → Type 0} where
  Ends-continue :
      (r : Result E A) (f : A → Exec S E B) (s : S)
      → EndsAt (λ a s'. Ends Q R (f a s')) R (r, s)
      → Ends Q R (continue r f s)
  Ends-continue (ok a) f s h = h
  Ends-continue (err e) f s h = record { at = h }

  pub Ends-bind :
      (m : Exec S E A) (f : A → Exec S E B) (s : S)
      → Ends (λ a s'. Ends Q R (f a s')) R (m s)
      → Ends Q R ((m >>= f) s)
  Ends-bind m f s h = Ends-continue (m s).0 f (m s).1 h.at

module _ {S E A : Type 0} (Q : A → S → Type 0) (R : E → S → Type 0) where
  at_ok : (r : Result E A) (s : S) (a : A) → EndsAt Q R (r, s) → r ≡ ok a → Q a s
  at_ok (ok b) s a h e = subst (λ x. Q x s) (cc) h
  at_ok (err x) s a h e = cc

  -- What a call that returned `a` has established.
  pub Ends-returned : (r : Result E A × S) (a : A) → Ends Q R r → r.0 ≡ ok a → Q a r.1
  Ends-returned r a h e = at_ok r.0 r.1 a h.at e

module _ {S E A : Type 0} (P : S → Type 0) where
  always : (r : Result E A) (s : S) → P s → EndsAt (λ _ s'. P s') (λ _ s'. P s') (r, s)
  always (ok a) s h = h
  always (err e) s h = h

  either : (r : Result E A) (s : S) → EndsAt (λ _ s'. P s') (λ _ s'. P s') (r, s) → P s
  either (ok a) s h = h
  either (err e) s h = h

  -- What holds of the state alone, however the call ended.
  pub Ends-always : (r : Result E A × S) → P r.1 → Ends (λ _ s'. P s') (λ _ s'. P s') r
  Ends-always r h = record { at = always r.0 r.1 h }

  pub Ends-either : (r : Result E A × S) → Ends (λ _ s'. P s') (λ _ s'. P s') r → P r.1
  Ends-either r h = either r.0 r.1 h.at

-- Two accounts of one call.
pub Ends-and :
    {S E A : Type 0} {Q : A → S → Type 0} {R : E → S → Type 0} {Q' : A → S → Type 0}
    {R' : E → S → Type 0} (m : Result E A × S)
    → Ends Q R m
    → Ends Q' R' m
    → Ends (λ a s. Q a s × Q' a s) (λ e s. R e s × R' e s) m
Ends-and (ok a, s) h k = record { at = (h.at, k.at) }
Ends-and (err e, s) h k = record { at = (h.at, k.at) }
