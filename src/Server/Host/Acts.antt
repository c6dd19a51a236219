-- ===== src/Server/Host/Acts.antt =====
-- internal/server: the numbers of the calls of a handler, and how they ended.
use web_sandbox.Server.Host.{
  Held, Host, Outcome, acquire, attempt, attempted, broken, done, refused, taken,
}
use web_sandbox.Common.{
  ℕ, Ends, Ends-err, Ends-ok, ap, inl, inr, refl, arith, sym, ◌+◌, ◌∙◌, ◌≡◌, ◌⊎◌,
}

module _ (before : Host) where
  -- `k` calls have been made since the state `before`.
  abbrev pub At : ℕ → Host → Type 0
  At k s = (s.acts ≡ before.acts + k) × (s.outcomes ≡ before.outcomes)

  -- How the call with this number since then ends.
  abbrev pub EndsAs : ℕ → Outcome → Type 0
  EndsAs k o = before.outcomes (before.acts + k) ≡ o

  -- It fails.
  abbrev pub Fails : ℕ → Type 0
  Fails k = EndsAs k refused ⊎ EndsAs k broken

  taken-Acts :
      (x : Held) (k n : ℕ) (o : Outcome) (s : Host)
      → EndsAs k o
      → At n s
      → Ends (λ _ s'. EndsAs k done × At n s') (λ _ s'. Fails k) (taken x o s)
  unfolding taken
  taken-Acts x k n done s e t = Ends-ok _ _ (e, t)
  taken-Acts x k n refused s e t = Ends-err _ _ (inl e)
  taken-Acts x k n broken s e t = Ends-err _ _ (inr e)

  attempted-Acts :
      (k n : ℕ) (o : Outcome) (s : Host)
      → EndsAs k o
      → At n s
      → Ends (λ _ s'. EndsAs k done × At n s') (λ _ s'. Fails k × At n s') (attempted o s)
  unfolding attempted
  attempted-Acts k n done s e t = Ends-ok _ _ (e, t)
  attempted-Acts k n refused s e t = Ends-err _ _ (inl e, t)
  attempted-Acts k n broken s e t = Ends-err _ _ (inr e, t)

  pub ends_as : (k : ℕ) (s : Host) → At k s → EndsAs k (s.outcomes s.acts)
  ends_as k s t = sym (ap (λ f. f s.acts) t.1 ∙ ap before.outcomes t.0)

  one_more : (k : ℕ) (s : Host) → At k s → At (k + 1) (record s { acts = s.acts + 1 })
  one_more k s t = let e : s.acts ≡ before.acts + k = t.0 in (omega arith, t.1)

  pub acquire-Acts :
      (x : Held) (k : ℕ) (s : Host)
      → At k s
      → Ends (λ _ s'. EndsAs k done × At (k + 1) s') (λ _ s'. Fails k) (acquire x s)
  unfolding acquire
  acquire-Acts x k s t =
      taken-Acts x k (k + 1) (s.outcomes s.acts) _ (ends_as k s t) (one_more k s t)

  pub attempt-Acts :
      (k : ℕ) (s : Host)
      → At k s
      → Ends (λ _ s'. EndsAs k done × At (k + 1) s') (λ _ s'. Fails k × At (k + 1) s') (attempt s)
  unfolding attempt
  attempt-Acts k s t =
      attempted-Acts k (k + 1) (s.outcomes s.acts) _ (ends_as k s t) (one_more k s t)

pub At-start : (s : Host) → At s 0 s
At-start s = (omega arith, refl)
