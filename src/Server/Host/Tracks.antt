-- ===== src/Server/Host/Tracks.antt =====
-- internal/server: what is held on the host and what has been taken and released since some earlier state.
use web_sandbox.Registry.Engine.{Conn}
use web_sandbox.Server.Host.{Held, Host, hold, holds, release, same_held_iff, Eq-Held}
use web_sandbox.Common.{
  Bool, List, [], arith, contains, false, filter, not, refl, true, ◌&&◌, ◌==◌, ◌∷◌, ◌≡◌, ◌||◌, ap,
  ◌∙◌, sym,
}

pub contains-filter :
    (x h : Held) (xs : List Held)
    → contains (filter (λ y. not (y == x)) xs) h ≡ (not (x == h) && contains xs h)
unfolding contains filter
contains-filter x h [] = ground arith
contains-filter x h (y ∷ xs) =
    ground (arith, same_held_iff y x, same_held_iff y h, same_held_iff x h, contains-filter x h xs)

-- Whatever is not among `own` is held as before. What is held now was held before or is one of `may`,
-- and all of `must` is held. The connection is `c`.
pub record Track (own : Held → Bool) (may must : List Held) (before : Host) (c : Conn) (s : Host)
    : Type 0 where
  pub frame : (h : Held) → own h ≡ false → holds h s ≡ holds h before
  pub within : (h : Held) → holds h s ≡ true → (holds h before || contains may h) ≡ true
  pub has : (h : Held) → contains must h ≡ true → holds h s ≡ true
  pub conn_is : s.conn ≡ c

pub Track-start : (own : Held → Bool) (s : Host) → Track own [] [] s s.conn s
unfolding contains
Track-start own s = record {
  frame = λ h _. refl;
  within = λ h k. ground arith;
  has = λ h k. cc;
  conn_is = refl;
}

module _ {own : Held → Bool} {may must : List Held} {before : Host} {c : Conn} where
  pub hold-Track :
      (x : Held) (s : Host)
      → own x ≡ true
      → Track own may must before c s
      → Track own (x ∷ may) (x ∷ must) before c (hold x s)
  unfolding contains
  hold-Track x s o t = record {
    frame = λ h k. ground (arith, t.frame h k, same_held_iff x h, o);
    within = λ h k. ground (arith, t.within h);
    has = λ h k. ground (arith, t.has h);
    conn_is = t.conn_is;
  }

  -- A wider `own` and `may`, and no `must`.
  pub Track-weaken :
      (own' : Held → Bool) (may' : List Held) (s : Host)
      → ((h : Held) → own' h ≡ false → own h ≡ false)
      → ((h : Held) → contains may h ≡ true → contains may' h ≡ true)
      → Track own may must before c s
      → Track own' may' [] before c s
  unfolding contains
  Track-weaken own' may' s o m t = record {
    frame = λ h k. t.frame h (o h k);
    within = λ h k. ground (arith, t.within h, m h);
    has = λ h k. cc;
    conn_is = t.conn_is;
  }

  pub Track-widen :
      (own' : Held → Bool) (s : Host)
      → ((h : Held) → own' h ≡ false → own h ≡ false)
      → Track own may must before c s
      → Track own' may must before c s
  Track-widen own' s o t = record {
    frame = λ h k. t.frame h (o h k);
    within = t.within;
    has = t.has;
    conn_is = t.conn_is;
  }

  pub release-Track :
      (x : Held) (may' : List Held) (s : Host)
      → own x ≡ true
      → ((h : Held) → contains may h ≡ true → (x == h || contains may' h) ≡ true)
      → Track own may must before c s
      → Track own may' [] before c (release x s)
  unfolding contains release
  release-Track x may' s o m t = record {
    frame = λ h k. ground (arith, t.frame h k, same_held_iff x h, o, contains-filter x h s.held);
    within = λ h k. ground (arith, t.within h, m h, contains-filter x h s.held);
    has = λ h k. cc;
    conn_is = t.conn_is;
  }

  -- The same, for what is still held after it.
  pub release-Track_must :
      (x : Held) (may' must' : List Held) (s : Host)
      → own x ≡ true
      → ((h : Held) → contains may h ≡ true → (x == h || contains may' h) ≡ true)
      → ((h : Held) → contains must' h ≡ true → (contains must h && not (x == h)) ≡ true)
      → Track own may must before c s
      → Track own may' must' before c (release x s)
  unfolding contains release
  release-Track_must x may' must' s o m n t = record {
    frame = (release-Track x may' s o m t).frame;
    within = (release-Track x may' s o m t).within;
    has = λ h k. ground (arith, t.has h, n h k, contains-filter x h s.held);
    conn_is = t.conn_is;
  }

  -- What changes neither what is held nor the connection.
  pub Track-same :
      (s s' : Host)
      → s'.held ≡ s.held
      → s'.conn ≡ s.conn
      → Track own may must before c s
      → Track own may must before c s'
  Track-same s s' e f t = record {
    frame = λ h k. ap (λ l. contains l h) e ∙ t.frame h k;
    within = λ h k. t.within h (sym (ap (λ l. contains l h) e) ∙ k);
    has = λ h k. ap (λ l. contains l h) e ∙ t.has h k;
    conn_is = f ∙ t.conn_is;
  }

  pub Track-held :
      (s s' : Host)
      → s'.held ≡ s.held
      → Track own may must before c s
      → Track own may must before s'.conn s'
  Track-held s s' e t = record {
    frame = λ h k. ap (λ l. contains l h) e ∙ t.frame h k;
    within = λ h k. t.within h (sym (ap (λ l. contains l h) e) ∙ k);
    has = λ h k. ap (λ l. contains l h) e ∙ t.has h k;
    conn_is = refl;
  }

  pub Track-conn :
      (c' : Conn) (s : Host)
      → Track own may must before c s
      → Track own may must before c' (record s { conn = c' })
  Track-conn c' s t = record { frame = t.frame; within = t.within; has = t.has; conn_is = refl }

-- Exactly these are released, and nothing is taken.
pub record Releases (xs : List Held) (before s : Host) : Type 0 where
  pub left : (h : Held) → holds h s ≡ (not (contains xs h) && holds h before)

pub Releases-start : (s : Host) → Releases [] s s
unfolding contains
Releases-start s = record { left = λ h. refl }

pub Releases-same :
    (xs : List Held) (before s s' : Host)
    → s'.held ≡ s.held
    → Releases xs before s
    → Releases xs before s'
Releases-same xs before s s' e r = record { left = λ h. ap (λ l. contains l h) e ∙ r.left h }

module _ {xs : List Held} {before : Host} where
  pub release-Releases :
      (x : Held) (s : Host) → Releases xs before s → Releases (x ∷ xs) before (release x s)
  unfolding contains release
  release-Releases x s r = record {
    left = λ h. ground (arith, r.left h, contains-filter x h s.held);
  }

  -- What was taken since is among what has been released.
  pub Track-Releases :
      {own : Held → Bool} {may must : List Held} {first : Host} {c : Conn} (may' : List Held)
      (s : Host)
      → ((h : Held) → own h ≡ false → contains xs h ≡ false)
      → ((h : Held) → contains may h ≡ true → (contains xs h || contains may' h) ≡ true)
      → Track own may must first c before
      → Releases xs before s
      → Track own may' [] first s.conn s
  unfolding contains
  Track-Releases may' s o m t r = record {
    frame = λ h k. ground (arith, r.left h, o h k, t.frame h k);
    within = λ h k. ground (arith, r.left h, m h, t.within h);
    has = λ h k. cc;
    conn_is = refl;
  }
