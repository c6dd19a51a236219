-- ===== src/Server/Sandboxes/Elsewhere.antt =====
-- internal/server: what the calls for one sandbox leave alone.
use web_sandbox.Registry.Engine.{Conn, Sql, find_sandbox}
use web_sandbox.Registry.Invariant.{IsConsistent}
use web_sandbox.Server.Host.{
  Act, Held, Host, Outcome, done, refused, broken, acquire, attempt, attempted, holds, on_error,
  registry, release, same_held_iff, taken, undo, Eq-Held,
}
use web_sandbox.Server.Host.Tracks.{contains-filter}
use web_sandbox.Common.{
  Bool, Result, String, ap, arith, contains, continue, err, false, ok, refl, subst, sym, true, ℕ,
  ◌+◌, ◌==◌, ◌>>=◌, ◌∙◌, ◌≡◌, Eq-String,
}

-- Nothing changes but what is among `own`, the row of `id` and its entry in the table of machines, and
-- consistent tables stay consistent.
pub record Elsewhere (own : Held → Bool) (id : String) (s s' : Host) : Type 0 where
  pub frame : (h : Held) → own h ≡ false → holds h s' ≡ holds h s
  pub rows :
      (other : String)
      → (other == id) ≡ false
      → find_sandbox other s'.conn.db ≡ find_sandbox other s.conn.db
  pub tracks :
      (other : String)
      → (other == id) ≡ false
      → contains s'.machines other ≡ contains s.machines other
  pub consistent : IsConsistent s.conn.db → IsConsistent s'.conn.db

-- A call of the registry that concerns the row of `id` only.
pub record Concerns (id : String) (c c' : Conn) : Type 0 where
  pub rows :
      (other : String) → (other == id) ≡ false → find_sandbox other c'.db ≡ find_sandbox other c.db
  pub consistent : IsConsistent c.db → IsConsistent c'.db

module _ (own : Held → Bool) (id : String) where
  pub Elsewhere-same :
      (s s' : Host)
      → s'.held ≡ s.held
      → s'.conn ≡ s.conn
      → s'.machines ≡ s.machines
      → Elsewhere own id s s'
  Elsewhere-same s s' e f g = record {
    frame = λ h _. ap (λ l. contains l h) e;
    rows = λ other _. ap (λ c. find_sandbox other c.db) f;
    tracks = λ other _. ap (λ l. contains l other) g;
    consistent = λ v. subst (λ c. IsConsistent c.db) (sym f) v;
  }

  pub Elsewhere-trans :
      (s₀ s₁ s₂ : Host) → Elsewhere own id s₀ s₁ → Elsewhere own id s₁ s₂ → Elsewhere own id s₀ s₂
  Elsewhere-trans s₀ s₁ s₂ a b = record {
    frame = λ h o. b.frame h o ∙ a.frame h o;
    rows = λ other n. b.rows other n ∙ a.rows other n;
    tracks = λ other n. b.tracks other n ∙ a.tracks other n;
    consistent = λ v. b.consistent (a.consistent v);
  }

  -- A call that leaves everything else alone, from every state and however it ends.
  pub record Stays {A : Type 0} (m : Act A) : Type 0 where
    pub stays : (s : Host) → Elsewhere own id s (m s).1

  taken-Elsewhere :
      (x : Held) (o : Outcome) (s : Host) → own x ≡ true → Elsewhere own id s (taken x o s).1
  unfolding taken contains
  taken-Elsewhere x done s own_x = record {
    frame = λ h k. ground (arith, same_held_iff x h, own_x);
    rows = λ other _. refl;
    tracks = λ other _. refl;
    consistent = λ v. v;
  }
  taken-Elsewhere x refused s own_x = Elsewhere-same s s refl refl refl
  taken-Elsewhere x broken s own_x = record {
    frame = λ h k. ground (arith, same_held_iff x h, own_x);
    rows = λ other _. refl;
    tracks = λ other _. refl;
    consistent = λ v. v;
  }

  pub Stays-acquire : (x : Held) → own x ≡ true → Stays (acquire x)
  unfolding acquire
  Stays-acquire x o = record {
    stays = λ s.
        let counted : Host = record s { acts = s.acts + 1 } in
        Elsewhere-trans s counted _ (Elsewhere-same s counted refl refl refl)
          (taken-Elsewhere x (s.outcomes s.acts) counted o);
  }

  attempted-Elsewhere : (o : Outcome) (s : Host) → Elsewhere own id s (attempted o s).1
  unfolding attempted
  attempted-Elsewhere done s = Elsewhere-same s s refl refl refl
  attempted-Elsewhere refused s = Elsewhere-same s s refl refl refl
  attempted-Elsewhere broken s = Elsewhere-same s s refl refl refl

  pub Stays-attempt : Stays attempt
  unfolding attempt
  Stays-attempt = record {
    stays = λ s.
        let counted : Host = record s { acts = s.acts + 1 } in
        Elsewhere-trans s counted _ (Elsewhere-same s counted refl refl refl)
          (attempted-Elsewhere (s.outcomes s.acts) counted);
  }

  pub release-Elsewhere : (x : Held) (s : Host) → own x ≡ true → Elsewhere own id s (release x s)
  unfolding release
  release-Elsewhere x s o = record {
    frame = λ h k. ground (arith, same_held_iff x h, o, contains-filter x h s.held);
    rows = λ other _. refl;
    tracks = λ other _. refl;
    consistent = λ v. v;
  }

  pub Stays-registry :
      {A : Type 0} (status : ℕ) (m : Sql A)
      → ((c : Conn) → Concerns id c (m c).1)
      → Stays (registry status m)
  unfolding registry
  Stays-registry status m k = record {
    stays = λ s. record {
      frame = λ h _. refl;
      rows = (k s.conn).rows;
      tracks = λ other _. refl;
      consistent = (k s.conn).consistent;
    };
  }

  module _ {A B : Type 0} where
    continue-Elsewhere :
        (r : Result ℕ A) (k : A → Act B) (s : Host)
        → ((a : A) → Stays (k a))
        → Elsewhere own id s (continue r k s).1
    continue-Elsewhere (ok a) k s h = (h a).stays s
    continue-Elsewhere (err e) k s h = Elsewhere-same s s refl refl refl

    pub Stays-bind :
        (m : Act A) (k : A → Act B) → Stays m → ((a : A) → Stays (k a)) → Stays (m >>= k)
    Stays-bind m k h g = record {
      stays = λ s. Elsewhere-trans s (m s).1 _ (h.stays s) (continue-Elsewhere (m s).0 k (m s).1 g);
    }

  module _ {A : Type 0} where
    undo-Elsewhere :
        (f : Host → Host) (r : Result ℕ A) (s : Host)
        → ((t : Host) → Elsewhere own id t (f t))
        → Elsewhere own id s (undo f (r, s)).1
    undo-Elsewhere f (ok a) s h = Elsewhere-same s s refl refl refl
    undo-Elsewhere f (err e) s h = h s

    pub Stays-on_error :
        (m : Act A) (f : Host → Host)
        → Stays m
        → ((t : Host) → Elsewhere own id t (f t))
        → Stays (on_error m f)
    unfolding on_error
    Stays-on_error m f h g = record {
      stays = λ s. Elsewhere-trans s (m s).1 _ (h.stays s) (undo-Elsewhere f (m s).0 (m s).1 g);
    }
