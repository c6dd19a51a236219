-- ===== src/Server/Host/Rules.antt =====
-- internal/server: what each call does to what is held on the host. `Track own may must before c s`
-- follows the calls from the state `before` to the state `s`.
use web_sandbox.Registry.Engine.{Conn, Sql}
use web_sandbox.Registry.Pools.{Error}
use web_sandbox.Server.Timeouts.{status_of}
use web_sandbox.Server.Host.{
  Act, Held, Host, Outcome, acquire, attempt, attempted, broken, done, hold, on_error, refused,
  registry, taken, undo, Eq-Held,
}
use web_sandbox.Common.{
  inl, inr, ◌⊎◌, Ends-bind, Ends-mono, ◌>>=◌, Bool, ℕ, Ends, Ends-err, Ends-ok, EndsAt, List,
  Result, [], arith, contains, err, ok, refl, true, ◌∷◌, ◌≡◌,
}
use web_sandbox.Server.Host.Tracks.{Track, hold-Track, Track-weaken, Track-same}

module _ {own : Held → Bool} {may must : List Held} {before : Host} {c : Conn} where
  taken-Ends :
      (x : Held) (o : Outcome) (s : Host)
      → own x ≡ true
      → Track own may must before c s
      → Ends
          (λ _ s'. Track own (x ∷ may) (x ∷ must) before c s')
          (λ _ s'.
            Track own may [] before c s' ⊎ ((o ≡ broken) × Track own (x ∷ may) [] before c s'))
          (taken x o s)
  unfolding taken contains
  taken-Ends x done s o t = Ends-ok _ _ (hold-Track x s o t)
  taken-Ends x refused s o t = Ends-err _ _ (inl (Track-weaken own may s (λ h k. k) (λ h k. k) t))
  taken-Ends x broken s o t =
      let taken_it : Track own (x ∷ may) (x ∷ must) before c (hold x s) = hold-Track x s o t in
      Ends-err _ _ (
        inr (
          refl,
          record {
            frame = taken_it.frame;
            within = taken_it.within;
            has = λ h k. cc;
            conn_is = taken_it.conn_is;
          },
        ))

  -- A call that fails has taken something only if it broke off.
  pub acquire-Ends_broken :
      (x : Held) (s : Host)
      → own x ≡ true
      → Track own may must before c s
      → Ends
          (λ _ s'. Track own (x ∷ may) (x ∷ must) before c s')
          (λ _ s'.
            Track own may [] before c s'
            ⊎ ((s.outcomes s.acts ≡ broken) × Track own (x ∷ may) [] before c s'))
          (acquire x s)
  unfolding acquire
  acquire-Ends_broken x s o t = taken-Ends x (s.outcomes s.acts) _ o (Track-same s _ refl refl t)

  attempted-Ends :
      (o : Outcome) (s s' : Host)
      → s'.held ≡ s.held
      → s'.conn ≡ s.conn
      → s'.machines ≡ s.machines
      → Track own may must before c s
      → Ends
          (λ _ s''. Track own may must before c s'' × (s''.machines ≡ s.machines))
          (λ _ s''. Track own may must before c s'' × (s''.machines ≡ s.machines))
          (attempted o s')
  unfolding attempted
  attempted-Ends done s s' e f g t = Ends-ok _ _ (Track-same s s' e f t, g)
  attempted-Ends refused s s' e f g t = Ends-err _ _ (Track-same s s' e f t, g)
  attempted-Ends broken s s' e f g t = Ends-err _ _ (Track-same s s' e f t, g)

  pub attempt-Ends :
      (s : Host)
      → Track own may must before c s
      → Ends
          (λ _ s'. Track own may must before c s' × (s'.machines ≡ s.machines))
          (λ _ s'. Track own may must before c s' × (s'.machines ≡ s.machines))
          (attempt s)
  unfolding attempt
  attempt-Ends s t = attempted-Ends (s.outcomes s.acts) s _ refl refl refl t

module _ {own : Held → Bool} {may must : List Held} {before : Host} {c : Conn} where
  pub acquire-Ends :
      (x : Held) (s : Host)
      → own x ≡ true
      → Track own may must before c s
      → Ends
          (λ _ s'. Track own (x ∷ may) (x ∷ must) before c s')
          (λ _ s'. Track own (x ∷ may) [] before c s')
          (acquire x s)
  unfolding contains
  acquire-Ends x s o t =
      Ends-mono _ _ _ _ _ (acquire-Ends_broken x s o t) (λ _ _ h. h)
        (λ _ _ h. elim h [
          | inl none_ ↦ Track-weaken own (x ∷ may) _ (λ y k. k) (λ y k. ground arith) none_
          | inr some_ ↦ some_.1
        ])

undo-Ends :
    {A : Type 0} {Q : A → Host → Type 0} (R R' : ℕ → Host → Type 0) (f : Host → Host)
    (r : Result ℕ A) (s : Host)
    → EndsAt Q R (r, s)
    → ((e : ℕ) (s' : Host) → R e s' → R' e (f s'))
    → Ends Q R' (undo f (r, s))
undo-Ends R R' f (ok a) s h k = Ends-ok _ _ h
undo-Ends R R' f (err e) s h k = Ends-err _ _ (k e s h)

-- The clean-up starts where the call failed.
pub on_error-Ends :
    {A : Type 0} {Q : A → Host → Type 0} (R R' : ℕ → Host → Type 0) (m : Act A) (f : Host → Host)
    (s : Host)
    → Ends Q R (m s)
    → ((e : ℕ) (s' : Host) → R e s' → R' e (f s'))
    → Ends Q R' (on_error m f s)
unfolding on_error
on_error-Ends R R' m f s h k = undo-Ends R R' f (m s).0 (m s).1 h.at k

status_of-Ends :
    {A : Type 0} {Q' : A → Host → Type 0} {R' : ℕ → Host → Type 0} (Q : A → Conn → Type 0)
    (R : Error → Conn → Type 0) (status : ℕ) (r : Result Error A) (c : Conn) (s : Host)
    → EndsAt Q R (r, c)
    → ((a : A) → Q a c → Q' a s)
    → ((e : Error) → R e c → R' status s)
    → Ends Q' R' (status_of status r, s)
status_of-Ends Q R status (ok a) c s h q k = Ends-ok _ _ (q a h)
status_of-Ends Q R status (err e) c s h q k = Ends-err _ _ (k e h)

-- A call of the registry, from what it does to the tables.
pub registry-Ends :
    {A : Type 0} {Q' : A → Host → Type 0} {R' : ℕ → Host → Type 0} (Q : A → Conn → Type 0)
    (R : Error → Conn → Type 0) (status : ℕ) (m : Sql A) (s : Host)
    → Ends Q R (m s.conn)
    → ((a : A) (c : Conn) → Q a c → Q' a (record s { conn = c }))
    → ((e : Error) (c : Conn) → R e c → R' status (record s { conn = c }))
    → Ends Q' R' (registry status m s)
unfolding registry
registry-Ends Q R status m s h q k =
    status_of-Ends Q R status (m s.conn).0 (m s.conn).1 _ h.at (λ a g. q a _ g) (λ e g. k e _ g)

-- A call with its clean-up, and what follows it.
pub step-Ends :
    {A B : Type 0} {Q : B → Host → Type 0} {R : ℕ → Host → Type 0} (Q' : A → Host → Type 0)
    (R' : ℕ → Host → Type 0) (m : Act A) (f : Host → Host) (k : A → Act B) (s : Host)
    → Ends Q' R' (m s)
    → ((a : A) (s' : Host) → Q' a s' → Ends Q R (k a s'))
    → ((e : ℕ) (s' : Host) → R' e s' → R e (f s'))
    → Ends Q R ((on_error m f >>= k) s)
step-Ends {R = R} Q' R' m f k s h go clean =
    Ends-bind (on_error m f) k s
      (on_error-Ends R' R m f s (Ends-mono _ _ _ R' (m s) h (λ a _ q. go a _ q) (λ e _ r. r)) clean)
