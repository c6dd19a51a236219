-- ===== src/Registry/Engine/Rules.antt =====
-- What the calls of the database do, on success and on failure.
use web_sandbox.Registry.Pools.{Error, engine, constraint}
use web_sandbox.Registry.Engine.{
  Db, Conn, Sql, call, query, exec, exec_unless, transaction, deferred_rollback, commit,
  find_sandbox,
}
use web_sandbox.Common.{
  Bool, Bool-cases, Ends, Ends-bind, Ends-err, Ends-if, Ends-ok, EndsAt, Result, err, false, inl,
  inr, ok, refl, true, ◌+◌, ◌>>◌, ◌≡◌, ℕ, String, none, ◌⊎◌,
}

-- The connection after one more call of the driver.
abbrev pub tick : Conn → Conn
tick c = record c { calls = c.calls + 1 }

-- The last call of the driver failed.
abbrev pub LastCallFailed : Conn → Type 0
LastCallFailed c = (n : ℕ) × (c.calls ≡ n + 1) × (c.fails n ≡ true)

-- A call of the registry that failed has left the tables as they were; one that succeeded has
-- established `Q`.
abbrev pub Ensures : {A : Type 0} → Db → (A → Db → Type 0) → Result Error A × Conn → Type 0
Ensures before Q = Ends (λ a c. Q a c.db) (λ e c. c.db ≡ before)

module _ {R : Error → Conn → Type 0} (c : Conn) (failed : R engine (tick c)) where
  pub call-Ends : {Q : Unit {0} → Conn → Type 0} → Q tt (tick c) → Ends Q R (call c)
  unfolding call
  call-Ends {Q} q = elim (Bool-cases (c.fails c.calls)) [
    | inl bad ↦ rw bad (Ends-err engine (tick c) failed)
    | inr good ↦ rw good (Ends-ok tt (tick c) q)
  ]

  pub query-Ends :
      {A : Type 0} {Q : A → Conn → Type 0} (f : Db → A) → Q (f c.db) (tick c) → Ends Q R (query f c)
  unfolding query
  query-Ends f q = Ends-bind call _ c (call-Ends (Ends-ok _ _ q))

  pub exec-Ends :
      {Q : Unit {0} → Conn → Type 0} (f : Db → Db)
      → Q tt (record (tick c) { db = f c.db })
      → Ends Q R (exec f c)
  unfolding exec
  exec-Ends f q = Ends-bind call _ c (call-Ends (Ends-ok _ _ q))

  pub exec_unless-Ends :
      {Q : Unit {0} → Conn → Type 0} (refused : Db → Bool) (f : Db → Db)
      → (refused c.db ≡ false → Q tt (record (tick c) { db = f c.db }))
      → (refused c.db ≡ true → R constraint (tick c))
      → Ends Q R (exec_unless refused f c)
  unfolding exec_unless
  exec_unless-Ends refused f q k =
      Ends-bind call _ c
        (call-Ends (Ends-if (refused c.db) _ _ (λ h. Ends-err _ _ (k h)) (λ h. Ends-ok _ _ (q h))))

  pub commit-Ends : {Q : Unit {0} → Conn → Type 0} → Q tt (tick c) → Ends Q R (commit c)
  unfolding commit
  commit-Ends q = call-Ends q

deferred_rollback-Ensures :
    {A : Type 0} (before : Db) (Q : A → Db → Type 0) (r : Result Error A) (c : Conn)
    → EndsAt (λ a c'. Q a c'.db) (λ e c'. Unit) (r, c)
    → Ensures before Q (deferred_rollback before (r, c))
deferred_rollback-Ensures before Q (ok a) c h = Ends-ok _ _ h
deferred_rollback-Ensures before Q (err e) c h = Ends-err _ _ refl

-- Of the body only its success has to be followed.
pub transaction-Ensures :
    {A : Type 0} (Q : A → Db → Type 0) (body : Sql A) (c : Conn)
    → Ends (λ a c'. Q a c'.db) (λ e c'. Unit) (body (tick c))
    → Ensures c.db Q (transaction body c)
unfolding transaction
transaction-Ensures Q body c h =
    let r : Result Error _ × Conn = (call >> body) c in
    deferred_rollback-Ensures c.db Q r.0 r.1 (
      let e : Ends (λ a c'. Q a c'.db) (λ e c'. Unit) ((call >> body) c) =
        Ends-bind call (λ _. body) c (call-Ends c tt h) in
      e.at)

module _ {A : Type 0} (Q : A → Db → Type 0) (P : Db → Type 0) (before : Db) where
  Ensures-split :
      (r : Result Error A) (c : Conn)
      → EndsAt (λ a c'. Q a c'.db) (λ e c'. c'.db ≡ before) (r, c)
      → P before
      → ((a : A) → Q a c.db → P c.db)
      → P c.db
  Ensures-split (ok a) c h p k = k a h
  Ensures-split (err e) c h p k = rw h p

  -- What held of the tables before, and follows from `Q`, holds after.
  pub Ensures-keeps :
      (r : Result Error A × Conn)
      → Ensures before Q r
      → P before
      → ((a : A) → Q a r.1.db → P r.1.db)
      → P r.1.db
  Ensures-keeps r h p k = Ensures-split r.0 r.1 h.at p k

-- Why a sandbox was not found: the call of the driver failed, or there is none.
abbrev pub IsUnreadable : String → Conn → Type 0
IsUnreadable id c = (c.fails c.calls ≡ true) ⊎ (find_sandbox id c.db ≡ none)

-- The same rules, with the cause of a failure.
pub query-Ends_causes :
    {A : Type 0} {Q : A → Conn → Type 0} {R : Error → Conn → Type 0} (f : Db → A) (c : Conn)
    → Q (f c.db) (tick c)
    → (c.fails c.calls ≡ true → R engine (tick c))
    → Ends Q R (query f c)
unfolding query call
query-Ends_causes f c q r = elim (Bool-cases (c.fails c.calls)) [
  | inl bad ↦ rw bad (Ends-err _ _ (r bad))
  | inr good ↦ rw good (Ends-ok _ _ q)
]

pub exec-Ends_causes :
    {Q : Unit {0} → Conn → Type 0} {R : Error → Conn → Type 0} (f : Db → Db) (c : Conn)
    → Q tt (record (tick c) { db = f c.db })
    → (c.fails c.calls ≡ true → R engine (tick c))
    → Ends Q R (exec f c)
unfolding exec call
exec-Ends_causes f c q r = elim (Bool-cases (c.fails c.calls)) [
  | inl bad ↦ rw bad (Ends-err _ _ (r bad))
  | inr good ↦ rw good (Ends-ok _ _ q)
]
