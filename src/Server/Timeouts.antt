-- ===== src/Server/Timeouts.antt =====
-- internal/server/ttl.go: handleSetTimeout, and the same deadline in handleCreate of
-- internal/server/server.go. A deadline before 1970, which a time limit that wraps round can give, is
-- 1970 here; it has passed all the same.
use mathlib.Core.Bool.{false≢true}
use web_sandbox.Registry.Types.{Sandbox, SandboxRow, second, unix_or_nil, scan_sandbox, unix}
use web_sandbox.Registry.Pools.{Error}
use web_sandbox.Registry.Engine.{Db, Conn, Sql, find_sandbox, update_sandbox, update_rows}
use web_sandbox.Registry.Engine.Rules.{Ensures, IsUnreadable, LastCallFailed}
use web_sandbox.Registry.Ops.{set_expiry, get, is_some}
use web_sandbox.Registry.Ops.Updates.{update_existing-Ensures, update_existing-Ends_causes}
use web_sandbox.Common.{
  ℕ, Bool-cases, Ends, Ends-err, Ends-ok, EndsAt, Exec, List, Option, Result, String, [], err, fail,
  find, if◌then◌else◌, inl, inr, ltb, none, ok, some, ◌*◌, ◌+◌, ◌-◌, ◌==◌, ◌>>◌, ◌∷◌, ◌≡◌, ℤ,
  wrap_int64, Eq-String, pos, negsuc, Ends-bind, Ends-mono, Option-cases, ap, arith, refl, sym,
  true, ◌∙◌, subst, ◌<◌, wrap_int64_small, Ends-and, ◌≢◌,
}
use web_sandbox.Registry.Lifecycle.{IsCut, unix-IsCut}
use web_sandbox.Registry.Ops.Reads.{get-Ends_causes}

-- A handler ends with a value or with the status of an error.
abbrev pub Handler : Type 0 → Type 0
Handler A = Exec Conn ℕ A

-- A call of the registry whose error is answered with a status.
abbrev pub status_of {ℓ} : {A : Type ℓ} → ℕ → Result Error A → Result ℕ A
status_of status (ok a) = ok a
status_of status (err e) = err status

unfoldable pub or_status : {A : Type 0} → ℕ → Sql A → Handler A
or_status status m c = let (r, c') = m c in (status_of status r, c')

abbrev after : ℕ → ℤ → ℕ
after now (pos d) = now + d
after now (negsuc d) = now - (d + 1)

unfoldable pub deadline : ℕ → ℕ → Option ℕ
deadline now n = if ltb 0 n then some (after now (wrap_int64 (n * second))) else none

unfoldable pub handle_set_timeout : ℕ → Option ℤ → String → Handler Sandbox
handle_set_timeout now none id = fail 400
handle_set_timeout now (some (negsuc n)) id = fail 400
handle_set_timeout now (some (pos n)) id = do
  or_status 404 (set_expiry id (deadline now n))
  or_status 500 (get id)

pub or_status-Ends :
    {A : Type 0} (status : ℕ) (m : Sql A) (c : Conn) (Q : A → Conn → Type 0)
    (R : Error → Conn → Type 0) (R' : ℕ → Conn → Type 0)
    → Ends Q R (m c)
    → ((e : Error) (c' : Conn) → R e c' → R' status c')
    → Ends Q R' (or_status status m c)
unfolding or_status
or_status-Ends status m c Q R R' h k = status_of-Ends (m c).0 (m c).1 h.at
  where
    status_of-Ends :
        (r : Result Error _) (c' : Conn) → EndsAt Q R (r, c') → Ends Q R' (status_of status r, c')
    status_of-Ends (ok a) c' h = Ends-ok _ _ h
    status_of-Ends (err e) c' h = Ends-err _ _ (k e c' h)

find-update_rows_same :
    (id : String) (f : SandboxRow → SandboxRow) (rs : List SandboxRow) (r : SandboxRow)
    → ((s : SandboxRow) → (f s).id ≡ s.id)
    → find (λ s. s.id == id) rs ≡ some r
    → find (λ s. s.id == id) (update_rows id f rs) ≡ some (f r)
unfolding find update_rows
find-update_rows_same id f [] r k h = cc
find-update_rows_same id f (s ∷ rs) r k h = elim (Bool-cases (s.id == id)) [
  | inl hit ↦
      let still : ((f s).id == id) ≡ true = ap (λ i. i == id) (k s) ∙ hit in
      let found : s ≡ r = ground arith in rw (hit, still) (ap (λ x. some (f x)) found)
  | inr miss ↦ rw (miss, miss) (find-update_rows_same id f rs r k (ground arith))
]

pub find_sandbox-update :
    (id : String) (f : SandboxRow → SandboxRow) (db : Db) (r : SandboxRow)
    → ((s : SandboxRow) → (f s).id ≡ s.id)
    → find_sandbox id db ≡ some r
    → find_sandbox id (update_sandbox id f db) ≡ some (f r)
unfolding find_sandbox update_sandbox
find_sandbox-update id f db r k h = find-update_rows_same id f db.sandboxes r k h

-- The deadline that a time limit of n seconds gives: none for 0, and else the last whole second before the
-- end of the limit. A limit above 9,223,372,036 seconds overflows and gives some other deadline.
pub data IsDeadline (now n : ℕ) : Option ℕ → Type 0 where
  unlimited : n ≡ 0 → IsDeadline now n none
  limited : (t : ℕ) → 0 < n → IsCut (now + n * second) t → IsDeadline now n (some t)
  overflowed : (t : ℕ) → 9_223_372_036 < n → IsDeadline now n (some t)

-- The row of a sandbox has the new deadline, and nothing else in it has changed.
pub record DeadlineSet (now n : ℕ) (id : String) (before after_ : Db) : Type 0 where
  pub row : SandboxRow
  pub was : find_sandbox id before ≡ some row
  pub expires_at : Option ℕ
  pub is_deadline : IsDeadline now n expires_at
  pub is_now : find_sandbox id after_ ≡ some (record row { expires_at = expires_at })

-- And the answer is that row.
pub record TimeoutSet (now n : ℕ) (id : String) (before : Db) (sb : Sandbox) (after_ : Db)
    : Type 0 where
  pub set : DeadlineSet now n id before after_
  pub answer : sb ≡ scan_sandbox (record set.row { expires_at = set.expires_at })

-- A body that asks for no time limit: it cannot be decoded, or the limit is below zero.
abbrev pub IsInvalid : Option ℤ → Type 0
IsInvalid none = Unit {0}
IsInvalid (some (pos n)) = ⊥
IsInvalid (some (negsuc n)) = Unit {0}

-- How a request is refused, why, and what it has done all the same.
pub data NotSet (now : ℕ) (body : Option ℤ) (id : String) (before : Conn) : ℕ → Conn → Type 0 where
  invalid : IsInvalid body → NotSet now body id before 400 before
  not_set :
      (n : ℕ) (after_ : Conn)
      → body ≡ some (pos n)
      → IsUnreadable id before
      → after_.db ≡ before.db
      → NotSet now body id before 404 after_
  unread :
      (n : ℕ) (after_ : Conn)
      → body ≡ some (pos n)
      → DeadlineSet now n id before.db after_.db
      → LastCallFailed after_
      → NotSet now body id before 500 after_

deadline-IsDeadline : (now n : ℕ) → IsDeadline now n (unix_or_nil (deadline now n))
unfolding deadline unix_or_nil
deadline-IsDeadline now n = elim (Bool-cases (ltb 0 n)) [
  | inl positive ↦ rw positive (elim (Bool-cases (ltb 9_223_372_036 n)) [
    | inl large ↦ overflowed _ (ground arith)
    | inr small ↦
        let exact : wrap_int64 (n * second) ≡ pos (n * second) =
          wrap_int64_small (n * second) (ground arith) in
        limited _ (ground arith) (
          subst (λ d. IsCut (now + n * second) (unix (after now d))) (sym exact)
            (unix-IsCut (now + n * second)))
  ])
  | inr zero_ ↦ rw zero_ (unlimited (ground arith))
]

-- Before SetExpiry and after it.
set_expiry-Ensures :
    (id : String) (t : Option ℕ) (c : Conn)
    → Ensures c.db
        (λ _ db.
          (r : SandboxRow) × (find_sandbox id c.db ≡ some r)
          × (find_sandbox id db ≡ some (record r { expires_at = unix_or_nil t })))
        (set_expiry id t c)
unfolding set_expiry
set_expiry-Ensures id t c =
    Ends-mono _ _ _ _ _ (update_existing-Ensures id _ c)
      (λ _ _ h. elim (Option-cases (find_sandbox id c.db)) [
        | inl missing ↦ absurd (false≢true (ap is_some (sym missing) ∙ h.0))
        | inr (r, found) ↦ (r, found, rw h.1 (find_sandbox-update id _ c.db r (λ s. refl) found))
      ])
      (λ e _ h. h)

set_expiry-Ends_causes :
    (id : String) (t : Option ℕ) (c : Conn)
    → Ends (λ _ _. Unit {0}) (λ e _. IsUnreadable id c) (set_expiry id t c)
unfolding set_expiry
set_expiry-Ends_causes id t c = update_existing-Ends_causes id _ c

is_same : (o : Option SandboxRow) (r r' : SandboxRow) → o ≡ some r → o ≡ some r' → r ≡ r'
is_same o r r' e e' = cc

not_missing : (o : Option SandboxRow) (r : SandboxRow) → o ≡ some r → o ≢ none
not_missing o r e e' = cc

-- A row that is there is read, unless the driver fails.
get-found :
    (id : String) (c : Conn) (r : SandboxRow)
    → find_sandbox id c.db ≡ some r
    → Ends
        (λ sb c'. (sb ≡ scan_sandbox r) × (c'.db ≡ c.db))
        (λ e c'. LastCallFailed c' × (c'.db ≡ c.db))
        (get id c)
get-found id c r found =
    Ends-mono _ _ _ _ (get id c) (get-Ends_causes id c)
      (λ _ _ h. (
        h.2 ∙ ap scan_sandbox (is_same (find_sandbox id c.db) h.0 r h.1 found),
        ap (λ k. k.db) h.3,
      ))
      (λ _ _ h. (
        subst LastCallFailed (sym h.1) (elim h.0 [
          | inl bad ↦ (c.calls, refl, bad)
          | inr missing ↦ absurd (not_missing (find_sandbox id c.db) r found missing)
        ]),
        ap (λ k. k.db) h.1,
      ))

-- Setting a time limit is refused with 400 exactly for a body that cannot be decoded or a limit below zero,
-- with the tables as they were. For any other it is refused with 404, with the tables as they were, if there
-- is no such sandbox or the driver fails; or the sandbox was there and its row has the new deadline: none
-- for 0, and for a limit that does not overflow the last whole second before its end; nothing else in the
-- row has changed. Then the answer is that row, or 500 if the driver failed to read it again.
pub handle_set_timeout-Ends :
    (now : ℕ) (body : Option ℤ) (id : String) (c : Conn)
    → Ends
        (λ sb c'. (n : ℕ) × (body ≡ some (pos n)) × TimeoutSet now n id c.db sb c'.db)
        (λ status c'. NotSet now body id c status c')
        (handle_set_timeout now body id c)
unfolding handle_set_timeout get
handle_set_timeout-Ends now none id c = Ends-err _ _ (invalid tt)
handle_set_timeout-Ends now (some (negsuc n)) id c = Ends-err _ _ (invalid tt)
handle_set_timeout-Ends now (some (pos n)) id c =
    let c' : Conn = (set_expiry id (deadline now n) c).1 in
    let made : (r : SandboxRow) (db : Db)
        → find_sandbox id c.db ≡ some r
        → find_sandbox id db ≡ some (record r { expires_at = unix_or_nil (deadline now n) })
        → DeadlineSet now n id c.db db =
      λ r db was is_now. record {
        row = r;
        was = was;
        expires_at = unix_or_nil (deadline now n);
        is_deadline = deadline-IsDeadline now n;
        is_now = is_now;
      } in
    Ends-bind (or_status 404 (set_expiry id (deadline now n))) (λ _. or_status 500 (get id)) c
      (or_status-Ends 404 (set_expiry id (deadline now n)) c _ _ _
        (Ends-mono _ _ _ (λ e d. (d.db ≡ c.db) × IsUnreadable id c) _
          (Ends-and (set_expiry id (deadline now n) c) (set_expiry-Ensures id (deadline now n) c)
            (set_expiry-Ends_causes id (deadline now n) c))
          (λ _ _ h.
            or_status-Ends 500 (get id) c' _ (λ e d. LastCallFailed d × (d.db ≡ c'.db)) _
              (Ends-mono _ _ _ (λ e d. LastCallFailed d × (d.db ≡ c'.db)) (get id c')
                (get-found id c' _ h.0.2)
                (λ sb _ g. (
                  n,
                  refl,
                  record {
                    set = made h.0.0 _ h.0.1 (ap (find_sandbox id) g.1 ∙ h.0.2);
                    answer = g.0;
                  },
                ))
                (λ e _ u. u))
              (λ e d u.
                unread n d refl (made h.0.0 _ h.0.1 (ap (find_sandbox id) u.1 ∙ h.0.2)) u.0))
          (λ e _ h. h))
        (λ e d h. not_set n d refl h.1 h.0))
