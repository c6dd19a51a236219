-- ===== src/Registry/Ops/Reads.antt =====
-- The methods that read leave the tables as they are.
use web_sandbox.Registry.Engine.{Db, Conn, Sql, find_sandbox, query}
use web_sandbox.Registry.Ops.{
  get, all, list, ports, expired, or_fail, get_snapshot, list_snapshots, ports_of, not_found,
}
use web_sandbox.Common.{
  Ends-bind, Ends-lift, Ends-ok, Option, String, find, lift, pure, refl, ℕ, ◌==◌, ◌>>=◌, ◌≡◌,
  Eq-String, Ends, none, ok, some, err, inl, inr,
}
use web_sandbox.Registry.Types.{scan_sandbox, scan_snapshot, SandboxRow}
use web_sandbox.Registry.Engine.Rules.{Ensures, query-Ends, tick, IsUnreadable, query-Ends_causes}
use web_sandbox.Registry.Pools.{Error}

-- The call reads only.
abbrev pub Reads : {A : Type 0} → Sql A → Type 0
Reads m = (c : Conn) → Ensures c.db (λ _ db. db ≡ c.db) (m c)

query-Reads : {A : Type 0} (f : Db → A) → Reads (query f)
query-Reads f c = query-Ends c refl f refl

found-Reads :
    {A B : Type 0} (f : Db → Option A) (g : A → B)
    → Reads (query f >>= λ found. lift (or_fail found not_found) >>= λ a. pure (g a))
found-Reads f g c = Ends-bind (query f) _ c (
    query-Ends c refl f (
      Ends-bind (lift (or_fail (f c.db) not_found)) _ (tick c) (
        Ends-lift (or_fail (f c.db) not_found) (tick c) (λ a e. Ends-ok (g a) (tick c) refl)
          (λ _ _. refl))))

pub get-Reads : (id : String) → Reads (get id)
unfolding get
get-Reads id = found-Reads (find_sandbox id) scan_sandbox

pub get_snapshot-Reads : (id : String) → Reads (get_snapshot id)
unfolding get_snapshot
get_snapshot-Reads id = found-Reads (λ db. find (λ s. s.id == id) db.snapshots) scan_snapshot

pub ports-Reads : (id : String) → Reads (ports id)
unfolding ports
ports-Reads id = query-Reads (ports_of id)

pub all-Reads : Reads all
unfolding all
all-Reads = query-Reads _

pub list-Reads : Reads list
unfolding list
list-Reads = query-Reads _

pub list_snapshots-Reads : Reads list_snapshots
unfolding list_snapshots
list_snapshots-Reads = query-Reads _

pub expired-Reads : (now : ℕ) → Reads (expired now)
unfolding expired
expired-Reads now = query-Reads _

pub or_fail-some :
    (o : Option SandboxRow) (e : Error) (r : SandboxRow) → or_fail o e ≡ ok r → o ≡ some r
or_fail-some none e r h = cc
or_fail-some (some q) e r h = cc

-- What Get returns is the row of the id.
pub get-finds :
    (id : String) (c : Conn)
    → Ends
        (λ sb c'.
          (r : SandboxRow) × (find_sandbox id c.db ≡ some r)
          × (sb ≡ scan_sandbox r)
          × (c'.db ≡ c.db))
        (λ e c'. c'.db ≡ c.db)
        (get id c)
unfolding get
get-finds id c = Ends-bind (query (find_sandbox id)) _ c (
    query-Ends c refl (find_sandbox id) (
      Ends-bind (lift (or_fail (find_sandbox id c.db) not_found)) _ (tick c) (
        Ends-lift _ _ (λ r e. Ends-ok _ _ (r, or_fail-some _ not_found r e, refl, refl))
          (λ _ _. refl))))

-- What Ports returns is the list of the sandbox's mappings.
pub ports-finds :
    (id : String) (c : Conn)
    → Ends (λ ms c'. (ms ≡ ports_of id c.db) × (c'.db ≡ c.db)) (λ e c'. c'.db ≡ c.db) (ports id c)
unfolding ports
ports-finds id c = query-Ends c refl (ports_of id) (refl, refl)

or_fail-none : (o : Option SandboxRow) (e e' : Error) → or_fail o e ≡ err e' → o ≡ none
or_fail-none none e e' h = refl
or_fail-none (some q) e e' h = cc

pub get-Ends_causes :
    (id : String) (c : Conn)
    → Ends
        (λ sb c'.
          (r : SandboxRow) × (find_sandbox id c.db ≡ some r)
          × (sb ≡ scan_sandbox r)
          × (c' ≡ tick c))
        (λ e c'. IsUnreadable id c × (c' ≡ tick c))
        (get id c)
unfolding get
get-Ends_causes id c = Ends-bind (query (find_sandbox id)) _ c (
    query-Ends_causes (find_sandbox id) c
      (Ends-bind (lift (or_fail (find_sandbox id c.db) not_found)) _ (tick c) (
        Ends-lift _ _ (λ r e. Ends-ok _ _ (r, or_fail-some _ not_found r e, refl, refl))
          (λ e h. (inr (or_fail-none _ not_found e h), refl))))
      (λ bad. (inl bad, refl)))
