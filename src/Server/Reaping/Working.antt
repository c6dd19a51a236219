-- ===== src/Server/Reaping/Working.antt =====
-- internal/registry/registry.go: Destroy with a driver whose calls succeed.
use web_sandbox.Registry.Engine.{
  Conn, Db, call, commit, delete_ports_of, delete_sandbox, exec, find_sandbox, query, transaction,
}
use web_sandbox.Registry.Ops.{destroy, is_some, get, ports, ports_of}
use web_sandbox.Registry.Ops.Updates.{filter-missing}
use web_sandbox.Registry.Pools.{not_found}
use web_sandbox.Registry.Types.{SandboxRow, PortMapping, scan_sandbox}
use web_sandbox.Server.Host.{Host, Settings, registry}
use web_sandbox.Server.Sandboxes.{destroy_quietly, destroy_sandbox, read_ports}
use web_sandbox.Common.{
  Bool, Bool-cases, String, false, filter, inl, inr, not, refl, sym, ℕ, ◌==◌, ◌≡◌, subst, ap,
  Eq-String, Option-cases, find, List, err, none, ok, some, ◌+◌,
}
use web_sandbox.Server.Sandboxes.Destroying.{tear_down-conn}

abbrev pub always_works : ℕ → Bool
always_works n = false

abbrev pub working : Db → ℕ → Conn
working db n = record { db = db; fails = always_works; calls = n }

-- The driver still works, and the rows with the id are gone.
pub record Removes (id : String) (before : Db) (c' : Conn) : Type 0 where
  pub works : c'.fails ≡ always_works
  pub rows : c'.db.sandboxes ≡ filter (λ r. not (r.id == id)) before.sandboxes

destroy_row : (id : String) (db : Db) (n : ℕ) → Removes id db (destroy id (working db n)).1
unfolding destroy transaction call exec commit query delete_sandbox delete_ports_of find_sandbox
destroy_row id db n = elim (Bool-cases (is_some (find_sandbox id db))) [
  | inl found ↦ rw found (record { works = refl; rows = refl })
  | inr missing ↦
      rw missing (record {
        works = refl;
        rows = sym (filter-missing (λ r. r.id == id) db.sandboxes missing);
      })
]

pub as_working : (c : Conn) → c.fails ≡ always_works → c ≡ working c.db c.calls
as_working c e = ap (λ f. record { db = c.db; fails = f; calls = c.calls }) e

pub destroy-Removes :
    (id : String) (c : Conn) → c.fails ≡ always_works → Removes id c.db (destroy id c).1
destroy-Removes id c e =
    subst (λ k. Removes id k.db (destroy id k).1) (sym (as_working c e))
      (destroy_row id c.db c.calls)

get-none :
    (id : String) (db : Db) (n : ℕ)
    → find (λ r. r.id == id) db.sandboxes ≡ none
    → get id (working db n) ≡ (err not_found, working db (n + 1))
unfolding get query call find_sandbox
get-none id db n h = rw h refl

get-some :
    (id : String) (db : Db) (n : ℕ) (r : SandboxRow)
    → find (λ r'. r'.id == id) db.sandboxes ≡ some r
    → get id (working db n) ≡ (ok (scan_sandbox r), working db (n + 1))
unfolding get query call find_sandbox
get-some id db n r h = rw h refl

-- destroy, where the row is found or not.
destroy_working :
    (cfg : Settings) (id : String) (s : Host) (db : Db) (n : ℕ)
    → Removes id db (destroy_sandbox cfg id (record s { conn = working db n })).1.conn
unfolding destroy_sandbox registry read_ports ports query call
destroy_working cfg id s db n = elim (Option-cases (find (λ r. r.id == id) db.sandboxes)) [
  | inl missing ↦
      rw (get-none id db n missing, destroy_sandbox)
        (record {
          works = refl;
          rows = sym (filter-missing (λ r. r.id == id) db.sandboxes (ap is_some missing));
        })
  | inr (r, found) ↦
      rw (get-some id db n r found, destroy_sandbox)
        (let s₂ : Host = record s { conn = working db (n + 1 + 1) } in
          let extra : List PortMapping = ports_of id db in
          let kept = (tear_down-conn cfg id (scan_sandbox r) extra s₂).0 in
          subst (λ k. Removes id db (destroy id k).1) (sym kept)
            (destroy-Removes id (working db (n + 1 + 1)) refl))
]

pub destroy_quietly-Removes :
    (cfg : Settings) (id : String) (s : Host)
    → s.conn.fails ≡ always_works
    → Removes id s.conn.db (destroy_quietly cfg id s).conn
destroy_quietly-Removes cfg id s e =
    subst (λ k. Removes id k.db (destroy_sandbox cfg id (record s { conn = k })).1.conn)
      (sym (as_working s.conn e)) (destroy_working cfg id s s.conn.db s.conn.calls)
