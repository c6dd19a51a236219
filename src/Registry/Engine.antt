-- ===== src/Registry/Engine.antt =====
-- The database of internal/registry/registry.go: the tables of `migrate` with their constraints,
-- and the statements of the other functions as maps of the tables. The driver is not part of the
-- repository: any call of it may report an error, and then it has done nothing.
pub mod Rules
use web_sandbox.Common.{
  ℕ, Bool, Exec, List, Option, Result, String, [], contains, err, false, filter, find, gets,
  if◌then◌else◌, map, none, not, ok, some, true, ◌&&◌, ◌+◌, ◌==◌, ◌>>◌, ◌||◌, ◌∷◌, Eq-String, Eq-ℕ,
  ◌>>=◌,
}
use web_sandbox.Registry.Types.{SandboxRow, SnapshotRow, PortRow, Status}
use web_sandbox.Registry.Pools.{Error, engine, constraint}

-- A table is a list of rows, the latest first. `ORDER BY` keeps this order among equal rows.
pub record Db : Type 0 where
  pub sandboxes : List SandboxRow
  pub ports : List PortRow
  pub snapshots : List SnapshotRow

-- The one connection. `fails n` says whether the driver's `n`-th call reports an error.
pub record Conn : Type 0 where
  pub db : Db
  pub fails : ℕ → Bool
  pub calls : ℕ

abbrev pub Sql : Type 0 → Type 0
Sql A = Exec Conn Error A

unfoldable pub call : Sql (Unit {0})
call c = (if c.fails c.calls then err engine else ok tt, record c { calls = c.calls + 1 })

-- SELECT, with the scan of its rows.
unfoldable pub query : {A : Type 0} → (Db → A) → Sql A
query f = do call; gets (λ c. f c.db)

-- INSERT, UPDATE and DELETE.
unfoldable pub exec : (Db → Db) → Sql (Unit {0})
exec f = do call; λ c. (ok tt, record c { db = f c.db })

-- A statement that a constraint of the schema may refuse.
unfoldable pub exec_unless : (Db → Bool) → (Db → Db) → Sql (Unit {0})
exec_unless refused f = do
  call
  λ c. if refused c.db then (err constraint, c) else (ok tt, record c { db = f c.db })

abbrev deferred_rollback : {A : Type 0} → Db → Result Error A × Conn → Result Error A × Conn
deferred_rollback before (ok a, c) = (ok a, c)
deferred_rollback before (err e, c) = (err e, record c { db = before })

-- BeginTx, the body, and the deferred Rollback: a body that fails changes nothing.
unfoldable pub transaction : {A : Type 0} → Sql A → Sql A
transaction body c = deferred_rollback c.db ((call >> body) c)

-- Commit. What the body has written is there already, and a failure rolls it back.
unfoldable pub commit : Sql (Unit {0})
commit = call

-- status = 'running'
unfoldable pub is_running : SandboxRow → Bool
is_running r = elim r.status [ Status.running ↦ true | Status.stopping ↦ false ]

abbrev pub running_rows : Db → List SandboxRow
running_rows db = filter is_running db.sandboxes

-- The primary key of `sandboxes`, and its three partial unique indexes.
unfoldable pub refuses_sandbox : SandboxRow → Db → Bool
unfolding is_running
refuses_sandbox r db =
    contains (map (λ s. s.id) db.sandboxes) r.id
    || (is_running r
        && (contains (map (λ s. s.tap_device) (running_rows db)) r.tap_device
            || contains (map (λ s. s.guest_ip) (running_rows db)) r.guest_ip
            || contains (map (λ s. s.host_port) (running_rows db)) r.host_port))

abbrev pub has_port : String → ℕ → PortRow → Bool
has_port id guest_port m = m.sandbox_id == id && m.guest_port == guest_port

unfoldable pub find_port : String → ℕ → Db → Option PortRow
find_port id guest_port db = find (has_port id guest_port) db.ports

is_none : Option PortRow → Bool
is_none none = true
is_none (some m) = false

-- The primary key of `sandbox_ports`, and its unique index.
unfoldable pub refuses_port : PortRow → Db → Bool
unfolding find_port is_none
refuses_port m db =
    not (is_none (find_port m.sandbox_id m.guest_port db))
    || contains (map (λ p. p.host_port) db.ports) m.host_port

-- The primary key of `snapshots`.
unfoldable pub refuses_snapshot : SnapshotRow → Db → Bool
refuses_snapshot s db = contains (map (λ t. t.id) db.snapshots) s.id

unfoldable pub insert_sandbox : SandboxRow → Db → Db
insert_sandbox r db = record db { sandboxes = r ∷ db.sandboxes }

unfoldable pub insert_port : PortRow → Db → Db
insert_port m db = record db { ports = m ∷ db.ports }

unfoldable pub insert_snapshot : SnapshotRow → Db → Db
insert_snapshot s db = record db { snapshots = s ∷ db.snapshots }

-- UPDATE sandboxes SET … WHERE id = ?
unfoldable pub update_rows : String → (SandboxRow → SandboxRow) → List SandboxRow → List SandboxRow
update_rows id f [] = []
update_rows id f (r ∷ rs) = (if r.id == id then f r else r) ∷ update_rows id f rs

unfoldable pub update_sandbox : String → (SandboxRow → SandboxRow) → Db → Db
unfolding update_rows
update_sandbox id f db = record db { sandboxes = update_rows id f db.sandboxes }

unfoldable pub find_sandbox : String → Db → Option SandboxRow
find_sandbox id db = find (λ r. r.id == id) db.sandboxes

unfoldable pub delete_ports_of : String → Db → Db
delete_ports_of id db = record db { ports = filter (λ m. not (m.sandbox_id == id)) db.ports }

unfoldable pub delete_port_row : String → ℕ → Db → Db
delete_port_row id guest_port db = record db {
  ports = filter (λ m. not (has_port id guest_port m)) db.ports;
}

unfoldable pub delete_sandbox : String → Db → Db
delete_sandbox id db = record db { sandboxes = filter (λ r. not (r.id == id)) db.sandboxes }

unfoldable pub delete_snapshot_row : String → Db → Db
delete_snapshot_row id db = record db { snapshots = filter (λ s. not (s.id == id)) db.snapshots }
