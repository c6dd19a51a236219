-- ===== src/Registry/Ops.antt =====
-- internal/registry/registry.go: the methods of Registry. The pools, the clock and the ids are
-- arguments; a context that is cancelled is an error of the driver.
pub mod Outcomes
pub mod Updates
pub mod Reads
use web_sandbox.Common.{
  Bool, List, Option, Result, String, contains, err, fail, false, filter, find, gets, lift, ltb,
  map, none, not, ok, pure, some, sort_by, true, ℕ, ◌&&◌, ◌++◌, ◌==◌, ◌>>=◌, ◌>>◌, Eq-String,
}
use web_sandbox.Registry.Types.{
  Sandbox, SandboxRow, Snapshot, SnapshotRow, PortRow, PortMapping, Status, Pools, scan_sandbox,
  scan_snapshot, unix_or_nil, unix,
}
use web_sandbox.Registry.Pools.{
  Error, not_found, tap_in_use, ip_in_use, pick_free_tap, pick_free_ip, pick_free_port,
}
use web_sandbox.Registry.Engine.{
  Db, Sql, query, delete_port_row, delete_ports_of, delete_sandbox, delete_snapshot_row,
  exec_unless, find_port, find_sandbox, insert_port, insert_sandbox, insert_snapshot, is_running,
  refuses_port, refuses_sandbox, refuses_snapshot, running_rows, update_sandbox, commit,
  transaction, exec,
}

pub record UsedResources : Type 0 where
  pub taps : List String
  pub ips : List String
  pub ports : List ℕ

abbrev pub used_taps : Db → List String
used_taps db = map (λ r. r.tap_device) (running_rows db)

abbrev pub used_ips : Db → List String
used_ips db = map (λ r. r.guest_ip) (running_rows db)

-- Extra ports draw from the same pool as primary ports.
abbrev pub used_ports : Db → List ℕ
used_ports db = map (λ r. r.host_port) (running_rows db) ++ map (λ m. m.host_port) db.ports

unfoldable pub load_used : Sql UsedResources
load_used = do
  rows ← query running_rows
  extra ← query (λ db. db.ports)
  pure (record {
    taps = map (λ r. r.tap_device) rows;
    ips = map (λ r. r.guest_ip) rows;
    ports = map (λ r. r.host_port) rows ++ map (λ m. m.host_port) extra;
  })

-- The row that Create and CreateRestore insert.
unfoldable pub new_row : String → String → String → String → ℕ → Option ℕ → ℕ → SandboxRow
unfolding unix unix_or_nil
new_row id rootfs_path tap ip port expires_at now = record {
  id = id;
  pid = 0;
  vm_id = "";
  socket_path = "";
  tap_device = tap;
  guest_ip = ip;
  host_port = port;
  rootfs_path = rootfs_path;
  status = Status.running;
  created_at = unix now;
  stopped_at = none;
  expires_at = unix_or_nil expires_at;
}

-- The struct that they return has the times unrounded.
unfoldable pub new_sandbox : String → String → String → String → ℕ → Option ℕ → ℕ → Sandbox
unfolding new_row
new_sandbox id rootfs_path tap ip port expires_at now =
    record (new_row id rootfs_path tap ip port expires_at now) {
      created_at = now;
      expires_at = expires_at;
    }

-- The insertion and the commit that end both.
unfoldable pub insert_running : String → String → String → String → ℕ → Option ℕ → ℕ → Sql Sandbox
insert_running id rootfs_path tap ip port expires_at now = do
  let r = new_row id rootfs_path tap ip port expires_at now
  exec_unless (refuses_sandbox r) (insert_sandbox r)
  commit
  pure (new_sandbox id rootfs_path tap ip port expires_at now)

unfoldable pub create : Pools → String → String → Option ℕ → ℕ → Sql Sandbox
create pools id rootfs_path expires_at now = transaction (do
  used ← load_used
  tap ← lift (pick_free_tap used.taps pools)
  ip ← lift (pick_free_ip used.ips pools)
  port ← lift (pick_free_port used.ports pools)
  insert_running id rootfs_path tap ip port expires_at now)

abbrev pub guard : Bool → Error → Sql (Unit {0})
guard true e = pure tt
guard false e = fail e

unfoldable pub create_restore :
    Pools → String → String → String → String → Option ℕ → ℕ → Sql Sandbox
create_restore pools id rootfs_path tap ip expires_at now = transaction (do
  used ← load_used
  guard (not (contains used.taps tap)) tap_in_use
  guard (not (contains used.ips ip)) ip_in_use
  port ← lift (pick_free_port used.ports pools)
  insert_running id rootfs_path tap ip port expires_at now)

abbrev pub is_some {ℓ} : {A : Type ℓ} → Option A → Bool
is_some none = false
is_some (some a) = true

-- UPDATE of the row with an id, with the test of RowsAffected.
unfoldable pub update_existing : String → (SandboxRow → SandboxRow) → Sql (Unit {0})
update_existing id f = do
  found ← gets (λ c. is_some (find_sandbox id c.db))
  exec (update_sandbox id f)
  guard found not_found

unfoldable pub finish_start : String → ℕ → String → String → Sql (Unit {0})
finish_start id pid vm_id socket_path =
    update_existing id (λ r. record r { pid = pid; vm_id = vm_id; socket_path = socket_path })

unfoldable pub set_expiry : String → Option ℕ → Sql (Unit {0})
unfolding unix_or_nil
set_expiry id t = update_existing id (λ r. record r { expires_at = unix_or_nil t })

-- expires_at IS NOT NULL AND expires_at < now
unfoldable pub has_expired : ℕ → SandboxRow → Bool
unfolding unix
has_expired now r = elim r.expires_at [ none ↦ false | some t ↦ ltb t (unix now) ]

unfoldable pub expired : ℕ → Sql (List Sandbox)
unfolding has_expired scan_sandbox
expired now =
    query (λ db. map scan_sandbox (filter (λ r. is_running r && has_expired now r) db.sandboxes))

unfoldable pub destroy : String → Sql (Unit {0})
destroy id = transaction (do
  exec (delete_ports_of id)
  found ← gets (λ c. is_some (find_sandbox id c.db))
  exec (delete_sandbox id)
  guard found not_found
  commit)

abbrev pub new_port : String → ℕ → ℕ → PortRow
new_port id guest_port port = record { sandbox_id = id; guest_port = guest_port; host_port = port }

-- The rest of AddPort, once the mapping has been looked up.
unfoldable pub port_or_new : Pools → String → ℕ → Option PortRow → Sql ℕ
port_or_new pools id guest_port (some m) = pure m.host_port
port_or_new pools id guest_port none = do
  used ← load_used
  port ← lift (pick_free_port used.ports pools)
  let m = new_port id guest_port port
  exec_unless (refuses_port m) (insert_port m)
  commit
  pure port

unfoldable pub add_port : Pools → String → ℕ → Sql ℕ
add_port pools id guest_port = transaction (do
  found ← query (find_sandbox id)
  guard (is_some found) not_found
  existing ← query (find_port id guest_port)
  port_or_new pools id guest_port existing)

abbrev pub port_mapping : PortRow → PortMapping
port_mapping m = record { guest_port = m.guest_port; host_port = m.host_port }

-- ORDER BY guest_port
unfoldable pub ports_of : String → Db → List PortMapping
ports_of id db =
    sort_by (λ p q. ltb p.guest_port q.guest_port)
      (map port_mapping (filter (λ m. m.sandbox_id == id) db.ports))

unfoldable pub ports : String → Sql (List PortMapping)
unfolding ports_of
ports id = query (ports_of id)

unfoldable pub delete_port : String → ℕ → Sql (Unit {0})
delete_port id guest_port = exec (delete_port_row id guest_port)

unfoldable pub create_snapshot : Snapshot → Sql (Unit {0})
unfolding unix
create_snapshot s =
    let r : SnapshotRow = record s { created_at = unix s.created_at } in
    exec_unless (refuses_snapshot r) (insert_snapshot r)

abbrev pub or_fail {ℓ} : {A : Type ℓ} → Option A → Error → Result Error A
or_fail none e = err e
or_fail (some a) e = ok a

unfoldable pub get_snapshot : String → Sql Snapshot
unfolding scan_snapshot
get_snapshot id = do
  found ← query (λ db. find (λ s. s.id == id) db.snapshots)
  s ← lift (or_fail found not_found)
  pure (scan_snapshot s)

-- ORDER BY created_at DESC
unfoldable pub list_snapshots : Sql (List Snapshot)
unfolding scan_snapshot
list_snapshots =
    query (λ db. map scan_snapshot (sort_by (λ s t. ltb t.created_at s.created_at) db.snapshots))

unfoldable pub delete_snapshot : String → Sql (Unit {0})
delete_snapshot id = do
  found ← gets (λ c. is_some (find (λ s. s.id == id) c.db.snapshots))
  exec (delete_snapshot_row id)
  guard found not_found

unfoldable pub get : String → Sql Sandbox
unfolding scan_sandbox
get id = do
  found ← query (find_sandbox id)
  r ← lift (or_fail found not_found)
  pure (scan_sandbox r)

abbrev pub newest_first : List SandboxRow → List SandboxRow
newest_first = sort_by (λ r s. ltb s.created_at r.created_at)

unfoldable pub all : Sql (List Sandbox)
unfolding scan_sandbox
all = query (λ db. map scan_sandbox (newest_first db.sandboxes))

unfoldable pub list : Sql (List Sandbox)
unfolding scan_sandbox
list = query (λ db. map scan_sandbox (newest_first (running_rows db)))
