-- ===== src/Registry/History.antt =====
-- Histories of the registry: calls of its methods, one after the other (the registry has a single
-- connection), with any errors of the driver.
use web_sandbox.Registry.Types.{Pools, Snapshot, SandboxRow, SnapshotRow}
use web_sandbox.Registry.Engine.{
  Db, Conn, Sql, is_running, delete_snapshot_row, find_sandbox, insert_snapshot, update_sandbox,
}
use web_sandbox.Registry.Ops.{
  create, destroy, add_port, create_restore, create_snapshot, delete_port, delete_snapshot,
  finish_start, set_expiry, get_snapshot, list_snapshots, new_port, get, ports, list, all, expired,
  update_existing,
}
use web_sandbox.Common.{List, Option, String, [], ℕ, ◌∷◌, inl, inr, refl}
use web_sandbox.Registry.Engine.Rules.{Ensures-keeps}
use web_sandbox.Registry.Invariant.{
  Inserted-IsConsistent, delete-IsConsistent, delete_port_row-IsConsistent,
  insert_port-IsConsistent, pick_free_port-unused, update_sandbox-IsConsistent, IsConsistent,
}
use web_sandbox.Registry.Ops.Reads.{
  Reads, all-Reads, expired-Reads, get-Reads, get_snapshot-Reads, list-Reads, list_snapshots-Reads,
  ports-Reads,
}
use web_sandbox.Registry.Ops.Outcomes.{add_port-Ensures, create-Ensures, create_restore-Ensures}
use web_sandbox.Registry.Ops.Updates.{
  create_snapshot-Ensures, delete_port-Ensures, destroy-Ensures, update_existing-Ensures,
  delete_snapshot-Ensures,
}

pub data Call : Type 0 where
  creates : (id rootfs_path : String) (expires_at : Option ℕ) (now : ℕ) → Call
  restores : (id rootfs_path tap ip : String) (expires_at : Option ℕ) (now : ℕ) → Call
  finishes : (id : String) (pid : ℕ) (vm_id socket_path : String) → Call
  sets_expiry : (id : String) (t : Option ℕ) → Call
  destroys : (id : String) → Call
  adds_port : (id : String) (guest_port : ℕ) → Call
  deletes_port : (id : String) (guest_port : ℕ) → Call
  snapshots : Snapshot → Call
  deletes_snapshot : (id : String) → Call
  gets_sandbox gets_snapshot lists_ports : (id : String) → Call
  lists lists_all lists_snapshots : Call
  lists_expired : (now : ℕ) → Call

-- The connection after a call, whatever the call reported.
unfoldable pub after_call : Pools → Call → Conn → Conn
after_call pools (creates id path t now) c = (create pools id path t now c).1
after_call pools (restores id path tap ip t now) c = (create_restore pools id path tap ip t now c).1
after_call pools (finishes id pid vm_id socket_path) c = (finish_start id pid vm_id socket_path c).1
after_call pools (sets_expiry id t) c = (set_expiry id t c).1
after_call pools (destroys id) c = (destroy id c).1
after_call pools (adds_port id guest_port) c = (add_port pools id guest_port c).1
after_call pools (deletes_port id guest_port) c = (delete_port id guest_port c).1
after_call pools (snapshots s) c = (create_snapshot s c).1
after_call pools (deletes_snapshot id) c = (delete_snapshot id c).1
after_call pools (gets_sandbox id) c = (get id c).1
after_call pools (gets_snapshot id) c = (get_snapshot id c).1
after_call pools (lists_ports id) c = (ports id c).1
after_call pools lists c = (list c).1
after_call pools lists_all c = (all c).1
after_call pools lists_snapshots c = (list_snapshots c).1
after_call pools (lists_expired now) c = (expired now c).1

unfoldable pub after_calls : Pools → List Call → Conn → Conn
after_calls pools [] c = c
after_calls pools (k ∷ ks) c = after_calls pools ks (after_call pools k c)

module _ (P : Db → Type 0) where
  reads_keep : {A : Type 0} (m : Sql A) (c : Conn) → Reads m → P c.db → P (m c).1.db
  reads_keep m c h p = Ensures-keeps _ P c.db (m c) (h c) p (λ a e. rw e p)

  update_keeps :
      (id : String) (f : SandboxRow → SandboxRow) (c : Conn)
      → P c.db
      → P (update_sandbox id f c.db)
      → P (update_existing id f c).1.db
  update_keeps id f c p q =
      Ensures-keeps _ P c.db (update_existing id f c) (update_existing-Ensures id f c) p
        (λ _ h. rw h.1 q)

finish_start-IsConsistent :
    (id : String) (pid : ℕ) (vm_id socket_path : String) (c : Conn)
    → IsConsistent c.db
    → IsConsistent (finish_start id pid vm_id socket_path c).1.db
unfolding finish_start is_running
finish_start-IsConsistent id pid vm_id socket_path c v = update_keeps IsConsistent id _ c v (
    update_sandbox-IsConsistent id _ (λ r. refl) (λ r. refl) c.db (λ r. refl) (λ r. refl)
      (λ r. refl) v)

set_expiry-IsConsistent :
    (id : String) (t : Option ℕ) (c : Conn)
    → IsConsistent c.db
    → IsConsistent (set_expiry id t c).1.db
unfolding set_expiry is_running
set_expiry-IsConsistent id t c v = update_keeps IsConsistent id _ c v (
    update_sandbox-IsConsistent id _ (λ r. refl) (λ r. refl) c.db (λ r. refl) (λ r. refl)
      (λ r. refl) v)

-- The table of snapshots has no part in it.
with_snapshots-IsConsistent :
    (db : Db) (ss : List SnapshotRow)
    → IsConsistent db
    → IsConsistent (record db { snapshots = ss })
unfolding find_sandbox
with_snapshots-IsConsistent db ss v = record {
  ids = v.ids;
  taps = v.taps;
  ips = v.ips;
  host_ports = v.host_ports;
  owned = v.owned;
}

insert_snapshot-IsConsistent :
    (s : SnapshotRow) (db : Db) → IsConsistent db → IsConsistent (insert_snapshot s db)
unfolding insert_snapshot
insert_snapshot-IsConsistent s db v = with_snapshots-IsConsistent db (s ∷ db.snapshots) v

delete_snapshot_row-IsConsistent :
    (id : String) (db : Db) → IsConsistent db → IsConsistent (delete_snapshot_row id db)
unfolding delete_snapshot_row
delete_snapshot_row-IsConsistent id db v = with_snapshots-IsConsistent db _ v

-- Every call keeps the tables consistent, whatever it is given and wherever the driver fails.
pub after_call-IsConsistent :
    (pools : Pools) (k : Call) (c : Conn)
    → IsConsistent c.db
    → IsConsistent (after_call pools k c).db
unfolding after_call
after_call-IsConsistent pools (creates id path t now) c v =
    Ensures-keeps _ IsConsistent c.db _ (create-Ensures pools id path t now c) v
      (λ sb h. Inserted-IsConsistent pools id path t now c.db _ sb h.2 v)
after_call-IsConsistent pools (restores id path tap ip t now) c v =
    Ensures-keeps _ IsConsistent c.db _ (create_restore-Ensures pools id path t now tap ip c) v
      (λ sb h. Inserted-IsConsistent pools id path t now c.db _ sb h.4 v)
after_call-IsConsistent pools (finishes id pid vm_id socket_path) c v =
    finish_start-IsConsistent id pid vm_id socket_path c v
after_call-IsConsistent pools (sets_expiry id t) c v = set_expiry-IsConsistent id t c v
after_call-IsConsistent pools (destroys id) c v =
    Ensures-keeps _ IsConsistent c.db _ (destroy-Ensures id c) v
      (λ _ h. rw h.1 (delete-IsConsistent id c.db v))
after_call-IsConsistent pools (adds_port id guest_port) c v =
    Ensures-keeps _ IsConsistent c.db _ (add_port-Ensures pools id guest_port c) v (λ port h.
      elim h.1 [
        | inl (m, found, p, e) ↦ rw e v
        | inr (picked, allowed, e) ↦ rw e (
            insert_port-IsConsistent (new_port id guest_port port) c.db h.0
              (pick_free_port-unused pools _ port picked) v)
      ])
after_call-IsConsistent pools (deletes_port id guest_port) c v =
    Ensures-keeps _ IsConsistent c.db _ (delete_port-Ensures id guest_port c) v
      (λ _ e. rw e (delete_port_row-IsConsistent id guest_port c.db v))
after_call-IsConsistent pools (snapshots s) c v =
    Ensures-keeps _ IsConsistent c.db _ (create_snapshot-Ensures s c) v
      (λ _ h. rw h.1 (insert_snapshot-IsConsistent _ c.db v))
after_call-IsConsistent pools (deletes_snapshot id) c v =
    Ensures-keeps _ IsConsistent c.db _ (delete_snapshot-Ensures id c) v
      (λ _ h. rw h.1 (delete_snapshot_row-IsConsistent id c.db v))
after_call-IsConsistent pools (gets_sandbox id) c v =
    reads_keep IsConsistent (get id) c (get-Reads id) v
after_call-IsConsistent pools (gets_snapshot id) c v =
    reads_keep IsConsistent (get_snapshot id) c (get_snapshot-Reads id) v
after_call-IsConsistent pools (lists_ports id) c v =
    reads_keep IsConsistent (ports id) c (ports-Reads id) v
after_call-IsConsistent pools lists c v = reads_keep IsConsistent list c list-Reads v
after_call-IsConsistent pools lists_all c v = reads_keep IsConsistent all c all-Reads v
after_call-IsConsistent pools lists_snapshots c v =
    reads_keep IsConsistent list_snapshots c list_snapshots-Reads v
after_call-IsConsistent pools (lists_expired now) c v =
    reads_keep IsConsistent (expired now) c (expired-Reads now) v

-- From a consistent database, such as an empty one, the tables are consistent after every history:
-- any calls in any order, with any arguments and any failures of the driver.
pub after_calls-IsConsistent :
    (pools : Pools) (ks : List Call) (c : Conn)
    → IsConsistent c.db
    → IsConsistent (after_calls pools ks c).db
unfolding after_calls
after_calls-IsConsistent pools [] c v = v
after_calls-IsConsistent pools (k ∷ ks) c v =
    after_calls-IsConsistent pools ks (after_call pools k c) (after_call-IsConsistent pools k c v)
