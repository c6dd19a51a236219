-- ===== src/Registry/Capacity/Pooled.antt =====
-- Every row holds resources of the pools.
use web_sandbox.Registry.Types.{Pools, Sandbox, SandboxRow, PortRow, SnapshotRow}
use web_sandbox.Registry.Engine.{
  Db, Conn, Sql, delete_port_row, delete_ports_of, delete_sandbox, delete_snapshot_row, has_port,
  insert_port, insert_sandbox, insert_snapshot, update_sandbox,
}
use web_sandbox.Registry.History.{
  Call, creates, restores, finishes, sets_expiry, destroys, adds_port, deletes_port, snapshots,
  deletes_snapshot, gets_sandbox, gets_snapshot, lists_ports, lists, lists_all, lists_snapshots,
  lists_expired, after_call,
}
use web_sandbox.Registry.Ops.{
  get, all, list, ports, expired, finish_start, get_snapshot, list_snapshots, new_port, new_row,
  set_expiry,
}
use web_sandbox.Common.{
  All, Bool, Bool-cases, Eq, List, Option, String, [], contains, filter, inl, inr, map, not, refl,
  true, ℕ, ◌==◌, ◌∷◌, ◌≡◌, Eq-String, Eq-ℕ,
}
use web_sandbox.Registry.Capacity.Members.{
  EndsBelowTop, ip_names, pick_free_ip-contains, pick_free_port-contains, pick_free_tap-contains,
  port_names, tap_names,
}
use web_sandbox.Registry.Ops.Reads.{
  Reads, all-Reads, expired-Reads, get-Reads, get_snapshot-Reads, list-Reads, list_snapshots-Reads,
  ports-Reads,
}
use web_sandbox.Registry.Engine.Rules.{Ensures-keeps}
use web_sandbox.Registry.Ops.Outcomes.{
  add_port-Ensures, create-Ensures, create_restore-Ensures, Inserted,
}
use web_sandbox.Registry.Ops.Updates.{
  create_snapshot-Ensures, delete_port-Ensures, delete_snapshot-Ensures, destroy-Ensures,
  update_existing-Ensures,
}
use web_sandbox.Registry.Invariant.{empty_db, map-update_rows}

-- The elements of a list lie in a pool.
abbrev pub In {ℓ} : {A : Type ℓ} ⦃e : Eq A⦄ → List A → List A → Type 0
In pool = All (λ a. contains pool a ≡ true)

pub record IsPooled (pools : Pools) (db : Db) : Type 0 where
  pub taps : In (tap_names pools) (map (λ r. r.tap_device) db.sandboxes)
  pub ips : In (ip_names pools) (map (λ r. r.guest_ip) db.sandboxes)
  pub primary : In (port_names pools) (map (λ r. r.host_port) db.sandboxes)
  pub extra : In (port_names pools) (map (λ m. m.host_port) db.ports)

pub empty_db-IsPooled : (pools : Pools) → IsPooled pools empty_db
empty_db-IsPooled pools = record { taps = tt; ips = tt; primary = tt; extra = tt }

-- A restore asks for a tap and an address of the pools, as a snapshot of a sandbox has them.
abbrev pub Allowed : Pools → Call → Type 0
Allowed pools (restores id path tap ip t now) =
    (contains (tap_names pools) tap ≡ true) × (contains (ip_names pools) ip ≡ true)
Allowed pools _ = Unit

pub In-filter {ℓ} :
    {A : Type 0} {B : Type ℓ} ⦃e : Eq A⦄ (pool : List A) (key : B → A) (p : B → Bool) (xs : List B)
    → In pool (map key xs)
    → In pool (map key (filter p xs))
unfolding filter
In-filter pool key p [] h = tt
In-filter pool key p (x ∷ xs) h = elim (Bool-cases (p x)) [
  | inl kept ↦ rw kept (h.0, In-filter pool key p xs h.1)
  | inr gone ↦ rw gone (In-filter pool key p xs h.1)
]

Inserted-IsPooled :
    (pools : Pools) (id path : String) (t : Option ℕ) (now : ℕ) (before after : Db) (sb : Sandbox)
    → contains (tap_names pools) sb.tap_device ≡ true
    → contains (ip_names pools) sb.guest_ip ≡ true
    → Inserted pools id path t now before sb after
    → IsPooled pools before
    → IsPooled pools after
unfolding insert_sandbox new_row
Inserted-IsPooled pools id path t now before after sb tap ip i v = rw i.inserted (record {
  taps = (tap, v.taps);
  ips = (ip, v.ips);
  primary = (pick_free_port-contains _ pools sb.host_port i.picked_port, v.primary);
  extra = v.extra;
})

module _ (pools : Pools) (db : Db) (v : IsPooled pools db) where
  insert_port-IsPooled :
      (m : PortRow)
      → contains (port_names pools) m.host_port ≡ true
      → IsPooled pools (insert_port m db)
  unfolding insert_port
  insert_port-IsPooled m h = record {
    taps = v.taps;
    ips = v.ips;
    primary = v.primary;
    extra = (h, v.extra);
  }

  delete_port_row-IsPooled :
      (id : String) (guest_port : ℕ) → IsPooled pools (delete_port_row id guest_port db)
  unfolding delete_port_row
  delete_port_row-IsPooled id guest_port = record {
    taps = v.taps;
    ips = v.ips;
    primary = v.primary;
    extra = In-filter _ (λ m. m.host_port) (λ m. not (has_port id guest_port m)) db.ports v.extra;
  }

  delete-IsPooled : (id : String) → IsPooled pools (delete_sandbox id (delete_ports_of id db))
  unfolding delete_sandbox delete_ports_of
  delete-IsPooled id = record {
    taps = In-filter _ (λ r. r.tap_device) (λ r. not (r.id == id)) db.sandboxes v.taps;
    ips = In-filter _ (λ r. r.guest_ip) (λ r. not (r.id == id)) db.sandboxes v.ips;
    primary = In-filter _ (λ r. r.host_port) (λ r. not (r.id == id)) db.sandboxes v.primary;
    extra = In-filter _ (λ m. m.host_port) (λ m. not (m.sandbox_id == id)) db.ports v.extra;
  }

  with_snapshots-IsPooled : (ss : List SnapshotRow) → IsPooled pools (record db { snapshots = ss })
  with_snapshots-IsPooled ss = record {
    taps = v.taps;
    ips = v.ips;
    primary = v.primary;
    extra = v.extra;
  }

  insert_snapshot-IsPooled : (s : SnapshotRow) → IsPooled pools (insert_snapshot s db)
  unfolding insert_snapshot
  insert_snapshot-IsPooled s = with_snapshots-IsPooled (s ∷ db.snapshots)

  delete_snapshot_row-IsPooled : (id : String) → IsPooled pools (delete_snapshot_row id db)
  unfolding delete_snapshot_row
  delete_snapshot_row-IsPooled id = with_snapshots-IsPooled _

  update_sandbox-IsPooled :
      (id : String) (f : SandboxRow → SandboxRow)
      → ((r : SandboxRow) → (f r).tap_device ≡ r.tap_device)
      → ((r : SandboxRow) → (f r).guest_ip ≡ r.guest_ip)
      → ((r : SandboxRow) → (f r).host_port ≡ r.host_port)
      → IsPooled pools (update_sandbox id f db)
  unfolding update_sandbox
  update_sandbox-IsPooled id f t i p = record {
    taps = rw (map-update_rows id f (λ r. r.tap_device) t db.sandboxes) v.taps;
    ips = rw (map-update_rows id f (λ r. r.guest_ip) i db.sandboxes) v.ips;
    primary = rw (map-update_rows id f (λ r. r.host_port) p db.sandboxes) v.primary;
    extra = v.extra;
  }

module _ (pools : Pools) (c : Conn) (v : IsPooled pools c.db) where
  Reads-IsPooled : {A : Type 0} (m : Sql A) → Reads m → IsPooled pools (m c).1.db
  Reads-IsPooled m h = Ensures-keeps _ (IsPooled pools) c.db (m c) (h c) v (λ a e. rw e v)

  finish_start-IsPooled :
      (id : String) (pid : ℕ) (vm_id socket_path : String)
      → IsPooled pools (finish_start id pid vm_id socket_path c).1.db
  unfolding finish_start
  finish_start-IsPooled id pid vm_id socket_path =
      Ensures-keeps _ (IsPooled pools) c.db _ (update_existing-Ensures id _ c) v (λ _ h.
        rw h.1 (update_sandbox-IsPooled pools c.db v id _ (λ r. refl) (λ r. refl) (λ r. refl)))

  set_expiry-IsPooled : (id : String) (t : Option ℕ) → IsPooled pools (set_expiry id t c).1.db
  unfolding set_expiry
  set_expiry-IsPooled id t =
      Ensures-keeps _ (IsPooled pools) c.db _ (update_existing-Ensures id _ c) v (λ _ h.
        rw h.1 (update_sandbox-IsPooled pools c.db v id _ (λ r. refl) (λ r. refl) (λ r. refl)))

pub after_call-IsPooled :
    (pools : Pools) (k : Call) (c : Conn)
    → EndsBelowTop pools
    → Allowed pools k
    → IsPooled pools c.db
    → IsPooled pools (after_call pools k c).db
unfolding after_call
after_call-IsPooled pools (creates id path t now) c top a v =
    Ensures-keeps _ (IsPooled pools) c.db _ (create-Ensures pools id path t now c) v (λ sb h.
      Inserted-IsPooled pools id path t now c.db _ sb
        (pick_free_tap-contains _ pools sb.tap_device h.0)
        (pick_free_ip-contains _ pools sb.guest_ip top h.1) h.2 v)
after_call-IsPooled pools (restores id path tap ip t now) c top a v =
    Ensures-keeps _ (IsPooled pools) c.db _ (create_restore-Ensures pools id path t now tap ip c) v
      (λ sb h. Inserted-IsPooled pools id path t now c.db _ sb (rw h.0 a.0) (rw h.1 a.1) h.4 v)
after_call-IsPooled pools (finishes id pid vm_id socket_path) c top a v =
    finish_start-IsPooled pools c v id pid vm_id socket_path
after_call-IsPooled pools (sets_expiry id t) c top a v = set_expiry-IsPooled pools c v id t
after_call-IsPooled pools (destroys id) c top a v =
    Ensures-keeps _ (IsPooled pools) c.db _ (destroy-Ensures id c) v
      (λ _ h. rw h.1 (delete-IsPooled pools c.db v id))
after_call-IsPooled pools (adds_port id guest_port) c top a v =
    Ensures-keeps _ (IsPooled pools) c.db _ (add_port-Ensures pools id guest_port c) v (λ port h.
      elim h.1 [
        | inl (m, found, p, e) ↦ rw e v
        | inr (picked, allowed, e) ↦ rw e (
            insert_port-IsPooled pools c.db v (new_port id guest_port port)
              (pick_free_port-contains _ pools port picked))
      ])
after_call-IsPooled pools (deletes_port id guest_port) c top a v =
    Ensures-keeps _ (IsPooled pools) c.db _ (delete_port-Ensures id guest_port c) v
      (λ _ e. rw e (delete_port_row-IsPooled pools c.db v id guest_port))
after_call-IsPooled pools (snapshots s) c top a v =
    Ensures-keeps _ (IsPooled pools) c.db _ (create_snapshot-Ensures s c) v
      (λ _ h. rw h.1 (insert_snapshot-IsPooled pools c.db v _))
after_call-IsPooled pools (deletes_snapshot id) c top a v =
    Ensures-keeps _ (IsPooled pools) c.db _ (delete_snapshot-Ensures id c) v
      (λ _ h. rw h.1 (delete_snapshot_row-IsPooled pools c.db v id))
after_call-IsPooled pools (gets_sandbox id) c top a v =
    Reads-IsPooled pools c v (get id) (get-Reads id)
after_call-IsPooled pools (gets_snapshot id) c top a v =
    Reads-IsPooled pools c v (get_snapshot id) (get_snapshot-Reads id)
after_call-IsPooled pools (lists_ports id) c top a v =
    Reads-IsPooled pools c v (ports id) (ports-Reads id)
after_call-IsPooled pools lists c top a v = Reads-IsPooled pools c v list list-Reads
after_call-IsPooled pools lists_all c top a v = Reads-IsPooled pools c v all all-Reads
after_call-IsPooled pools lists_snapshots c top a v =
    Reads-IsPooled pools c v list_snapshots list_snapshots-Reads
after_call-IsPooled pools (lists_expired now) c top a v =
    Reads-IsPooled pools c v (expired now) (expired-Reads now)
