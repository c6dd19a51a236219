-- ===== src/Registry/Invariant.antt =====
-- The tables stay consistent: no two running sandboxes share a tap, an address or a host port, and no
-- host port is handed out twice, whether as a primary or as an extra port.
use web_sandbox.Registry.Types.{SandboxRow, PortRow, Pools, Sandbox}
use web_sandbox.Registry.Engine.{
  Db, find_sandbox, insert_sandbox, is_running, refuses_sandbox, delete_port_row, delete_ports_of,
  delete_sandbox, has_port, insert_port, running_rows, update_rows, update_sandbox,
}
use web_sandbox.Registry.Ops.{is_some, used_ips, used_ports, used_taps, new_row}
use web_sandbox.Common.{
  All, Distinct, Distinct-cons, Distinct-nil, List, String, [], arith, contains, false, filter,
  find, map, true, ◌==◌, ◌∷◌, ◌≡◌, Eq-String, Eq-ℕ, All-filter, Bool, Bool-cases,
  Distinct-append-filter, Distinct-filter, Distinct-middle, Option, eq_iff, filter_comm, inl, inr,
  not, ok, refl, ℕ, Distinct-append-filter_right,
}
use web_sandbox.Registry.Ops.Outcomes.{Inserted}
use web_sandbox.Registry.Pools.{pick_free_port, port_exhausted}
use web_sandbox.Registry.Pools.Choice.{FirstFree-unused, pick_free_port-FirstFree, port_end}

pub record IsConsistent (db : Db) : Type 0 where
  pub ids : Distinct (map (λ r. r.id) db.sandboxes)
  pub taps : Distinct (used_taps db)
  pub ips : Distinct (used_ips db)
  pub host_ports : Distinct (used_ports db)
  pub owned : All (λ m. is_some (find_sandbox m.sandbox_id db) ≡ true) db.ports

abbrev pub empty_db : Db
empty_db = record { sandboxes = []; ports = []; snapshots = [] }

pub empty_db-IsConsistent : IsConsistent empty_db
unfolding filter
empty_db-IsConsistent = record {
  ids = Distinct-nil;
  taps = Distinct-nil;
  ips = Distinct-nil;
  host_ports = Distinct-nil;
  owned = tt;
}

-- Rows that are added or kept are found after as before.
owned_mono :
    (rs rs' : List SandboxRow) (ms : List PortRow)
    → ((id : String)
        → is_some (find (λ r. r.id == id) rs) ≡ true
        → is_some (find (λ r. r.id == id) rs') ≡ true)
    → All (λ m. is_some (find (λ r. r.id == m.sandbox_id) rs) ≡ true) ms
    → All (λ m. is_some (find (λ r. r.id == m.sandbox_id) rs') ≡ true) ms
owned_mono rs rs' [] k h = tt
owned_mono rs rs' (m ∷ ms) k h = (k m.sandbox_id h.0, owned_mono rs rs' ms k h.1)

insert_sandbox-IsConsistent :
    (r : SandboxRow) (db : Db)
    → is_running r ≡ true
    → refuses_sandbox r db ≡ false
    → contains (used_ports db) r.host_port ≡ false
    → IsConsistent db
    → IsConsistent (insert_sandbox r db)
unfolding insert_sandbox filter find_sandbox
insert_sandbox-IsConsistent r db run allowed port_free v = record {
  ids = Distinct-cons r.id _ (unfold refuses_sandbox in ground arith) v.ids;
  taps = rw run (Distinct-cons r.tap_device _ (unfold refuses_sandbox in ground arith) v.taps);
  ips = rw run (Distinct-cons r.guest_ip _ (unfold refuses_sandbox in ground arith) v.ips);
  host_ports = rw run (Distinct-cons r.host_port (used_ports db) port_free v.host_ports);
  owned =
      owned_mono db.sandboxes (r ∷ db.sandboxes) db.ports (λ id h. unfold find in ground arith)
        v.owned;
}

pub pick_free_port-unused :
    (pools : Pools) (used : List ℕ) (port : ℕ)
    → pick_free_port used pools ≡ ok port
    → contains used port ≡ false
pick_free_port-unused pools used port e =
    FirstFree-unused (contains used) (λ q. q) pools.port_min (port_end pools) port_exhausted
      (pick_free_port used pools) port (pick_free_port-FirstFree used pools) e

pub Inserted-IsConsistent :
    (pools : Pools) (id rootfs_path : String) (expires_at : Option ℕ) (now : ℕ) (before after : Db)
    (sb : Sandbox)
    → Inserted pools id rootfs_path expires_at now before sb after
    → IsConsistent before
    → IsConsistent after
Inserted-IsConsistent pools id rootfs_path expires_at now before after sb i v = rw i.inserted (
    insert_sandbox-IsConsistent _ before (unfold is_running new_row in refl) i.allowed
      (unfold new_row in pick_free_port-unused pools _ sb.host_port i.picked_port) v)

pub insert_port-IsConsistent :
    (m : PortRow) (db : Db)
    → is_some (find_sandbox m.sandbox_id db) ≡ true
    → contains (used_ports db) m.host_port ≡ false
    → IsConsistent db
    → IsConsistent (insert_port m db)
unfolding insert_port find_sandbox
insert_port-IsConsistent m db found free v = record {
  ids = v.ids;
  taps = v.taps;
  ips = v.ips;
  host_ports =
      Distinct-middle m.host_port (map (λ r. r.host_port) (running_rows db))
        (map (λ p. p.host_port) db.ports) free v.host_ports;
  owned = (found, v.owned);
}

pub delete_port_row-IsConsistent :
    (id : String) (guest_port : ℕ) (db : Db)
    → IsConsistent db
    → IsConsistent (delete_port_row id guest_port db)
unfolding delete_port_row find_sandbox
delete_port_row-IsConsistent id guest_port db v = record {
  ids = v.ids;
  taps = v.taps;
  ips = v.ips;
  host_ports =
      Distinct-append-filter_right (map (λ r. r.host_port) (running_rows db)) (λ m. m.host_port)
        (λ m. not (has_port id guest_port m)) db.ports v.host_ports;
  owned = All-filter _ (λ m. not (has_port id guest_port m)) db.ports v.owned;
}

-- A deletion loses neither the sandbox of a mapping that stays nor another id.
find-delete :
    (id other : String) (rs : List SandboxRow)
    → (other == id) ≡ false
    → is_some (find (λ r. r.id == other) rs) ≡ true
    → is_some (find (λ r. r.id == other) (filter (λ r. not (r.id == id)) rs)) ≡ true
unfolding find filter
find-delete id other [] n h = h
find-delete id other (r ∷ rs) n h =
    ground (arith, eq_iff r.id id, eq_iff r.id other, eq_iff other id, find-delete id other rs n)

owned-delete :
    (id : String) (rs : List SandboxRow) (ms : List PortRow)
    → All (λ m. is_some (find (λ r. r.id == m.sandbox_id) rs) ≡ true) ms
    → All
        (λ m. is_some (find (λ r. r.id == m.sandbox_id) (filter (λ r. not (r.id == id)) rs)) ≡ true)
        (filter (λ m. not (m.sandbox_id == id)) ms)
unfolding filter
owned-delete id rs [] h = tt
owned-delete id rs (m ∷ ms) h = elim (Bool-cases (m.sandbox_id == id)) [
  | inl same ↦ rw same (owned-delete id rs ms h.1)
  | inr other ↦ rw other (find-delete id m.sandbox_id rs other h.0, owned-delete id rs ms h.1)
]

pub delete-IsConsistent :
    (id : String) (db : Db)
    → IsConsistent db
    → IsConsistent (delete_sandbox id (delete_ports_of id db))
unfolding delete_sandbox delete_ports_of find_sandbox
delete-IsConsistent id db v = record {
  ids = Distinct-filter (λ r. r.id) keep db.sandboxes v.ids;
  taps = rw running (Distinct-filter (λ r. r.tap_device) keep (running_rows db) v.taps);
  ips = rw running (Distinct-filter (λ r. r.guest_ip) keep (running_rows db) v.ips);
  host_ports = rw running (
      Distinct-append-filter (λ r. r.host_port) (λ m. m.host_port) keep
        (λ m. not (m.sandbox_id == id)) (running_rows db) db.ports v.host_ports);
  owned = owned-delete id db.sandboxes db.ports v.owned;
}
  where
    keep : SandboxRow → Bool
    keep r = not (r.id == id)

    running :
        filter is_running (filter (λ r. not (r.id == id)) db.sandboxes)
        ≡ filter (λ r. not (r.id == id)) (running_rows db)
    running = filter_comm is_running keep db.sandboxes

-- An update of other columns changes no key.
pub map-update_rows {ℓ} :
    {A : Type ℓ} (id : String) (f : SandboxRow → SandboxRow) (key : SandboxRow → A)
    → ((r : SandboxRow) → key (f r) ≡ key r)
    → (rs : List SandboxRow) → map key (update_rows id f rs) ≡ map key rs
unfolding update_rows
map-update_rows id f key k [] = refl
map-update_rows id f key k (r ∷ rs) = ground (arith, k r, map-update_rows id f key k rs)

module _ (id : String) (f : SandboxRow → SandboxRow) (same_id : (r : SandboxRow) → (f r).id ≡ r.id)
    (same_status : (r : SandboxRow) → is_running (f r) ≡ is_running r) where
  map-running-update_rows {ℓ} :
      {A : Type ℓ} (key : SandboxRow → A)
      → ((r : SandboxRow) → key (f r) ≡ key r)
      → (rs : List SandboxRow)
      → map key (filter is_running (update_rows id f rs)) ≡ map key (filter is_running rs)
  unfolding update_rows filter
  map-running-update_rows key k [] = refl
  map-running-update_rows key k (r ∷ rs) =
      ground (arith, k r, same_status r, map-running-update_rows key k rs)

  find-update_rows :
      (other : String) (rs : List SandboxRow)
      → is_some (find (λ r. r.id == other) rs) ≡ true
      → is_some (find (λ r. r.id == other) (update_rows id f rs)) ≡ true
  unfolding update_rows find
  find-update_rows other [] h = h
  find-update_rows other (r ∷ rs) h = ground (arith, same_id r, find-update_rows other rs)

  pub update_sandbox-IsConsistent :
      (db : Db)
      → ((r : SandboxRow) → (f r).tap_device ≡ r.tap_device)
      → ((r : SandboxRow) → (f r).guest_ip ≡ r.guest_ip)
      → ((r : SandboxRow) → (f r).host_port ≡ r.host_port)
      → IsConsistent db
      → IsConsistent (update_sandbox id f db)
  unfolding update_sandbox find_sandbox
  update_sandbox-IsConsistent db t i p v = record {
    ids = rw (map-update_rows id f (λ r. r.id) same_id db.sandboxes) v.ids;
    taps = rw (map-running-update_rows (λ r. r.tap_device) t db.sandboxes) v.taps;
    ips = rw (map-running-update_rows (λ r. r.guest_ip) i db.sandboxes) v.ips;
    host_ports = rw (map-running-update_rows (λ r. r.host_port) p db.sandboxes) v.host_ports;
    owned =
        owned_mono db.sandboxes (update_rows id f db.sandboxes) db.ports
          (λ other. find-update_rows other db.sandboxes) v.owned;
  }
