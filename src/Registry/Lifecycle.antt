-- ===== src/Registry/Lifecycle.antt =====
-- What the methods of the registry mean to one another: a row that was created is found, one that was
-- destroyed is gone with its mappings, a port is exposed once, and a deadline is met to the second.
use mathlib.Core.Bool.{false≢true}
use web_sandbox.Registry.Types.{
  Sandbox, SandboxRow, PortRow, Pools, unix_or_nil, unix, second, Status,
}
use web_sandbox.Registry.Engine.{
  Db, Conn, delete_ports_of, delete_sandbox, find_port, find_sandbox, has_port, insert_port,
  insert_sandbox, refuses_port, refuses_sandbox,
}
use web_sandbox.Registry.Ops.{
  create, destroy, has_expired, is_some, new_row, add_port, new_port, new_sandbox,
}
use web_sandbox.Registry.Ops.Outcomes.{Inserted, create-Ensures, add_port-Ensures}
use web_sandbox.Registry.Ops.Updates.{destroy-Ensures}
use web_sandbox.Common.{
  Ends-mono, List, Option, String, [], arith, contains, eq_iff, false, filter, find, map, none, not,
  refl, some, true, ℕ, ◌+◌, ◌<◌, ◌==◌, ◌∷◌, ◌≡◌, Eq-String, beq_refl, inl, inr, ok, Ends-returned,
  sym, ◌∙◌, Bool-cases, ◌⊎◌, ap, ◌*◌, ◌≤◌,
}
use web_sandbox.Registry.Engine.Rules.{Ensures}
use web_sandbox.Provisioner.Disks.{rootfs_path}

find-filter_self :
    (id : String) (rs : List SandboxRow)
    → find (λ r. r.id == id) (filter (λ r. not (r.id == id)) rs) ≡ none
unfolding find filter
find-filter_self id [] = refl
find-filter_self id (r ∷ rs) = ground (arith, find-filter_self id rs)

find-filter_other :
    (id other : String) (rs : List SandboxRow)
    → (other == id) ≡ false
    → find (λ r. r.id == other) (filter (λ r. not (r.id == id)) rs) ≡ find (λ r. r.id == other) rs
unfolding find filter
find-filter_other id other [] n = refl
find-filter_other id other (r ∷ rs) n =
    ground
      (arith, eq_iff r.id id, eq_iff r.id other, eq_iff other id, find-filter_other id other rs n)

find_port-filter_self :
    (id : String) (guest_port : ℕ) (ms : List PortRow)
    → find (has_port id guest_port) (filter (λ m. not (m.sandbox_id == id)) ms) ≡ none
unfolding find filter
find_port-filter_self id guest_port [] = refl
find_port-filter_self id guest_port (m ∷ ms) =
    ground (arith, find_port-filter_self id guest_port ms)

find_port-filter_other :
    (id other : String) (guest_port : ℕ) (ms : List PortRow)
    → (other == id) ≡ false
    → find (has_port other guest_port) (filter (λ m. not (m.sandbox_id == id)) ms)
      ≡ find (has_port other guest_port) ms
unfolding find filter
find_port-filter_other id other guest_port [] n = refl
find_port-filter_other id other guest_port (m ∷ ms) n = ground (
  arith,
  eq_iff m.sandbox_id id,
  eq_iff m.sandbox_id other,
  eq_iff other id,
  find_port-filter_other id other guest_port ms n,
)

-- What Destroy has done: the sandbox and its mappings are gone, and every other sandbox and its
-- mappings are found as before.
pub record Destroyed (id : String) (before after : Db) : Type 0 where
  pub was_there : is_some (find_sandbox id before) ≡ true
  pub gone : find_sandbox id after ≡ none
  pub unmapped : (guest_port : ℕ) → find_port id guest_port after ≡ none
  pub others :
      (other : String)
      → (other == id) ≡ false
      → find_sandbox other after ≡ find_sandbox other before
  pub mapped :
      (other : String) (guest_port : ℕ)
      → (other == id) ≡ false
      → find_port other guest_port after ≡ find_port other guest_port before

Destroyed-delete :
    (id : String) (db : Db)
    → is_some (find_sandbox id db) ≡ true
    → Destroyed id db (delete_sandbox id (delete_ports_of id db))
unfolding delete_sandbox delete_ports_of find_sandbox find_port
Destroyed-delete id db h = record {
  was_there = h;
  gone = find-filter_self id db.sandboxes;
  unmapped = λ guest_port. find_port-filter_self id guest_port db.ports;
  others = λ other n. find-filter_other id other db.sandboxes n;
  mapped = λ other guest_port n. find_port-filter_other id other guest_port db.ports n;
}

-- Destroy either fails and leaves the tables as they were, or removes the sandbox, which was there,
-- with all its port mappings, and touches no other sandbox and no mapping of another.
pub destroy-Destroyed :
    (id : String) (c : Conn) → Ensures c.db (λ _ db. Destroyed id c.db db) (destroy id c)
destroy-Destroyed id c =
    Ends-mono _ _ _ _ (destroy id c) (destroy-Ensures id c)
      (λ _ _ h. rw h.1 (Destroyed-delete id c.db h.0)) (λ e _ h. h)

-- What Create has done: the id was free, the new row is found under it, with its times cut to
-- seconds, and every other id is found as before.
pub record Created (id rootfs_path : String) (expires_at : Option ℕ) (now : ℕ) (before : Db)
    (sb : Sandbox) (after : Db) : Type 0 where
  pub was_free : contains (map (λ r. r.id) before.sandboxes) id ≡ false
  pub found :
      find_sandbox id after
      ≡ some (new_row id rootfs_path sb.tap_device sb.guest_ip sb.host_port expires_at now)
  pub others :
      (other : String)
      → (other == id) ≡ false
      → find_sandbox other after ≡ find_sandbox other before

pub Inserted-Created :
    (pools : Pools) (id rootfs_path : String) (expires_at : Option ℕ) (now : ℕ) (before : Db)
    (sb : Sandbox) (after : Db)
    → Inserted pools id rootfs_path expires_at now before sb after
    → Created id rootfs_path expires_at now before sb after
unfolding insert_sandbox find_sandbox find new_row refuses_sandbox
Inserted-Created pools id rootfs_path expires_at now before sb after i = rw i.inserted (record {
  was_free = ground (arith, i.allowed);
  found = rw (beq_refl id) refl;
  others = λ other n. ground (arith, eq_iff id other, eq_iff other id);
})

-- A time is kept as the last whole second before it.
abbrev pub IsCut : ℕ → ℕ → Type 0
IsCut t seconds = (seconds * second ≤ t) × (t < (seconds + 1) * second)

abbrev pub IsCutOption : Option ℕ → Option ℕ → Type 0
IsCutOption none r = r ≡ none
IsCutOption (some t) r = (n : ℕ) × (r ≡ some n) × IsCut t n

-- The row that records a new sandbox.
pub record IsRecorded (id rootfs_path : String) (expires_at : Option ℕ) (now : ℕ) (sb : Sandbox)
    (row : SandboxRow) : Type 0 where
  pub id_is : row.id ≡ id
  pub path : row.rootfs_path ≡ rootfs_path
  pub same_tap : row.tap_device ≡ sb.tap_device
  pub ip : row.guest_ip ≡ sb.guest_ip
  pub port : row.host_port ≡ sb.host_port
  pub runs : row.status ≡ Status.running
  pub created : IsCut now row.created_at
  pub expires : IsCutOption expires_at row.expires_at
  pub stopped : row.stopped_at ≡ none

-- What is returned, with the times as they were given.
pub record IsAnswered (id rootfs_path : String) (expires_at : Option ℕ) (now : ℕ) (sb : Sandbox)
    : Type 0 where
  pub id_is : sb.id ≡ id
  pub path : sb.rootfs_path ≡ rootfs_path
  pub created : sb.created_at ≡ now
  pub expires : sb.expires_at ≡ expires_at

-- What Create has done, with the row given by what it records.
pub record Recorded (id rootfs_path : String) (expires_at : Option ℕ) (now : ℕ) (before : Db)
    (sb : Sandbox) (after : Db) : Type 0 where
  pub was_free : contains (map (λ r. r.id) before.sandboxes) id ≡ false
  pub row : SandboxRow
  pub found : find_sandbox id after ≡ some row
  pub is_recorded : IsRecorded id rootfs_path expires_at now sb row
  pub answer : IsAnswered id rootfs_path expires_at now sb
  pub others :
      (other : String)
      → (other == id) ≡ false
      → find_sandbox other after ≡ find_sandbox other before

pub unix-IsCut : (t : ℕ) → IsCut t (unix t)
unfolding unix
unix-IsCut t = (omega arith, omega arith)

unix_or_nil-IsCut : (o : Option ℕ) → IsCutOption o (unix_or_nil o)
unfolding unix_or_nil
unix_or_nil-IsCut none = refl
unix_or_nil-IsCut (some t) = (unix t, refl, unix-IsCut t)

Inserted-Recorded :
    (pools : Pools) (id rootfs_path : String) (expires_at : Option ℕ) (now : ℕ) (before : Db)
    (sb : Sandbox) (after : Db)
    → Inserted pools id rootfs_path expires_at now before sb after
    → Recorded id rootfs_path expires_at now before sb after
unfolding new_row new_sandbox
Inserted-Recorded pools id rootfs_path expires_at now before sb after i =
    let made = Inserted-Created pools id rootfs_path expires_at now before sb after i in
    record {
      was_free = made.was_free;
      row = new_row id rootfs_path sb.tap_device sb.guest_ip sb.host_port expires_at now;
      found = made.found;
      is_recorded = record {
        id_is = refl;
        path = refl;
        same_tap = refl;
        ip = refl;
        port = refl;
        runs = refl;
        created = unix-IsCut now;
        expires = unix_or_nil-IsCut expires_at;
        stopped = refl;
      };
      answer = record {
        id_is = ap (λ q. q.id) i.returned;
        path = ap (λ q. q.rootfs_path) i.returned;
        created = ap (λ q. q.created_at) i.returned;
        expires = ap (λ q. q.expires_at) i.returned;
      };
      others = made.others;
    }

-- Create either fails and leaves the tables as they were, or the new sandbox is found under its id,
-- which was free. Its row says that it runs, has the disk path that was given, the tap, the address and
-- the port that are returned, and the times cut to the last whole second before them; no deadline if
-- none was given. The sandbox that is returned has the times as they were given. Every other id is
-- found as before.
pub create-Created :
    (pools : Pools) (id rootfs_path : String) (expires_at : Option ℕ) (now : ℕ) (c : Conn)
    → Ensures c.db
        (Recorded id rootfs_path expires_at now c.db)
        (create pools id rootfs_path expires_at now c)
create-Created pools id rootfs_path expires_at now c =
    Ends-mono _ _ _ _ (create pools id rootfs_path expires_at now c)
      (create-Ensures pools id rootfs_path expires_at now c)
      (λ sb _ h. Inserted-Recorded pools id rootfs_path expires_at now c.db sb _ h.2) (λ e _ h. h)

-- The mapping of a guest port is recorded.
abbrev pub IsMapped : String → ℕ → ℕ → Db → Type 0
IsMapped id guest_port port db =
    (m : PortRow) × (find_port id guest_port db ≡ some m) × (port ≡ m.host_port)

new_port-IsMapped :
    (id : String) (guest_port port : ℕ) (db : Db)
    → IsMapped id guest_port port (insert_port (new_port id guest_port port) db)
unfolding find_port find insert_port
new_port-IsMapped id guest_port port db =
    (new_port id guest_port port, rw (beq_refl id, beq_refl guest_port) refl, refl)

pub add_port-IsMapped :
    (pools : Pools) (id : String) (guest_port : ℕ) (c : Conn)
    → Ensures c.db (λ port db. IsMapped id guest_port port db) (add_port pools id guest_port c)
add_port-IsMapped pools id guest_port c =
    Ends-mono _ _ _ _ (add_port pools id guest_port c) (add_port-Ensures pools id guest_port c)
      (λ port _ h. elim h.1 [
        | inl (m, e, p, same) ↦ rw same (m, e, p)
        | inr (picked, allowed, new) ↦ rw new (new_port-IsMapped id guest_port port c.db)
      ])
      (λ e _ h. h)

refuses_port-mapped :
    (id : String) (guest_port port : ℕ) (db : Db) (m : PortRow)
    → find_port id guest_port db ≡ some m
    → refuses_port (new_port id guest_port port) db ≡ true
unfolding refuses_port
refuses_port-mapped id guest_port port db m e = rw (e, refuses_port) refl

add_port-mapped :
    (pools : Pools) (id : String) (guest_port port : ℕ) (c : Conn)
    → IsMapped id guest_port port c.db
    → Ensures c.db (λ again db. (again ≡ port) × (db ≡ c.db)) (add_port pools id guest_port c)
add_port-mapped pools id guest_port port c (m, e, p) =
    Ends-mono _ _ _ _ (add_port pools id guest_port c) (add_port-Ensures pools id guest_port c)
      (λ again _ h. elim h.1 [
        | inl (m', e', p', same) ↦ (cc, same)
        | inr (picked, allowed, new) ↦
            absurd (false≢true (sym allowed ∙ refuses_port-mapped id guest_port again c.db m e))
      ])
      (λ x _ h. h)

-- A guest port that has been exposed is not given another host port: whatever the call returns after
-- a successful one, it is the same port, and the tables stay as they are.
pub add_port_twice :
    (pools : Pools) (id : String) (guest_port port : ℕ) (c : Conn)
    → (add_port pools id guest_port c).0 ≡ ok port
    → let c' = (add_port pools id guest_port c).1 in
      Ensures c'.db (λ again db. (again ≡ port) × (db ≡ c'.db)) (add_port pools id guest_port c')
add_port_twice pools id guest_port port c e =
    add_port-mapped pools id guest_port port (add_port pools id guest_port c).1 (
      Ends-returned _ _ (add_port pools id guest_port c) port
        (add_port-IsMapped pools id guest_port c) e)

-- A sandbox with a deadline is reported as expired only after the deadline, and is not reported only
-- until less than a second after it.
pub has_expired_bounds :
    (r : SandboxRow) (deadline now : ℕ)
    → r.expires_at ≡ unix_or_nil (some deadline)
    → ((has_expired now r ≡ true) × (deadline < now))
      ⊎ ((has_expired now r ≡ false) × (now < deadline + second))
unfolding has_expired unix_or_nil unix
has_expired_bounds r deadline now e = elim (Bool-cases (has_expired now r)) [
  | inl over ↦ inl (over, ground arith)
  | inr not_over ↦ inr (not_over, ground arith)
]
