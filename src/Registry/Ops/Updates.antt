-- ===== src/Registry/Ops/Updates.antt =====
-- internal/registry/registry.go: the methods that change or delete rows, and the rows of snapshots.
use web_sandbox.Registry.Types.{Snapshot, SandboxRow, SnapshotRow}
use web_sandbox.Registry.Engine.{
  Conn, delete_ports_of, delete_sandbox, find_sandbox, exec, delete_port_row, insert_snapshot,
  refuses_snapshot, update_rows, update_sandbox, delete_snapshot_row,
}
use web_sandbox.Registry.Ops.{
  destroy, guard, is_some, not_found, create_snapshot, delete_port, update_existing, unix,
  delete_snapshot,
}
use web_sandbox.Registry.Engine.Rules.{
  Ensures, commit-Ends, exec_unless-Ends, transaction-Ensures, tick, exec-Ends, IsUnreadable,
  exec-Ends_causes,
}
use web_sandbox.Common.{
  Bool, Ends-bind, String, ap, false, refl, true, ℕ, ◌≡◌, arith, not, Eq-String, List, [], find,
  ◌==◌, ◌∷◌, filter, Ends, Option, inl, inr, none, some,
}
use web_sandbox.Registry.Ops.Outcomes.{guard-Ends}

-- Destroy either fails and leaves the tables as they were, or the id was there and its row and port
-- mappings are deleted.
pub destroy-Ensures :
    (id : String) (c : Conn)
    → Ensures c.db
        (λ _ db.
          (is_some (find_sandbox id c.db) ≡ true)
          × (db ≡ delete_sandbox id (delete_ports_of id c.db)))
        (destroy id c)
unfolding destroy
destroy-Ensures id c = transaction-Ensures _ _ c (
    Ends-bind (exec (delete_ports_of id)) _ (tick c) (
      exec-Ends (tick c) tt (delete_ports_of id) (
        Ends-bind (exec (delete_sandbox id)) _ _ (
          exec-Ends _ tt (delete_sandbox id) (
            Ends-bind (guard (is_some (find_sandbox id (delete_ports_of id c.db))) not_found) _ _ (
              guard-Ends _ _ _
                (λ found. commit-Ends _ tt (unfold find_sandbox delete_ports_of in found, refl))
                (λ _. tt)))))))

update_rows-missing :
    (id : String) (f : SandboxRow → SandboxRow) (rs : List SandboxRow)
    → is_some (find (λ r. r.id == id) rs) ≡ false
    → update_rows id f rs ≡ rs
unfolding find update_rows
update_rows-missing id f [] h = refl
update_rows-missing id f (r ∷ rs) h = ground (arith, update_rows-missing id f rs)

-- The update in FinishStart and SetExpiry either fails and leaves the tables as they were, or the id is
-- there and its row is changed.
pub update_existing-Ensures :
    (id : String) (f : SandboxRow → SandboxRow) (c : Conn)
    → Ensures c.db
        (λ _ db. (is_some (find_sandbox id c.db) ≡ true) × (db ≡ update_sandbox id f c.db))
        (update_existing id f c)
unfolding update_existing find_sandbox update_sandbox
update_existing-Ensures id f c = Ends-bind (exec (update_sandbox id f)) _ c (
    exec-Ends c refl (update_sandbox id f) (
      guard-Ends (is_some (find_sandbox id c.db)) not_found _ (λ found. (found, refl))
        (λ missing.
          ap (λ rows. record c.db { sandboxes = rows })
            (update_rows-missing id f c.db.sandboxes missing))))

missing_is_none : (o : Option SandboxRow) → is_some o ≡ false → o ≡ none
missing_is_none none h = refl
missing_is_none (some r) h = cc

-- It fails only if the driver does or the id is not there.
pub update_existing-Ends_causes :
    (id : String) (f : SandboxRow → SandboxRow) (c : Conn)
    → Ends (λ _ _. Unit {0}) (λ e _. IsUnreadable id c) (update_existing id f c)
unfolding update_existing
update_existing-Ends_causes id f c = Ends-bind (exec (update_sandbox id f)) _ c (
    exec-Ends_causes (update_sandbox id f) c
      (guard-Ends (is_some (find_sandbox id c.db)) not_found _ (λ found. tt)
        (λ missing. inr (missing_is_none (find_sandbox id c.db) missing)))
      (λ bad. inl bad))

pub delete_port-Ensures :
    (id : String) (guest_port : ℕ) (c : Conn)
    → Ensures c.db (λ _ db. db ≡ delete_port_row id guest_port c.db) (delete_port id guest_port c)
unfolding delete_port
delete_port-Ensures id guest_port c = exec-Ends c refl (delete_port_row id guest_port) refl

abbrev pub snapshot_row : Snapshot → SnapshotRow
snapshot_row s = record s { created_at = unix s.created_at }

pub create_snapshot-Ensures :
    (s : Snapshot) (c : Conn)
    → Ensures c.db
        (λ _ db.
          (refuses_snapshot (snapshot_row s) c.db ≡ false)
          × (db ≡ insert_snapshot (snapshot_row s) c.db))
        (create_snapshot s c)
unfolding create_snapshot
create_snapshot-Ensures s c =
    exec_unless-Ends c refl (refuses_snapshot (snapshot_row s)) (insert_snapshot (snapshot_row s))
      (λ allowed. (allowed, refl)) (λ _. refl)

-- A deletion that matches no row changes nothing.
pub filter-missing {ℓ} :
    {A : Type ℓ} (hit : A → Bool) (rows : List A)
    → is_some (find hit rows) ≡ false
    → filter (λ r. not (hit r)) rows ≡ rows
unfolding find filter
filter-missing hit [] h = refl
filter-missing hit (r ∷ rs) h = ground (arith, filter-missing hit rs)

pub delete_snapshot-Ensures :
    (id : String) (c : Conn)
    → Ensures c.db
        (λ _ db.
          (is_some (find (λ s. s.id == id) c.db.snapshots) ≡ true)
          × (db ≡ delete_snapshot_row id c.db))
        (delete_snapshot id c)
unfolding delete_snapshot delete_snapshot_row
delete_snapshot-Ensures id c = Ends-bind (exec (delete_snapshot_row id)) _ c (
    exec-Ends c refl (delete_snapshot_row id) (
      guard-Ends (is_some (find (λ s. s.id == id) c.db.snapshots)) not_found _
        (λ found. (found, refl))
        (λ missing.
          ap (λ rows. record c.db { snapshots = rows })
            (filter-missing (λ s. s.id == id) c.db.snapshots missing))))
