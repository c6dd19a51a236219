-- ===== src/Registry/Ops/Outcomes.antt =====
-- internal/registry/registry.go: the methods that add a row for a sandbox or a port. Each ends with the
-- tables after a success, and on a failure with the tables as they were.
use web_sandbox.Registry.Types.{Sandbox, Pools, SandboxRow}
use web_sandbox.Registry.Engine.{
  Db, Conn, exec_unless, insert_sandbox, refuses_sandbox, running_rows, commit, query, find_port,
  find_sandbox, insert_port, refuses_port,
}
use web_sandbox.Registry.Ops.{
  create, UsedResources, guard, insert_running, load_used, new_row, new_sandbox, used_ips,
  used_ports, used_taps, add_port, create_restore, is_some, new_port, tap_in_use, PortRow,
  ip_in_use, not_found, port_or_new,
}
use web_sandbox.Registry.Engine.Rules.{
  Ensures, commit-Ends, exec_unless-Ends, query-Ends, transaction-Ensures, tick,
}
use web_sandbox.Registry.Pools.{Error, pick_free_ip, pick_free_port, pick_free_tap}
use web_sandbox.Common.{
  Bool, Ends, Ends-bind, Ends-lift, Option, String, ap, false, lift, ok, refl, sym, true, ℕ, ◌∙◌,
  ◌≡◌, Ends-err, Ends-ok, arith, contains, not, some, ◌⊎◌, Eq-String, inl, inr, none, ◌+◌,
}

abbrev pub used_by : Db → UsedResources
used_by db = record { taps = used_taps db; ips = used_ips db; ports = used_ports db }

abbrev pub Ignored : Error → Conn → Type 0
Ignored e c = Unit

load_used-Ends :
    {Q : UsedResources → Conn → Type 0} (c : Conn)
    → Q (used_by c.db) (tick (tick c))
    → Ends Q Ignored (load_used c)
unfolding load_used
load_used-Ends c q = Ends-bind (query running_rows) _ c (
    query-Ends c tt running_rows (
      Ends-bind (query (λ db. db.ports)) _ (tick c)
        (query-Ends (tick c) tt (λ db. db.ports) (Ends-ok _ _ q))))

pub guard-Ends :
    {Q : Unit {0} → Conn → Type 0} {R : Error → Conn → Type 0} (b : Bool) (e : Error) (c : Conn)
    → (b ≡ true → Q tt c)
    → (b ≡ false → R e c)
    → Ends Q R (guard b e c)
guard-Ends true e c q r = Ends-ok _ _ (q refl)
guard-Ends false e c q r = Ends-err _ _ (r refl)

-- A row has gone into `sandboxes` that the schema's constraints allow, with the port that
-- pickFreePort chose.
pub record Inserted (pools : Pools) (id rootfs_path : String) (expires_at : Option ℕ) (now : ℕ)
    (before : Db) (sb : Sandbox) (after : Db) : Type 0 where
  pub picked_port : pick_free_port (used_ports before) pools ≡ ok sb.host_port
  pub allowed :
      refuses_sandbox
        (new_row id rootfs_path sb.tap_device sb.guest_ip sb.host_port expires_at now)
        before
      ≡ false
  pub inserted :
      after
      ≡ insert_sandbox
          (new_row id rootfs_path sb.tap_device sb.guest_ip sb.host_port expires_at now)
          before
  pub returned :
      sb ≡ new_sandbox id rootfs_path sb.tap_device sb.guest_ip sb.host_port expires_at now

module _ (pools : Pools) (id rootfs_path : String) (expires_at : Option ℕ) (now : ℕ) where
  insert_running-Ends :
      {Q : Sandbox → Conn → Type 0} (tap ip : String) (port : ℕ) (c : Conn)
      → pick_free_port (used_ports c.db) pools ≡ ok port
      → ((sb : Sandbox) (c' : Conn)
          → sb.tap_device ≡ tap
          → sb.guest_ip ≡ ip
          → Inserted pools id rootfs_path expires_at now c.db sb c'.db
          → Q sb c')
      → Ends Q Ignored (insert_running id rootfs_path tap ip port expires_at now c)
  unfolding insert_running new_sandbox new_row
  insert_running-Ends tap ip port c p q =
      Ends-bind (exec_unless (refuses_sandbox r) (insert_sandbox r)) _ c (
        exec_unless-Ends c tt (refuses_sandbox r) (insert_sandbox r)
          (λ allowed. Ends-bind commit _ _ (
            commit-Ends _ tt (
              Ends-ok _ _ (
                q _ _ refl refl (record {
                  picked_port = p;
                  allowed = allowed;
                  inserted = refl;
                  returned = refl;
                })))))
          (λ _. tt))
    where
      r : SandboxRow
      r = new_row id rootfs_path tap ip port expires_at now

  -- Create either fails and leaves the tables as they were, or adds one row: with the tap, the address
  -- and the port that the pickFree functions choose, and such that no constraint of the schema refuses
  -- it.
  pub create-Ensures :
      (c : Conn)
      → Ensures c.db
          (λ sb db.
            (pick_free_tap (used_taps c.db) pools ≡ ok sb.tap_device)
            × (pick_free_ip (used_ips c.db) pools ≡ ok sb.guest_ip)
            × Inserted pools id rootfs_path expires_at now c.db sb db)
          (create pools id rootfs_path expires_at now c)
  unfolding create
  create-Ensures c = transaction-Ensures _ _ c (
      Ends-bind load_used _ (tick c) (
        load_used-Ends (tick c) (
          Ends-bind (lift (pick_free_tap (used_taps c.db) pools)) _ _ (
            Ends-lift _ _
              (λ tap picked_tap. Ends-bind (lift (pick_free_ip (used_ips c.db) pools)) _ _ (
                Ends-lift _ _
                  (λ ip picked_ip. Ends-bind (lift (pick_free_port (used_ports c.db) pools)) _ _ (
                    Ends-lift _ _
                      (λ port picked_port.
                        insert_running-Ends tap ip port _ picked_port (λ sb c' e f i.
                          (picked_tap ∙ ap ok (sym e), picked_ip ∙ ap ok (sym f), i)))
                      (λ _ _. tt)))
                  (λ _ _. tt)))
              (λ _ _. tt)))))

  -- CreateRestore either fails and leaves the tables as they were, or adds one row that no constraint
  -- of the schema refuses: with the tap and the address that were asked for, which no running row
  -- has, and the port that pickFreePort chooses.
  pub create_restore-Ensures :
      (tap ip : String) (c : Conn)
      → Ensures c.db
          (λ sb db.
            (sb.tap_device ≡ tap)
            × (sb.guest_ip ≡ ip)
            × (contains (used_taps c.db) tap ≡ false)
            × (contains (used_ips c.db) ip ≡ false)
            × Inserted pools id rootfs_path expires_at now c.db sb db)
          (create_restore pools id rootfs_path tap ip expires_at now c)
  unfolding create_restore
  create_restore-Ensures tap ip c = transaction-Ensures _ _ c (
      Ends-bind load_used _ (tick c) (
        load_used-Ends (tick c) (
          Ends-bind (guard (not (contains (used_taps c.db) tap)) tap_in_use) _ _ (
            guard-Ends _ _ _
              (λ tap_free. Ends-bind (guard (not (contains (used_ips c.db) ip)) ip_in_use) _ _ (
                guard-Ends _ _ _
                  (λ ip_free. Ends-bind (lift (pick_free_port (used_ports c.db) pools)) _ _ (
                    Ends-lift _ _
                      (λ port picked_port.
                        insert_running-Ends tap ip port _ picked_port
                          (λ sb c' e f i. (e, f, ground arith, ground arith, i)))
                      (λ _ _. tt)))
                  (λ _. tt)))
              (λ _. tt)))))

port_or_new-Ends :
    {Q : ℕ → Conn → Type 0} (pools : Pools) (id : String) (guest_port : ℕ)
    (existing : Option PortRow) (c : Conn)
    → ((m : PortRow) → existing ≡ some m → Q m.host_port c)
    → ((port : ℕ)
        → pick_free_port (used_ports c.db) pools ≡ ok port
        → refuses_port (new_port id guest_port port) c.db ≡ false
        → Q port (record c {
          db = insert_port (new_port id guest_port port) c.db;
          calls = c.calls + 1 + 1 + 1 + 1;
        }))
    → Ends Q Ignored (port_or_new pools id guest_port existing c)
unfolding port_or_new
port_or_new-Ends pools id guest_port (some m) c old new = Ends-ok _ _ (old m refl)
port_or_new-Ends pools id guest_port none c old new = Ends-bind load_used _ c (
    load_used-Ends c (
      Ends-bind (lift (pick_free_port (used_ports c.db) pools)) _ _ (
        Ends-lift _ _
          (λ port picked.
            Ends-bind
              (exec_unless (refuses_port (new_port id guest_port port))
                (insert_port (new_port id guest_port port)))
              _ _
              (exec_unless-Ends _ tt _ _
                (λ allowed.
                  Ends-bind commit _ _ (commit-Ends _ tt (Ends-ok _ _ (new port picked allowed))))
                (λ _. tt)))
          (λ _ _. tt))))

-- AddPort either fails and leaves the tables as they were, or the sandbox is there and it returns the
-- port of the existing mapping, with the tables as they were, or else the port that pickFreePort
-- chooses, with a mapping added that no constraint of the schema refuses.
pub add_port-Ensures :
    (pools : Pools) (id : String) (guest_port : ℕ) (c : Conn)
    → Ensures c.db
        (λ port db.
          (is_some (find_sandbox id c.db) ≡ true)
          × (((m : PortRow) × (find_port id guest_port c.db ≡ some m)
                × (port ≡ m.host_port)
                × (db ≡ c.db))
              ⊎ ((pick_free_port (used_ports c.db) pools ≡ ok port)
                  × (refuses_port (new_port id guest_port port) c.db ≡ false)
                  × (db ≡ insert_port (new_port id guest_port port) c.db))))
        (add_port pools id guest_port c)
unfolding add_port
add_port-Ensures pools id guest_port c = transaction-Ensures _ _ c (
    Ends-bind (query (find_sandbox id)) _ (tick c) (
      query-Ends (tick c) tt (find_sandbox id) (
        Ends-bind (guard (is_some (find_sandbox id c.db)) not_found) _ _ (
          guard-Ends _ _ _
            (λ found. Ends-bind (query (find_port id guest_port)) _ _ (
              query-Ends _ tt (find_port id guest_port) (
                port_or_new-Ends pools id guest_port _ _ (λ m e. (found, inl (m, e, refl, refl)))
                  (λ port e r. (found, inr (e, r, refl))))))
            (λ _. tt)))))
