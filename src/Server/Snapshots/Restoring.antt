-- ===== src/Server/Snapshots/Restoring.antt =====
-- internal/server/snapshot.go: a sandbox that is restored takes the tap and the address of its snapshot.
use web_sandbox.Registry.Engine.{is_running, Conn, Db, query}
use web_sandbox.Registry.Engine.Rules.{query-Ends, tick}
use web_sandbox.Registry.History.{after_call, after_call-IsConsistent, restores}
use web_sandbox.Registry.Invariant.{IsConsistent}
use web_sandbox.Registry.Lifecycle.{Inserted-Created}
use web_sandbox.Registry.Ops.{
  create_restore, get_snapshot, new_row, new_sandbox, or_fail, used_ips, used_taps,
}
use web_sandbox.Registry.Ops.Outcomes.{create_restore-Ensures}
use web_sandbox.Registry.Pools.{Error, not_found, tap_name}
use web_sandbox.Registry.Types.{Sandbox, SnapshotRow, scan_snapshot}
use web_sandbox.Server.Host.{Host, Settings, acquire, create_tap, disk, on_error, registry, Eq-Held}
use web_sandbox.Server.Host.Tracks.{Track, Track-held, Track-start, Track-widen}
use web_sandbox.Server.Host.Rules.{acquire-Ends, registry-Ends, step-Ends}
use web_sandbox.Server.Sandboxes.{boot, expiry_of, rollback_pre_vm, running_as}
use web_sandbox.Server.Sandboxes.Answering.{Failed, Running, nothing_left}
use web_sandbox.Server.Host.Acts.{At, At-start, acquire-Acts}
use web_sandbox.Server.Sandboxes.Creating.{is_disk, with_tap-Ends}
use web_sandbox.Server.Sandboxes.Possessions.{Rowed, apart}
use web_sandbox.Server.Sandboxes.Tracking.{owns, rollback_pre_vm-Left}
use web_sandbox.Server.Snapshots.{handle_restore}
use web_sandbox.Common.{
  ℕ, Ends, Ends-bind, Ends-lift, Ends-and, Ends-mono, Ends-ok, Option, String, [], ap, arith,
  beq_refl, contains, false, find, lift, none, ok, refl, some, subst, sym, ◌==◌, ◌∙◌, ◌≡◌, ℤ,
  Eq-String, ◌>>◌,
}

or_fail-snapshot :
    (o : Option SnapshotRow) (e : Error) (r : SnapshotRow) → or_fail o e ≡ ok r → o ≡ some r
or_fail-snapshot none e r h = cc
or_fail-snapshot (some q) e r h = cc

pub get_snapshot-finds :
    (id : String) (c : Conn)
    → Ends
        (λ snap c'.
          (r : SnapshotRow) × (find (λ s. s.id == id) c.db.snapshots ≡ some r)
          × (snap ≡ scan_snapshot r)
          × (c'.db ≡ c.db))
        (λ e c'. c'.db ≡ c.db)
        (get_snapshot id c)
unfolding get_snapshot
get_snapshot-finds id c = Ends-bind (query (λ db. find (λ s. s.id == id) db.snapshots)) _ c (
    query-Ends c refl (λ db. find (λ s. s.id == id) db.snapshots)
      (Ends-bind (lift (or_fail (find (λ s. s.id == id) c.db.snapshots) not_found)) _ (tick c) (
        Ends-lift _ _ (λ r e. Ends-ok _ _ (r, or_fail-snapshot _ not_found r e, refl, refl))
          (λ _ _. refl))))

-- The new row, as create_restore makes it.
abbrev pub RestoredRow : String → String → String → String → Db → Sandbox → Conn → Type 0
RestoredRow id path tap_name ip before sb c =
    (sb.rootfs_path ≡ path)
    × (sb.tap_device ≡ tap_name)
    × (sb.guest_ip ≡ ip)
    × (contains (used_taps before) tap_name ≡ false)
    × (contains (used_ips before) ip ≡ false)
    × Rowed id sb c

create_restore-Rowed :
    (cfg : Settings) (id path tap_name ip : String) (expires_at : Option ℕ) (now : ℕ) (c : Conn)
    → IsConsistent c.db
    → Ends
        (RestoredRow id path tap_name ip c.db)
        (λ e c'. IsConsistent c'.db × (c'.db ≡ c.db))
        (create_restore cfg.pools id path tap_name ip expires_at now c)
unfolding after_call new_row new_sandbox is_running
create_restore-Rowed cfg id path tap_name ip expires_at now c v =
    let w : IsConsistent (create_restore cfg.pools id path tap_name ip expires_at now c).1.db =
      after_call-IsConsistent cfg.pools (restores id path tap_name ip expires_at now) c v in
    Ends-mono _ _ _ _ _ (create_restore-Ensures cfg.pools id path expires_at now tap_name ip c)
      (λ sb _ h.
        let made : sb.rootfs_path ≡ path = ap (λ q. q.rootfs_path) h.4.returned in
        (
          made,
          h.0,
          h.1,
          h.2,
          h.3,
          (
            w,
            (
              _,
              (Inserted-Created cfg.pools id path expires_at now c.db sb _ h.4).found,
              record { path = sym made; tap_name = refl; ip = refl; port = refl; running = refl },
            ),
          ),
        ))
      (λ e _ h. (w, h))

-- The part after the row.
restored-Ends :
    (cfg : Settings) (id : String) (sb : Sandbox) (before : Host) (c : Conn) (s : Host)
    → Rowed id sb c
    → Track (is_disk sb.rootfs_path) [] [] before c s
    → At before 0 s
    → Ends
        (λ sb' s'. (sb' ≡ running_as cfg id sb) × Running cfg id sb before s'.conn s')
        (λ _ s'. Failed cfg id sb before s')
        ((do
          on_error (acquire (disk sb.rootfs_path)) (rollback_pre_vm id sb)
          on_error (create_tap sb.tap_device) (rollback_pre_vm id sb)
          boot cfg id sb)
          s)
unfolding contains
restored-Ends cfg id sb before c s rowed t at_ =
    step-Ends _ _ (acquire (disk sb.rootfs_path)) (rollback_pre_vm id sb) _ s
      (Ends-and (acquire (disk sb.rootfs_path) s)
        (acquire-Ends (disk sb.rootfs_path) s (beq_refl (disk sb.rootfs_path)) t)
        (acquire-Acts before (disk sb.rootfs_path) 0 s at_))
      (λ _ s₁ h. with_tap-Ends cfg id sb before c s₁ rowed h.0 h.1.1)
      (λ _ s₁ h. nothing_left (
        rollback_pre_vm-Left cfg.pools rowed.0 id sb [] s₁ (beq_refl sb.tap_device)
          (beq_refl sb.rootfs_path) (λ x k. ground arith)
          (Track-widen (owns id sb) s₁
            (λ x k. apart id sb (disk sb.rootfs_path) x (beq_refl sb.rootfs_path) k) h.0)))

-- What a restore that succeeds has made: a running sandbox with the disk path, the tap and the address
-- of the snapshot, which no running sandbox had.
pub record Restored (cfg : Settings) (id snap_id : String) (before : Host) (sb' : Sandbox)
    (s : Host) : Type 0 where
  pub sb : Sandbox
  pub row : SnapshotRow
  pub found : find (λ q. q.id == snap_id) before.conn.db.snapshots ≡ some row
  pub answer : sb' ≡ running_as cfg id sb
  pub path : sb.rootfs_path ≡ row.source_rootfs_path
  pub same_tap :
      (sb.tap_device ≡ row.tap_device)
      × (contains (used_taps before.conn.db) row.tap_device ≡ false)
  pub same_ip :
      (sb.guest_ip ≡ row.guest_ip) × (contains (used_ips before.conn.db) row.guest_ip ≡ false)
  pub running : Running cfg id sb before s.conn s

-- What one that fails may leave: what is held and the tables are as they were, or what a creation leaves
-- of the sandbox with the disk path, the tap and the address of the snapshot.
pub data NotRestored (cfg : Settings) (id snap_id : String) (before s : Host) : Type 0 where
  untouched :
      s.held ≡ before.held → s.conn.db ≡ before.conn.db → NotRestored cfg id snap_id before s
  given_up :
      (sb : Sandbox) (row : SnapshotRow)
      → find (λ q. q.id == snap_id) before.conn.db.snapshots ≡ some row
      → sb.rootfs_path ≡ row.source_rootfs_path
      → sb.tap_device ≡ row.tap_device
      → sb.guest_ip ≡ row.guest_ip
      → Failed cfg id sb before s
      → NotRestored cfg id snap_id before s

-- From consistent tables, a restore answers only with a running sandbox that has the disk path, the tap
-- and the address of the snapshot, and only if no running sandbox had this tap or this address. When it
-- fails, nothing is held that was not held before, but for two cases, each with its cause: rules of the
-- port of this sandbox, if the call fails that adds one of the two; and the running sandbox, if the
-- guest's agent does not answer and the driver fails to read the row for destroying it. On every path,
-- what is not the sandbox's own is held as before. What is released counts as freed, whether or not the
-- call that frees it fails.
pub handle_restore-Restored :
    (cfg : Settings) (id snap_id : String) (now : ℕ) (body : Option ℤ) (s : Host)
    → IsConsistent s.conn.db
    → Ends
        (λ sb' s'. Restored cfg id snap_id s sb' s')
        (λ _ s'. NotRestored cfg id snap_id s s')
        (handle_restore cfg id snap_id now body s)
unfolding handle_restore scan_snapshot
handle_restore-Restored cfg id snap_id now body s v =
    Ends-bind (registry 404 (get_snapshot snap_id)) _ s (
      registry-Ends _ _ 404 (get_snapshot snap_id) s (get_snapshot-finds snap_id s.conn)
        (λ snap c h. rw h.2 (
          Ends-bind (lift (expiry_of now body)) _ _ (
            Ends-lift (expiry_of now body) _
              (λ expires_at _.
                Ends-bind
                  (registry 409 (
                    create_restore cfg.pools id h.0.source_rootfs_path h.0.tap_device h.0.guest_ip
                      expires_at now))
                  _ _
                  (registry-Ends _ _ 409 _ _
                    (create_restore-Rowed cfg id h.0.source_rootfs_path h.0.tap_device h.0.guest_ip
                      expires_at now c (subst IsConsistent (sym h.3) v))
                    (λ sb d g.
                      Ends-mono _ _ _ _ _
                        (restored-Ends cfg id sb s d _ g.5
                          (Track-held s _ refl (Track-start (is_disk sb.rootfs_path) s))
                          (At-start s))
                        (λ sb' _ k. record {
                          sb = sb;
                          row = h.0;
                          found = h.1;
                          answer = k.0;
                          path = g.0;
                          same_tap = (
                            g.1,
                            subst (λ db. contains (used_taps db) h.0.tap_device ≡ false) h.3 g.3,
                          );
                          same_ip = (
                            g.2,
                            subst (λ db. contains (used_ips db) h.0.guest_ip ≡ false) h.3 g.4,
                          );
                          running = k.1;
                        })
                        (λ _ _ k. given_up sb h.0 h.1 g.0 g.1 g.2 k))
                    (λ _ d g. untouched refl (g.1 ∙ h.3))))
              (λ _ _. untouched refl h.3))))
        (λ _ c h. untouched refl h))
