-- ===== src/Server/Sandboxes/Creating.antt =====
-- internal/server/server.go: what creating a sandbox has taken at the end, on every path.
use web_sandbox.Registry.Engine.{is_running, Conn}
use web_sandbox.Registry.Invariant.{IsConsistent}
use web_sandbox.Registry.History.{after_call, after_call-IsConsistent, creates}
use web_sandbox.Registry.Lifecycle.{Inserted-Created}
use web_sandbox.Registry.Ops.{create, new_row, new_sandbox}
use web_sandbox.Registry.Ops.Outcomes.{create-Ensures}
use web_sandbox.Registry.Types.{Sandbox}
use web_sandbox.Server.Host.Tracks.{
  Track, Track-widen, Track-held, Track-start, Track-weaken, release-Track,
}
use web_sandbox.Server.Host.Rules.{
  acquire-Ends, acquire-Ends_broken, attempt-Ends, registry-Ends, step-Ends,
}
use web_sandbox.Server.Host.{
  create_tap, create_tap_unbridged, Held, Host, Settings, acquire, broken, disk, tap, Eq-Held,
  on_error, registry, release,
}
use web_sandbox.Server.Sandboxes.{
  boot, handle_create, prepare_rootfs, rollback_pre_vm, running_as, expiry_of,
}
use web_sandbox.Server.Sandboxes.Answering.{Failed, Running, nothing_left}
use web_sandbox.Server.Host.Acts.{At, At-start, acquire-Acts, attempt-Acts}
use web_sandbox.Registry.Ops.{used_taps, used_ips, used_ports}
use web_sandbox.Registry.Pools.{pick_free_tap, pick_free_ip, pick_free_port}
use web_sandbox.Registry.Engine.{Db}
use web_sandbox.Registry.Types.{Pools}
use web_sandbox.Server.Sandboxes.Booting.{boot-Ends}
use web_sandbox.Server.Sandboxes.Possessions.{Rowed, apart}
use web_sandbox.Server.Sandboxes.Tracking.{Left, owns, rollback_pre_vm-Left}
use web_sandbox.Provisioner.Disks.{rootfs_path}
use web_sandbox.Common.{
  ℕ, Bool, Ends, Ends-mono, Ends-and, ok, List, Option, String, [], ap, beq_refl, contains, ◌==◌,
  ◌∷◌, ◌≡◌, ◌⊎◌, ℤ, sym, refl, Ends-bind, Ends-ok, arith, inl, inr, subst, true, ◌>>=◌, ◌>>◌,
  Eq-String, Ends-lift, lift, ◌∙◌,
}

-- The tap and the address are the first that no running sandbox has, and the port is free.
abbrev pub IsPicked : Pools → Db → Sandbox → Type 0
IsPicked pools db sb =
    (pick_free_tap (used_taps db) pools ≡ ok sb.tap_device)
    × (pick_free_ip (used_ips db) pools ≡ ok sb.guest_ip)
    × (pick_free_port (used_ports db) pools ≡ ok sb.host_port)

pub create-Rowed :
    (cfg : Settings) (id path : String) (expires_at : Option ℕ) (now : ℕ) (c : Conn)
    → IsConsistent c.db
    → Ends
        (λ sb c'. ((sb.rootfs_path ≡ path) × IsPicked cfg.pools c.db sb) × Rowed id sb c')
        (λ e c'. IsConsistent c'.db × (c'.db ≡ c.db))
        (create cfg.pools id path expires_at now c)
unfolding after_call new_row new_sandbox is_running
create-Rowed cfg id path expires_at now c v =
    let w : IsConsistent (create cfg.pools id path expires_at now c).1.db =
      after_call-IsConsistent cfg.pools (creates id path expires_at now) c v in
    Ends-mono _ _ _ _ _ (create-Ensures cfg.pools id path expires_at now c)
      (λ sb _ h.
        let made : sb.rootfs_path ≡ path = ap (λ q. q.rootfs_path) h.2.returned in
        (
          (made, (h.0, h.1, h.2.picked_port)),
          (
            w,
            (
              _,
              (Inserted-Created cfg.pools id path expires_at now c.db sb _ h.2).found,
              record { path = sym made; tap_name = refl; ip = refl; port = refl; running = refl },
            ),
          ),
        ))
      (λ e _ h. (w, h))

abbrev pub is_disk : String → Held → Bool
is_disk path h = disk path == h

prepare_rootfs-Ends :
    (cfg : Settings) (id : String) (s : Host)
    → let path = rootfs_path cfg.system cfg.paths id in
      Ends
        (λ p s'. (p ≡ path) × Track (is_disk path) (disk path ∷ []) (disk path ∷ []) s s.conn s')
        (λ e s'.
          Track (is_disk path) [] [] s s.conn s'
          ⊎ ((s.outcomes s.acts ≡ broken) × Track (is_disk path) (disk path ∷ []) [] s s.conn s'))
        (prepare_rootfs cfg id s)
unfolding prepare_rootfs contains
prepare_rootfs-Ends cfg id s =
    let path : String = rootfs_path cfg.system cfg.paths id in
    Ends-bind (acquire (disk path)) _ s (
      Ends-mono _ _ _ _ _
        (acquire-Ends_broken (disk path) s (beq_refl (disk path)) (Track-start (is_disk path) s))
        (λ _ _ h. Ends-ok _ _ (refl, h)) (λ _ _ h. h))

prepare_rootfs-Acts :
    (cfg : Settings) (id : String) (s : Host)
    → Ends (λ _ s'. At s 1 s') (λ _ s'. Unit {0}) (prepare_rootfs cfg id s)
unfolding prepare_rootfs
prepare_rootfs-Acts cfg id s =
    let path : String = rootfs_path cfg.system cfg.paths id in
    Ends-bind (acquire (disk path)) _ s (
      Ends-mono _ _ _ _ _ (acquire-Acts s (disk path) 0 s (At-start s)) (λ _ _ h. Ends-ok _ _ h.1)
        (λ _ _ _. tt))

-- What handleCreate leaves when it fails: nothing; or the disk, when the copy of the base image breaks
-- off; or what the creation leaves of the sandbox that Create picked.
abbrev pub NotCreated : Settings → String → Host → Host → Type 0
NotCreated cfg id before s =
    let path = rootfs_path cfg.system cfg.paths id in
    Left (is_disk path) [] before s
    ⊎ (((before.outcomes before.acts ≡ broken) × Left (is_disk path) (disk path ∷ []) before s)
        ⊎ ((sb : Sandbox) × (sb.rootfs_path ≡ path)
            × IsPicked cfg.pools before.conn.db sb
            × Failed cfg id sb before s))

-- CreateTap and CreateTapUnbridged.
module _ {own : Held → Bool} {may must : List Held} {before : Host} {c : Conn} where
  pub create_tap_unbridged-Ends :
      (t : String) (s : Host)
      → own (tap t) ≡ true
      → Track own may must before c s
      → Ends
          (λ _ s'. Track own (tap t ∷ may) (tap t ∷ must) before c s')
          (λ _ s'. Track own (tap t ∷ may) [] before c s')
          (create_tap_unbridged t s)
  unfolding create_tap_unbridged
  create_tap_unbridged-Ends t s o h = Ends-bind (acquire (tap t)) _ s (
      Ends-mono _ _ _ _ _ (acquire-Ends (tap t) s o h)
        (λ _ _ h₁.
          Ends-mono _ _ _ _ _ (attempt-Ends _ h₁) (λ _ _ k. k.0)
            (λ _ _ k. Track-weaken _ _ _ (λ x q. q) (λ x q. q) k.0))
        (λ _ _ k. k))

  create_tap-Ends :
      (t : String) (s : Host)
      → own (tap t) ≡ true
      → Track own may must before c s
      → Ends
          (λ _ s'. Track own (tap t ∷ may) (tap t ∷ must) before c s')
          (λ _ s'. Track own (tap t ∷ may) [] before c s')
          (create_tap t s)
  unfolding create_tap
  create_tap-Ends t s o h = Ends-bind (create_tap_unbridged t) _ s (
      Ends-mono _ _ _ _ _ (create_tap_unbridged-Ends t s o h)
        (λ _ _ h₁.
          Ends-mono _ _ _ _ _ (attempt-Ends _ h₁) (λ _ _ k. k.0)
            (λ _ _ k. Track-weaken _ _ _ (λ x q. q) (λ x q. q) k.0))
        (λ _ _ k. k))

-- They are three calls.
create_tap-Acts :
    (t : String) (before : Host) (s : Host)
    → At before 1 s
    → Ends (λ _ s'. At before 4 s') (λ _ s'. Unit {0}) (create_tap t s)
unfolding create_tap create_tap_unbridged
create_tap-Acts t before s at_ = Ends-bind (create_tap_unbridged t) _ s (
    Ends-bind (acquire (tap t)) _ s (
      Ends-mono _ _ _ _ _ (acquire-Acts before (tap t) 1 s at_)
        (λ _ _ h.
          Ends-mono _ _ _ _ _ (attempt-Acts before 2 _ h.1)
            (λ _ _ k.
              Ends-mono _ _ _ _ _ (attempt-Acts before 3 _ k.1) (λ _ _ l. l.1) (λ _ _ _. tt))
            (λ _ _ _. tt))
        (λ _ _ _. tt)))

pub with_tap-Ends :
    (cfg : Settings) (id : String) (sb : Sandbox) (before : Host) (c : Conn) (s : Host)
    → Rowed id sb c
    → Track
        (is_disk sb.rootfs_path)
        (disk sb.rootfs_path ∷ [])
        (disk sb.rootfs_path ∷ [])
        before
        c
        s
    → At before 1 s
    → Ends
        (λ sb' s'. (sb' ≡ running_as cfg id sb) × Running cfg id sb before s'.conn s')
        (λ _ s'. Failed cfg id sb before s')
        ((do on_error (create_tap sb.tap_device) (rollback_pre_vm id sb); boot cfg id sb) s)
unfolding contains
with_tap-Ends cfg id sb before c s rowed t at_ =
    step-Ends _ _ (create_tap sb.tap_device) (rollback_pre_vm id sb) _ s
      (Ends-and (create_tap sb.tap_device s)
        (create_tap-Ends sb.tap_device s (beq_refl sb.tap_device) (
          Track-widen (owns id sb) s
            (λ h k. apart id sb (disk sb.rootfs_path) h (beq_refl sb.rootfs_path) k) t))
        (create_tap-Acts sb.tap_device before s at_))
      (λ _ s₁ h.
        boot-Ends cfg id sb before c s₁
          (record {
            consistent = rowed.0;
            row = rowed.1.0;
            found = rowed.1.1;
            named = rowed.1.2;
            holding = h.0;
          })
          h.1)
      (λ e s₁ h. nothing_left (
        rollback_pre_vm-Left cfg.pools rowed.0 id sb [] s₁ (beq_refl sb.tap_device)
          (beq_refl sb.rootfs_path) (λ x k. ground arith) h.0))

created-Ends :
    (cfg : Settings) (id path : String) (expires_at : Option ℕ) (now : ℕ) (before s : Host)
    → path ≡ rootfs_path cfg.system cfg.paths id
    → IsConsistent before.conn.db
    → Track
        (is_disk (rootfs_path cfg.system cfg.paths id))
        (disk (rootfs_path cfg.system cfg.paths id) ∷ [])
        (disk (rootfs_path cfg.system cfg.paths id) ∷ [])
        before
        before.conn
        s
    → At before 1 s
    → Ends
        (λ sb' s'.
          (sb : Sandbox) × (sb' ≡ running_as cfg id sb)
          × (sb.rootfs_path ≡ rootfs_path cfg.system cfg.paths id)
          × Running cfg id sb before s'.conn s')
        (λ _ s'. NotCreated cfg id before s')
        ((do
          sb ←
              on_error
                (registry 500 (create cfg.pools id path expires_at now))
                (release (disk (rootfs_path cfg.system cfg.paths id)))
          on_error (create_tap sb.tap_device) (rollback_pre_vm id sb)
          boot cfg id sb)
          s)
unfolding contains release
created-Ends cfg id path expires_at now before s e v t at_ =
    let disk_path : String = rootfs_path cfg.system cfg.paths id in
    step-Ends
      (λ sb s'.
        ((sb.rootfs_path ≡ disk_path) × IsPicked cfg.pools before.conn.db sb)
        × Rowed id sb s'.conn
        × Track (is_disk disk_path) (disk disk_path ∷ []) (disk disk_path ∷ []) before s'.conn s'
        × At before 1 s')
      (λ _ s'.
        IsConsistent s'.conn.db
        × Track (is_disk disk_path) (disk disk_path ∷ []) (disk disk_path ∷ []) before s'.conn s')
      (registry 500 (create cfg.pools id path expires_at now)) (release (disk disk_path)) _ s
      (registry-Ends _ _ 500 (create cfg.pools id path expires_at now) s
        (create-Rowed cfg id path expires_at now s.conn
          (subst (λ k. IsConsistent k.db) (sym t.conn_is) v))
        (λ sb c h. (
          (h.0.0 ∙ e, subst (λ k. IsPicked cfg.pools k.db sb) t.conn_is h.0.1),
          h.1,
          Track-held s _ refl t,
          at_,
        ))
        (λ _ c w. (w.0, Track-held s _ refl t)))
      (λ sb s₁ h.
        Ends-mono _ _ _ _ _
          (with_tap-Ends cfg id sb before s₁.conn s₁ h.1
            (subst (λ p. Track (is_disk p) (disk p ∷ []) (disk p ∷ []) before s₁.conn s₁)
              (sym h.0.0) h.2)
            h.3)
          (λ sb' _ k. (sb, k.0, h.0.0, k.1)) (λ _ _ k. inr (inr (sb, h.0.0, h.0.1, k))))
      (λ _ s₁ h. inl (
        h.0,
        release-Track (disk disk_path) [] s₁ (beq_refl (disk disk_path)) (λ x k. ground arith) h.1,
      ))

-- From consistent tables, handleCreate answers only with a sandbox that is in the table of machines,
-- whose row is found and which holds its disk, its tap, the two rules of its port and its process.
-- When it fails, the tables are consistent and none of this is held that was not held before, but for
-- three cases, each with its cause: the disk, if the copy of the base image breaks off; rules of the
-- port, if the call fails that adds one of the two; and all of it with the sandbox in the table, if the
-- guest's agent does not answer and the driver fails to read the row for destroying it. The sandbox is
-- then the one that Create picked. On every path, what is not the sandbox's own is held as before. What
-- is released counts as freed, whether or not the call that frees it fails.
pub handle_create-Running :
    (cfg : Settings) (id : String) (now : ℕ) (body : Option ℤ) (s : Host)
    → IsConsistent s.conn.db
    → Ends
        (λ sb' s'.
          (sb : Sandbox) × (sb' ≡ running_as cfg id sb)
          × (sb.rootfs_path ≡ rootfs_path cfg.system cfg.paths id)
          × Running cfg id sb s s'.conn s')
        (λ _ s'. NotCreated cfg id s s')
        (handle_create cfg id now body s)
unfolding handle_create contains
handle_create-Running cfg id now body s v =
    let path : String = rootfs_path cfg.system cfg.paths id in
    let kept : (c : Conn) → c ≡ s.conn → IsConsistent c.db =
      λ c e. subst (λ k. IsConsistent k.db) (sym e) v in
    Ends-bind (lift (expiry_of now body)) _ s (
      Ends-lift (expiry_of now body) s
        (λ expires_at _. Ends-bind (prepare_rootfs cfg id) _ s (
          Ends-mono _ _ _ _ _
            (Ends-and (prepare_rootfs cfg id s) (prepare_rootfs-Ends cfg id s)
              (prepare_rootfs-Acts cfg id s))
            (λ p _ h. created-Ends cfg id p expires_at now s _ h.0.0 v h.0.1 h.1)
            (λ e _ h. elim h.0 [
              | inl nothing ↦ inl (kept _ nothing.conn_is, Track-held _ _ refl nothing)
              | inr copied ↦
                  inr (inl (copied.0, (kept _ copied.1.conn_is, Track-held _ _ refl copied.1)))
            ])))
        (λ e _. inl (v, Track-start _ s)))
