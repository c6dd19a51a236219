-- ===== src/Server/Snapshots/Resuming.antt =====
-- internal/server/snapshot.go: what bringUpClone has taken for a clone when it returns.
use web_sandbox.Registry.Engine.{Conn, find_sandbox}
use web_sandbox.Registry.Invariant.{IsConsistent}
use web_sandbox.Registry.Types.{Sandbox}
use web_sandbox.Registry.Ops.{create}
use web_sandbox.Provisioner.Disks.{rootfs_path}
use web_sandbox.Server.Host.{
  Host, Outcome, done, refused, broken, Settings, acquire, attempt, create_tap_unbridged, release,
  registry, disk, tap, process, Held, Act, Eq-Held, holds,
}
use web_sandbox.Server.Host.Tracks.{
  Track, Track-same, hold-Track, release-Track, Track-weaken, Track-start, Track-held,
}
use web_sandbox.Server.Host.Rules.{
  step-Ends, attempt-Ends, acquire-Ends, registry-Ends, on_error-Ends,
}
use web_sandbox.Server.Sandboxes.{rollback_pre_vm}
use web_sandbox.Server.Sandboxes.Elsewhere.{Concerns, Elsewhere, Elsewhere-trans}
use web_sandbox.Server.Sandboxes.Concerning.{create-Concerns}
use web_sandbox.Server.Sandboxes.Standing.{Standing}
use web_sandbox.Server.Sandboxes.Spares.{Spares, Elsewhere-Spares, Spares-nothing}
use web_sandbox.Server.Sandboxes.Possessions.{Rowed}
use web_sandbox.Server.Sandboxes.Tracking.{owns, Left, rollback_pre_vm-Left}
use web_sandbox.Server.Sandboxes.Creating.{create-Rowed, create_tap_unbridged-Ends}
use web_sandbox.Server.Snapshots.{bring_up_clone, process_started, start_clone, start_process}
use web_sandbox.Server.Snapshots.Isolation.{resumed, set_up, set_up-Stays}
use web_sandbox.Common.{
  Bool, Ends, Ends-bind, Ends-err, Ends-mono, Ends-ok, List, String, [], contains, refl, true, ◌+◌,
  ◌>>◌, ◌∷◌, ◌≡◌, Option, arith, beq_refl, false, ℕ, ◌==◌, ◌||◌, Eq-String, ap, subst, sym, ◌∙◌,
}

module _ {own : Held → Bool} {may must : List Held} {before : Host} {c : Conn} where
  process_started-Ends :
      (id : String) (o : Outcome) (s : Host)
      → own (process id) ≡ true
      → Track own may must before c s
      → Ends
          (λ _ s'. Track own (process id ∷ may) (process id ∷ must) before c s')
          (λ _ s'. Track own may [] before c s')
          (process_started id o s)
  process_started-Ends id done s o t = Ends-ok _ _ (hold-Track (process id) s o t)
  process_started-Ends id refused s o t = Ends-err _ _ (Track-weaken _ _ _ (λ x q. q) (λ x q. q) t)
  process_started-Ends id broken s o t = Ends-err _ _ (Track-weaken _ _ _ (λ x q. q) (λ x q. q) t)

  attempt_then-Ends :
      (m : Act (Unit {0})) (s : Host)
      → ((s' : Host)
          → Track own may must before c s'
          → Ends
              (λ _ t. Track own may must before c t)
              (λ _ t. Track own may must before c t)
              (m s'))
      → Track own may must before c s
      → Ends
          (λ _ t. Track own may must before c t)
          (λ _ t. Track own may must before c t)
          ((attempt >> m) s)
  attempt_then-Ends m s k t =
      Ends-bind attempt (λ _. m) s
        (Ends-mono _ _ _ _ _ (attempt-Ends s t) (λ _ _ h. k (attempt s).1 h.0) (λ _ _ h. h.0))

module _ {own : Held → Bool} {may must : List Held} {before : Host} {c : Conn} where
  five_attempts-Ends :
      (s : Host)
      → Track own may must before c s
      → Ends
          (λ _ t. Track own may must before c t)
          (λ _ t. Track own may must before c t)
          ((do attempt; attempt; attempt; attempt; attempt) s)
  five_attempts-Ends s h =
      attempt_then-Ends (do attempt; attempt; attempt; attempt) s
        (λ s₁ h₁.
          attempt_then-Ends (do attempt; attempt; attempt) s₁
            (λ s₂ h₂.
              attempt_then-Ends (do attempt; attempt) s₂
                (λ s₃ h₃.
                  attempt_then-Ends attempt s₃
                    (λ s₄ h₄.
                      Ends-mono _ _ _ _ _ (attempt-Ends s₄ h₄) (λ _ _ k. k.0) (λ _ _ k. k.0))
                    h₃)
                h₂)
            h₁)
        h

module _ {own : Held → Bool} {may must : List Held} {before : Host} {c : Conn} where
  start_clone-Ends :
      (id : String) (s : Host)
      → own (process id) ≡ true
      → Track own may must before c s
      → Ends
          (λ _ s'. Track own (process id ∷ may) (process id ∷ must) before c s')
          (λ _ s'. Track own may [] before c s')
          (start_clone id s)
  unfolding start_clone start_process contains
  start_clone-Ends id s o t = Ends-bind (start_process id) _ s (
      Ends-mono _ _ _ _ _
        (process_started-Ends id (s.outcomes s.acts) (record s { acts = s.acts + 1 }) o
          (Track-same s _ refl refl t))
        (λ _ _ h.
          on_error-Ends _ _ (do attempt; attempt; attempt; attempt; attempt) (release (process id))
            _ (five_attempts-Ends _ h) (λ _ s' k. release-Track (process id) may s' o (λ x q. q) k))
        (λ _ _ h. h))

module _ (cfg : Settings) (id : String) (sb : Sandbox) (before : Host) (c : Conn)
    (v : IsConsistent c.db) where
  rolled_back :
      (may must : List Held) (s : Host)
      → ((h : Held)
          → contains may h ≡ true
          → (tap sb.tap_device == h || (disk sb.rootfs_path == h || contains [] h)) ≡ true)
      → Track (owns id sb) may must before c s
      → Left (owns id sb) [] before (rollback_pre_vm id sb s)
  rolled_back may must s m t =
      rollback_pre_vm-Left cfg.pools v id sb [] s (beq_refl sb.tap_device) (beq_refl sb.rootfs_path)
        m t

  set_up-Ends :
      (s : Host)
      → Track (owns id sb) [] [] before c s
      → Ends
          (λ sb' s'. (sb' ≡ sb) × Track (owns id sb) (resumed id sb) (resumed id sb) before c s')
          (λ _ s'. Left (owns id sb) [] before s')
          (set_up cfg id sb s)
  unfolding contains
  set_up-Ends s t =
      step-Ends _ _ (acquire (disk sb.rootfs_path)) (rollback_pre_vm id sb) _ s
        (acquire-Ends (disk sb.rootfs_path) s (beq_refl sb.rootfs_path) t)
        (λ _ s₁ h₁.
          step-Ends _ _ (create_tap_unbridged sb.tap_device) (rollback_pre_vm id sb) _ s₁
            (create_tap_unbridged-Ends sb.tap_device s₁ (beq_refl sb.tap_device) h₁)
            (λ _ s₂ h₂.
              step-Ends _ _ (start_clone id) (rollback_pre_vm id sb) _ s₂
                (start_clone-Ends id s₂ (beq_refl id) h₂) (λ _ s₃ h₃. Ends-ok _ _ (refl, h₃))
                (λ _ s₃ h. rolled_back _ _ s₃ (λ x k. ground arith) h))
            (λ _ s₂ h. rolled_back _ _ s₂ (λ x k. ground arith) h))
        (λ _ s₁ h. rolled_back _ _ s₁ (λ x k. ground arith) h)

-- A clone has been resumed: it is standing with its process, tap and disk.
pub record Resumed (cfg : Settings) (id : String) (before : Host) (sb : Sandbox) (s : Host)
    : Type 0 where
  pub path : sb.rootfs_path ≡ rootfs_path cfg.system cfg.paths id
  pub standing : Standing id sb (resumed id sb) s
  pub spares : Spares id (rootfs_path cfg.system cfg.paths id) before s

-- A clone that could not be resumed has left no process.
pub record NotResumed (cfg : Settings) (id : String) (before s : Host) : Type 0 where
  pub stopped : holds (process id) before ≡ false → holds (process id) s ≡ false
  pub spares : Spares id (rootfs_path cfg.system cfg.paths id) before s

create-Rowed_alone :
    (cfg : Settings) (id path : String) (expires_at : Option ℕ) (now : ℕ) (c : Conn)
    → IsConsistent c.db
    → Ends
        (λ sb c'. (sb.rootfs_path ≡ path) × Rowed id sb c' × Concerns id c c')
        (λ _ c'. c'.db ≡ c.db)
        (create cfg.pools id path expires_at now c)
create-Rowed_alone cfg id path expires_at now c v =
    Ends-mono _ _ _ _ _ (create-Rowed cfg id path expires_at now c v)
      (λ _ _ h. (h.0.0, h.1, create-Concerns cfg.pools id path expires_at now c)) (λ _ _ h. h.1)

pub bring_up_clone-Ends :
    (cfg : Settings) (id : String) (expires_at : Option ℕ) (now : ℕ) (s : Host)
    → IsConsistent s.conn.db
    → Ends
        (Resumed cfg id s)
        (λ _ s'. NotResumed cfg id s s')
        (bring_up_clone cfg id expires_at now s)
unfolding bring_up_clone contains
bring_up_clone-Ends cfg id expires_at now s v =
    let path : String = rootfs_path cfg.system cfg.paths id in
    Ends-bind (registry 500 (create cfg.pools id path expires_at now)) _ s (
      registry-Ends _ _ 500 (create cfg.pools id path expires_at now) s
        (create-Rowed_alone cfg id path expires_at now s.conn v)
        (λ sb c h.
          let s₁ : Host = record s { conn = c } in
          let moved : Elsewhere (owns id sb) id s s₁ = record {
            frame = λ _ _. refl;
            rows = h.2.rows;
            tracks = λ _ _. refl;
            consistent = h.2.consistent;
          } in
          let spared : Spares id path s (set_up cfg id sb s₁).1 =
            Elsewhere-Spares id sb path s _ c v h.0 h.1 h.2
              (Elsewhere-trans _ _ s s₁ _ moved ((set_up-Stays cfg id sb).stays s₁)) in
          Ends-mono _ _ _ _ _
            (set_up-Ends cfg id sb s c h.1.0 s₁ (Track-held s _ refl (Track-start (owns id sb) s)))
            (λ sb' _ k.
              subst (λ b. Resumed cfg id s b (set_up cfg id sb s₁).1) (sym k.0)
                (record {
                  path = h.0;
                  standing = record {
                    row = h.1.1.0;
                    found = ap (λ q. find_sandbox id q.db) k.1.conn_is ∙ h.1.1.1;
                    named = h.1.1.2;
                    has = k.1.has;
                  };
                  spares = spared;
                }))
            (λ _ _ k. record {
              stopped = λ n. ground (arith, k.1.within (process id));
              spares = spared;
            }))
        (λ _ c h. record { stopped = λ n. n; spares = Spares-nothing id path s _ refl h refl v }))
