-- ===== src/Server/Snapshots/Fanout.antt =====
-- internal/server/snapshot.go: what handleFanout leaves, however it ends.
use web_sandbox.Registry.Engine.{find_sandbox}
use web_sandbox.Registry.Invariant.{IsConsistent}
use web_sandbox.Registry.Ops.{get_snapshot}
use web_sandbox.Registry.Types.{Sandbox, Snapshot, SnapshotRow, scan_snapshot}
use web_sandbox.Provisioner.Disks.{rootfs_path}
use web_sandbox.Server.Host.{Host, Settings, Eq-Held, holds, process, disk, acquire, registry}
use web_sandbox.Server.Host.Rules.{registry-Ends}
use web_sandbox.Server.Sandboxes.{expiry_of}
use web_sandbox.Server.Sandboxes.Creating.{is_disk}
use web_sandbox.Server.Sandboxes.Elsewhere.{Stays-acquire}
use web_sandbox.Server.Snapshots.{live_or_fail, fan_out, handle_fanout}
use web_sandbox.Server.Snapshots.Sparing.{
  SparesAll, SparesAll-nil, HasOwnPaths, paths_of, IsTracked-spared, SparesAll-trans,
}
use web_sandbox.Server.Snapshots.Restoring.{get_snapshot-finds}
use web_sandbox.Server.Snapshots.Phases.{AllLive}
use web_sandbox.Server.Snapshots.FanningOut.{
  FannedOut, staging, phases-FannedOut, disk-SparesAll, taken-conn, staging-apart,
}
use web_sandbox.Common.{
  Bool, Distinct, Ends, Ends-bind, Ends-err, Ends-mono, Ends-ok, List, Option, String, [], beq_refl,
  contains, false, if◌then◌else◌, length, pure, true, ℕ, ◌++◌, ◌+◌, ◌∷◌, ◌≡◌, ◌≤◌, Ends-always,
  Eq-String, ap, arith, find, inl, none, refl, some, subst, sym, ◌==◌, ◌∙◌, ◌⊎◌, ℤ, negsuc, pos,
  Ends-lift, fail, inr, lift, ltb,
}

-- The sandboxes of an answer are live, and there is one.
abbrev pub SomeLive :
    (cfg : Settings) → HasOwnPaths cfg → List String → Host → List Sandbox → Type 0
SomeLive cfg inj ids s live = (1 ≤ length live) × AllLive cfg inj ids s live

read-SparesAll :
    (s s' : Host)
    → IsConsistent s.conn.db
    → s'.conn.db ≡ s.conn.db
    → s'.held ≡ s.held
    → s'.machines ≡ s.machines
    → SparesAll [] [] s s'
read-SparesAll s s' v e f g = record {
  consistent = subst IsConsistent (sym e) v;
  spared = λ other sb xs _ _ _ up. record {
    row = up.row;
    found = ap (find_sandbox other) e ∙ up.found;
    named = up.named;
    has = λ h k. ap (λ l. contains l h) f ∙ up.has h k;
  };
  tracks = λ other _. ap (λ l. contains l other) g;
  processes = λ other _. ap (λ l. contains l (process other)) f;
}

-- A fan-out from a state in which only the tables were read.
read-FannedOut :
    (ids paths : List String) (s s₁ s₂ : Host)
    → SparesAll [] [] s s₁
    → FannedOut ids paths s₁ s₂
    → FannedOut ids paths s s₂
unfolding contains
read-FannedOut ids paths s s₁ s₂ a h = record {
  spares =
      SparesAll-trans [] ids ids [] paths paths s s₁ s₂ (λ i n. (refl, n)) (λ p n. (refl, n)) a
        h.spares;
  accounted = λ t i. h.accounted (λ j. IsTracked-spared a j refl (t j)) i;
}

-- The ids of the clones that the body asks for.
abbrev pub asked : (ℕ → List String) → Option (ℤ × ℤ) → List String
asked ids none = []
asked ids (some (negsuc k, limit)) = []
asked ids (some (pos n, limit)) = ids n

-- What a fan-out of a snapshot leaves, whose row it has found.
pub record OfSnapshot (cfg : Settings) (staged : Bool) (ids : List String) (snap_id : String)
    (s s' : Host) : Type 0 where
  pub row : SnapshotRow
  pub found : find (λ q. q.id == snap_id) s.conn.db.snapshots ≡ some row
  pub fanned : FannedOut ids (staging staged row.source_rootfs_path ++ paths_of cfg ids) s s'

-- Nothing is done.
abbrev pub Untouched : Host → Host → Type 0
Untouched s s' = (s'.conn.db ≡ s.conn.db) × (s'.held ≡ s.held) × (s'.machines ≡ s.machines)

module _ (cfg : Settings) (inj : HasOwnPaths cfg) where
  answered :
      (ids paths : List String) (s s' : Host) (live : List Sandbox)
      → FannedOut ids paths s s'
      → AllLive cfg inj ids s' live
      → Ends
          (λ bs t. FannedOut ids paths s t × SomeLive cfg inj ids t bs)
          (λ _ t. FannedOut ids paths s t)
          (live_or_fail live, s')
  answered ids paths s s' [] h k = Ends-err _ _ h
  answered ids paths s s' (b ∷ bs) h k = Ends-ok _ _ (h, (omega arith, k))

  acquired-Ends :
      (path : String) (s : Host)
      → IsConsistent s.conn.db
      → Ends
          (λ _ s'. SparesAll [] (path ∷ []) s s')
          (λ _ s'. SparesAll [] (path ∷ []) s s')
          (acquire (disk path) s)
  unfolding acquire
  acquired-Ends path s v =
      Ends-always (λ s'. SparesAll [] (path ∷ []) s s') _
        (let same = taken-conn (disk path) (s.outcomes s.acts) (record s { acts = s.acts + 1 }) in
          disk-SparesAll path s _ v same.0 same.1
            ((Stays-acquire (is_disk path) path (disk path) (beq_refl path)).stays s).frame)

  staged-Ends :
      (staged : Bool) (path : String) (s : Host)
      → IsConsistent s.conn.db
      → Ends
          (λ _ s'. SparesAll [] (staging staged path) s s')
          (λ _ s'. SparesAll [] (staging staged path) s s')
          ((if staged then pure tt else acquire (disk path)) s)
  staged-Ends true path s v = Ends-ok _ _ (SparesAll-nil s v)
  staged-Ends false path s v = acquired-Ends path s v

  fan_out-FannedOut :
      (staged : Bool) (snap : Snapshot) (expires_at : Option ℕ) (now : ℕ) (ids : List String)
      (s : Host)
      → IsConsistent s.conn.db
      → Distinct ids
      → ((i : String) → contains ids i ≡ true → holds (process i) s ≡ false)
      → ((i : String)
          → contains ids i ≡ true
          → contains (staging staged snap.source_rootfs_path) (rootfs_path cfg.system cfg.paths i)
            ≡ false)
      → Ends
          (λ bs t.
            FannedOut ids (staging staged snap.source_rootfs_path ++ paths_of cfg ids) s t
            × SomeLive cfg inj ids t bs)
          (λ _ t. FannedOut ids (staging staged snap.source_rootfs_path ++ paths_of cfg ids) s t)
          (fan_out cfg staged snap expires_at now ids s)
  unfolding fan_out contains
  fan_out-FannedOut staged snap expires_at now ids s v d fresh away =
      Ends-bind (if staged then pure tt else acquire (disk snap.source_rootfs_path)) _ s (
        Ends-mono _ _ _ _ _ (staged-Ends staged snap.source_rootfs_path s v)
          (λ _ e a.
            let h =
              phases-FannedOut cfg inj staged snap.source_rootfs_path expires_at now ids s _ v d
                fresh away a in
            answered ids _ s _ _ h.0 h.1)
          (λ _ _ a. record {
            spares =
                SparesAll-trans [] [] ids (staging staged snap.source_rootfs_path) [] _ s _ _
                  (λ i n. (refl, refl))
                  (λ p n.
                    ((staging-apart staged snap.source_rootfs_path (paths_of cfg ids) p n).0, refl))
                  a (SparesAll-nil _ a.consistent);
            accounted = λ t i. IsTracked-spared a i refl (t i);
          }))

  -- The check of the count.
  checked-Ends :
      (b : Bool) (s : Host)
      → Ends {S = Host} {E = ℕ} {A = Unit {0}}
          (λ _ t. t ≡ s)
          (λ _ t. t ≡ s)
          ((if b then fail 400 else pure tt) s)
  checked-Ends true s = Ends-err _ _ refl
  checked-Ends false s = Ends-ok _ _ refl

  -- From consistent tables, if the ids of the clones differ and no process runs under them, no two
  -- sandboxes have the same disk path, and no clone has the path that is staged, a fan-out answers only
  -- with clones that are live, at least one: each is in the table of machines, has its row and holds
  -- its disk, its tap, the rules of its port and its process. Whether it succeeds or fails, either
  -- nothing has changed, or the tables are consistent, every other sandbox that was standing, with its
  -- disk elsewhere, stands with all it held, and no process is lost: if every process was in the table
  -- of machines, every one is.
  pub handle_fanout-FannedOut :
      (staged : Bool) (ids : ℕ → List String) (snap_id : String) (now : ℕ) (body : Option (ℤ × ℤ))
      (s : Host)
      → IsConsistent s.conn.db
      → Distinct (asked ids body)
      → ((i : String) → contains (asked ids body) i ≡ true → holds (process i) s ≡ false)
      → ((i : String) (r : SnapshotRow)
          → contains (asked ids body) i ≡ true
          → find (λ q. q.id == snap_id) s.conn.db.snapshots ≡ some r
          → contains (staging staged r.source_rootfs_path) (rootfs_path cfg.system cfg.paths i)
            ≡ false)
      → Ends
          (λ bs t.
            OfSnapshot cfg staged (asked ids body) snap_id s t
            × SomeLive cfg inj (asked ids body) t bs)
          (λ _ t. Untouched s t ⊎ OfSnapshot cfg staged (asked ids body) snap_id s t)
          (handle_fanout cfg staged ids snap_id now body s)
  unfolding handle_fanout scan_snapshot
  handle_fanout-FannedOut staged ids snap_id now none s v d fresh away =
      Ends-bind (registry 404 (get_snapshot snap_id)) _ s (
        registry-Ends _ _ 404 (get_snapshot snap_id) s (get_snapshot-finds snap_id s.conn)
          (λ snap c h. Ends-err _ _ (inl (h.3, refl, refl))) (λ _ c h. inl (h, refl, refl)))
  handle_fanout-FannedOut staged ids snap_id now (some (negsuc k, limit)) s v d fresh away =
      Ends-bind (registry 404 (get_snapshot snap_id)) _ s (
        registry-Ends _ _ 404 (get_snapshot snap_id) s (get_snapshot-finds snap_id s.conn)
          (λ snap c h. Ends-err _ _ (inl (h.3, refl, refl))) (λ _ c h. inl (h, refl, refl)))
  handle_fanout-FannedOut staged ids snap_id now (some (pos n, limit)) s v d fresh away =
      Ends-bind (registry 404 (get_snapshot snap_id)) _ s (
        registry-Ends _ _ 404 (get_snapshot snap_id) s (get_snapshot-finds snap_id s.conn)
          (λ snap c h. rw h.2 (
            let s₁ : Host = record s { conn = c } in
            let a : SparesAll [] [] s s₁ = read-SparesAll s s₁ v h.3 refl refl in
            Ends-bind (if ltb n 1 then fail 400 else pure tt) _ s₁ (
              Ends-mono _ _ _ _ _ (checked-Ends (ltb n 1) s₁)
                (λ _ _ e. rw e (
                  Ends-bind (lift (expiry_of now (some limit))) _ s₁ (
                    Ends-lift _ _
                      (λ expires_at _.
                        Ends-mono _ _ _ _ _
                          (fan_out-FannedOut staged (scan_snapshot h.0) expires_at now (ids n) s₁
                            a.consistent d fresh (λ i k. away i h.0 k h.1))
                          (λ _ _ k. (
                            record {
                              row = h.0;
                              found = h.1;
                              fanned = read-FannedOut (ids n) _ s s₁ _ a k.0;
                            },
                            k.1,
                          ))
                          (λ _ _ k. inr (record {
                            row = h.0;
                            found = h.1;
                            fanned = read-FannedOut (ids n) _ s s₁ _ a k;
                          })))
                      (λ _ _. inl (h.3, refl, refl)))))
                (λ _ _ e. rw e (inl (h.3, refl, refl))))))
          (λ _ c h. inl (h, refl, refl)))
