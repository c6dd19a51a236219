-- ===== src/Server/Snapshots/Phases.antt =====
-- internal/server/snapshot.go: the second phase of handleFanout.
use web_sandbox.Registry.Invariant.{IsConsistent}
use web_sandbox.Registry.Types.{Sandbox}
use web_sandbox.Provisioner.Disks.{rootfs_path}
use web_sandbox.Server.Host.{Host, Settings, Eq-Held}
use web_sandbox.Server.Sandboxes.Standing.{Standing, IsOwned, possessions-IsOwned, fresh_head}
use web_sandbox.Server.Sandboxes.Spares.{Spares}
use web_sandbox.Server.Snapshots.{finish_all, finish_clone, finished_or_destroyed}
use web_sandbox.Server.Snapshots.Isolation.{resumed}
use web_sandbox.Server.Snapshots.Finishing.{Live, IsTracked, Settled, finish_clone-Settled}
use web_sandbox.Server.Snapshots.Sparing.{
  SparesAll, SparesAll-nil, SparesAll-cons, HasOwnPaths, paths_of, contains-paths_of, Live-spared,
  IsTracked-spared,
}
use web_sandbox.Common.{
  All, List, String, [], arith, contains, false, map, subst, sym, true, ◌==◌, ◌∷◌, ◌≡◌, Eq-String,
  Bool-cases, Distinct, beq_refl, eq_iff, inl, inr, ◌++◌, Distinct-tail,
}

abbrev pub ids_of : List (String × Sandbox) → List String
ids_of = map (λ c. c.0)

pub resumed-IsOwned : (cfg : Settings) (id : String) (sb : Sandbox) → IsOwned id sb (resumed id sb)
unfolding contains
resumed-IsOwned cfg id sb h k = possessions-IsOwned cfg id sb h (ground arith)

-- A clone whose disk is at its path, standing with what bringUpClone has taken.
pub record IsUp (cfg : Settings) (s : Host) (c : String × Sandbox) : Type 0 where
  pub path : c.1.rootfs_path ≡ rootfs_path cfg.system cfg.paths c.0
  pub standing : Standing c.0 c.1 (resumed c.0 c.1) s

module _ (cfg : Settings) (inj : HasOwnPaths cfg) where
  pub IsUp-spared :
      (id : String) (s s' : Host) (c : String × Sandbox)
      → Spares id (rootfs_path cfg.system cfg.paths id) s s'
      → (c.0 == id) ≡ false
      → IsUp cfg s c
      → IsUp cfg s' c
  IsUp-spared id s s' (other, sb) a n u = record {
    path = u.path;
    standing =
        a.spared other sb (resumed other sb) n
          (subst (λ p. (p == rootfs_path cfg.system cfg.paths id) ≡ false) (sym u.path)
            (inj other id n))
          (resumed-IsOwned cfg other sb) u.standing;
  }

  spared_clones :
      (id : String) (s s' : Host) (cs : List (String × Sandbox))
      → Spares id (rootfs_path cfg.system cfg.paths id) s s'
      → contains (ids_of cs) id ≡ false
      → All (IsUp cfg s) cs
      → All (IsUp cfg s') cs
  unfolding contains
  spared_clones id s s' [] a n u = tt
  spared_clones id s s' (c ∷ cs) a n u =
      (IsUp-spared id s s' c a (ground arith) u.0, spared_clones id s s' cs a (ground arith) u.1)

  -- The sandboxes that are answered are live, under ids of the list.
  abbrev pub AllLive : List String → Host → List Sandbox → Type 0
  AllLive ids s = All (λ b. (i : String) × (contains ids i ≡ true) × Live cfg i b s)

  -- Phase 2.
  pub record Finished (cs : List (String × Sandbox)) (s : Host) (r : List Sandbox × Host)
      : Type 0 where
    pub spares : SparesAll (ids_of cs) (paths_of cfg (ids_of cs)) s r.1
    pub accounted : (i : String) → contains (ids_of cs) i ≡ true → IsTracked i r.1
    pub live : AllLive (ids_of cs) r.1 r.0

  wider :
      (id : String) (ids : List String) (s : Host) (bs : List Sandbox)
      → AllLive ids s bs
      → AllLive (id ∷ ids) s bs
  unfolding contains
  wider id ids s [] h = tt
  wider id ids s (b ∷ bs) h = ((h.0.0, ground arith, h.0.2), wider id ids s bs h.1)

  answered_first :
      (id : String) (ids paths : List String) (sb : Sandbox) (s s' : Host) (bs cs : List Sandbox)
      → SparesAll ids paths s s'
      → contains ids id ≡ false
      → contains paths sb.rootfs_path ≡ false
      → All (λ b. (b ≡ sb) × Live cfg id sb s) bs
      → AllLive ids s' cs
      → AllLive (id ∷ ids) s' (bs ++ cs)
  unfolding contains
  answered_first id ids paths sb s s' [] cs a n p h k = wider id ids s' cs k
  answered_first id ids paths sb s s' (b ∷ bs) cs a n p h k = (
    (
      id,
      ground (arith, beq_refl id),
      subst (λ x. Live cfg id x s') (sym h.0.0) (Live-spared a cfg id sb n p h.0.1),
    ),
    answered_first id ids paths sb s s' bs cs a n p h.1 k,
  )

  pub finish_all-Finished :
      (cs : List (String × Sandbox)) (s : Host)
      → IsConsistent s.conn.db
      → Distinct (ids_of cs)
      → All (IsUp cfg s) cs
      → Finished cs s (finish_all cfg cs s)
  unfolding finish_all contains
  finish_all-Finished [] s v d u = record {
    spares = SparesAll-nil s v;
    accounted = λ i k. cc;
    live = tt;
  }
  finish_all-Finished ((id, sb) ∷ cs) s v d u =
      let first = finished_or_destroyed cfg id sb (finish_clone cfg id sb s) in
      let one : Settled cfg id sb s first =
        finish_clone-Settled cfg id sb s v u.0.path u.0.standing in
      let n : contains (ids_of cs) id ≡ false = fresh_head id (ids_of cs) d in
      let rest : Finished cs first.1 (finish_all cfg cs first.1) =
        finish_all-Finished cs first.1 one.spares.consistent (Distinct-tail id (ids_of cs) d)
          (spared_clones id s first.1 cs one.spares n u.1) in
      record {
        spares =
            SparesAll-cons id (rootfs_path cfg.system cfg.paths id) (ids_of cs)
              (paths_of cfg (ids_of cs)) s first.1 _ one.spares rest.spares;
        accounted = λ i k. elim (Bool-cases (contains (ids_of cs) i)) [
          | inl later ↦ rest.accounted i later
          | inr not_later ↦
              let same : id ≡ i = (eq_iff id i).0 (ground arith) in
              subst (λ j. IsTracked j (finish_all cfg cs first.1).1) same
                (IsTracked-spared rest.spares id n one.accounted)
        ];
        live =
            answered_first id (ids_of cs) (paths_of cfg (ids_of cs)) sb first.1 _ first.0 _
              rest.spares n
              (subst (λ p. contains (paths_of cfg (ids_of cs)) p ≡ false) (sym u.0.path)
                (contains-paths_of cfg id (ids_of cs) inj n))
              one.answered rest.live;
      }
