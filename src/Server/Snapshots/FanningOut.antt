-- ===== src/Server/Snapshots/FanningOut.antt =====
-- internal/server/snapshot.go: handleFanout, from its first phase to its answer.
use web_sandbox.Server.Snapshots.BringingUp.{BroughtUp, bring_up_all-BroughtUp}
use web_sandbox.Registry.Invariant.{IsConsistent}
use web_sandbox.Registry.Types.{Sandbox}
use web_sandbox.Provisioner.Disks.{rootfs_path}
use web_sandbox.Server.Host.{Host, Settings, Held, Eq-Held, holds, process, disk}
use web_sandbox.Server.Snapshots.{bring_up_all, finish_all, unstage}
use web_sandbox.Server.Host.{Outcome, done, refused, broken, taken, release, same_held_iff}
use web_sandbox.Registry.Engine.{find_sandbox}
use web_sandbox.Server.Sandboxes.Tracking.{owns}
use mathlib.Core.Bool.{false≢true, true}
use web_sandbox.Server.Snapshots.Isolation.{resumed}
use web_sandbox.Server.Snapshots.Finishing.{IsTracked}
use web_sandbox.Server.Snapshots.Sparing.{
  SparesAll, SparesAll-nil, SparesAll-trans, HasOwnPaths, paths_of, IsTracked-spared,
  paths_of-within,
}
use web_sandbox.Server.Snapshots.Phases.{
  IsUp, ids_of, AllLive, finish_all-Finished, resumed-IsOwned,
}
use web_sandbox.Common.{
  All, Bool-cases, Distinct, List, Option, String, [], arith, contains, false, inl, inr, subst, sym,
  true, ℕ, ◌==◌, ◌∙◌, ◌∷◌, ◌≡◌, Eq-String, Bool, ap, refl, beq_refl, ◌++◌,
}
use web_sandbox.Server.Host.Tracks.{contains-filter}
use web_sandbox.Cli.Serve.{not_started}

pub taken-conn :
    (x : Held) (o : Outcome) (s : Host)
    → ((taken x o s).1.conn ≡ s.conn) × ((taken x o s).1.machines ≡ s.machines)
unfolding taken
taken-conn x done s = (refl, refl)
taken-conn x refused s = (refl, refl)
taken-conn x broken s = (refl, refl)

-- Only the disk at `path` may have been taken or released.
pub disk-SparesAll :
    (path : String) (s s' : Host)
    → IsConsistent s.conn.db
    → s'.conn ≡ s.conn
    → s'.machines ≡ s.machines
    → ((h : Held) → (disk path == h) ≡ false → holds h s' ≡ holds h s)
    → SparesAll [] (path ∷ []) s s'
unfolding contains
disk-SparesAll path s s' v e f g = record {
  consistent = subst (λ c. IsConsistent c.db) (sym e) v;
  spared = λ other sb xs n p o up. record {
    row = up.row;
    found = ap (λ c. find_sandbox other c.db) e ∙ up.found;
    named = up.named;
    has = λ h k. elim (Bool-cases (disk path == h)) [
      | inl same ↦
          let mine : owns other sb (disk path) ≡ true =
            subst (λ x. owns other sb x ≡ true) (sym ((same_held_iff (disk path) h).0 same))
              (o h k) in
          absurd (false≢true (ground arith))
      | inr apart ↦ g h apart ∙ up.has h k
    ];
  };
  tracks = λ other _. ap (λ l. contains l other) f;
  processes = λ other _. g (process other) refl;
}

-- After a fan-out: everything that was standing besides its clones stands, and if the table of machines
-- had every process, it has.
pub record FannedOut (ids paths : List String) (s s' : Host) : Type 0 where
  pub spares : SparesAll ids paths s s'
  pub accounted : ((i : String) → IsTracked i s) → (i : String) → IsTracked i s'

-- The path whose disk a fan-out stages.
abbrev pub staging : Bool → String → List String
staging true path = []
staging false path = path ∷ []

released-SparesAll :
    (staged : Bool) (path : String) (s : Host)
    → IsConsistent s.conn.db
    → SparesAll [] (staging staged path) s (unstage staged path s)
unfolding contains release
released-SparesAll true path s v = SparesAll-nil s v
released-SparesAll false path s v =
    disk-SparesAll path s (release (disk path) s) v refl refl
      (λ h n. ground (arith, contains-filter (disk path) h s.held))

pub staging-apart :
    (staged : Bool) (path : String) (ps : List String) (p : String)
    → contains (staging staged path ++ ps) p ≡ false
    → (contains (staging staged path) p ≡ false) × (contains ps p ≡ false)
unfolding contains
staging-apart true path ps p n = (refl, n)
staging-apart false path ps p n = (ground arith, ground arith)

module _ (cfg : Settings) (inj : HasOwnPaths cfg) where
  -- The release of what was staged, between the phases.
  released_clones :
      (ids own : List String) (s s' : Host) (cs : List (String × Sandbox))
      → SparesAll [] own s s'
      → ((i : String)
          → contains ids i ≡ true
          → contains own (rootfs_path cfg.system cfg.paths i) ≡ false)
      → ((i : String) → contains (ids_of cs) i ≡ true → contains ids i ≡ true)
      → All (IsUp cfg s) cs
      → All (IsUp cfg s') cs
  unfolding contains
  released_clones ids own s s' [] a away m u = tt
  released_clones ids own s s' ((id, sb) ∷ cs) a away m u = (
    record {
      path = u.0.path;
      standing =
          a.spared id sb (resumed id sb) refl
            (subst (λ p. contains own p ≡ false) (sym u.0.path)
              (away id (m id (ground (arith, beq_refl id)))))
            (resumed-IsOwned cfg id sb) u.0.standing;
    },
    released_clones ids own s s' cs a away (λ i k. m i (ground arith)) u.1,
  )

  all_wider :
      (cs ids : List String) (s : Host) (bs : List Sandbox)
      → ((i : String) → contains cs i ≡ true → contains ids i ≡ true)
      → AllLive cfg inj cs s bs
      → AllLive cfg inj ids s bs
  all_wider cs ids s [] m h = tt
  all_wider cs ids s (b ∷ bs) m h = ((h.0.0, m h.0.0 h.0.1, h.0.2), all_wider cs ids s bs m h.1)

  pub phases-FannedOut :
      (staged : Bool) (path : String) (expires_at : Option ℕ) (now : ℕ) (ids : List String)
      (s s₀ : Host)
      → IsConsistent s.conn.db
      → Distinct ids
      → ((i : String) → contains ids i ≡ true → holds (process i) s ≡ false)
      → ((i : String)
          → contains ids i ≡ true
          → contains (staging staged path) (rootfs_path cfg.system cfg.paths i) ≡ false)
      → SparesAll [] (staging staged path) s s₀
      → let up = bring_up_all cfg expires_at now ids s₀ in
        let r = finish_all cfg up.0 (unstage staged path up.1) in
        FannedOut ids (staging staged path ++ paths_of cfg ids) s r.1 × AllLive cfg inj ids r.1 r.0
  unfolding contains
  phases-FannedOut staged path expires_at now ids s s₀ v d fresh away a =
      let up = bring_up_all cfg expires_at now ids s₀ in
      let b : BroughtUp cfg ids s₀ up =
        bring_up_all-BroughtUp cfg inj expires_at now ids s₀ a.consistent d in
      let c : SparesAll [] (staging staged path) up.1 (unstage staged path up.1) =
        released-SparesAll staged path up.1 b.spares.consistent in
      let f =
        finish_all-Finished cfg inj up.0 _ c.consistent b.distinct
          (released_clones ids (staging staged path) up.1 _ up.0 c away b.listed b.up) in
      let r = finish_all cfg up.0 (unstage staged path up.1) in
      let not_up : (i : String) → contains ids i ≡ false → contains (ids_of up.0) i ≡ false =
        λ i n. ground (arith, b.listed i) in
      let later : SparesAll ids (staging staged path ++ paths_of cfg ids) up.1 r.1 =
        SparesAll-trans [] (ids_of up.0) ids (staging staged path) (paths_of cfg (ids_of up.0))
          (staging staged path ++ paths_of cfg ids) up.1 _ _ (λ i n. (refl, not_up i n))
          (λ p n.
            let (o, q) = staging-apart staged path (paths_of cfg ids) p n in
            (o, paths_of-within cfg (ids_of up.0) ids p b.listed q))
          c f.spares in
      let spares : SparesAll ids (staging staged path ++ paths_of cfg ids) s r.1 =
        SparesAll-trans [] ids ids (staging staged path) (staging staged path ++ paths_of cfg ids)
          (staging staged path ++ paths_of cfg ids) s s₀ _ (λ i n. (refl, n))
          (λ p n. ((staging-apart staged path (paths_of cfg ids) p n).0, n)) a
          (SparesAll-trans ids ids ids (paths_of cfg ids) (staging staged path ++ paths_of cfg ids)
            (staging staged path ++ paths_of cfg ids) s₀ up.1 _ (λ i n. (n, n))
            (λ p n. ((staging-apart staged path (paths_of cfg ids) p n).1, n)) b.spares later) in
      (
        record {
          spares = spares;
          accounted = λ t i k. elim (Bool-cases (contains (ids_of up.0) i)) [
            | inl started ↦ f.accounted i started k
            | inr not_started ↦ elim (Bool-cases (contains ids i)) [
              | inl asked ↦
                  let rests : holds (process i) r.1 ≡ false =
                    f.spares.processes i not_started
                    ∙ c.processes i refl
                    ∙ b.resting i asked not_started (a.processes i refl ∙ fresh i asked) in
                  absurd (false≢true (sym rests ∙ k))
              | inr not_asked ↦ IsTracked-spared spares i not_asked (t i) k
            ]
          ];
        },
        all_wider (ids_of up.0) ids r.1 r.0 b.listed f.live,
      )
