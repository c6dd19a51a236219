-- ===== src/Server/Snapshots/Sparing.antt =====
-- internal/server/snapshot.go: the work for several clones spares every other sandbox.
use web_sandbox.Registry.Invariant.{IsConsistent}
use web_sandbox.Registry.Types.{Sandbox}
use web_sandbox.Provisioner.Disks.{rootfs_path}
use web_sandbox.Server.Host.{Host, Settings, process, Held, Eq-Held, holds}
use web_sandbox.Server.Sandboxes.Standing.{Standing, IsOwned, possessions-IsOwned}
use web_sandbox.Server.Sandboxes.Possessions.{possessions}
use web_sandbox.Server.Sandboxes.Spares.{Spares}
use mathlib.Core.Bool.{false≢true}
use web_sandbox.Server.Snapshots.Finishing.{Live, IsTracked}
use web_sandbox.Common.{
  List, String, [], arith, contains, eq_iff, false, map, refl, sym, ◌==◌, ◌∙◌, ◌∷◌, ◌≡◌, Eq-String,
  Bool-cases, ap, beq_refl, inl, inr, subst, true,
}

-- From `s` to `s'` something was done for the sandboxes `ids`, with disks at `paths`.
pub record SparesAll (ids paths : List String) (s s' : Host) : Type 0 where
  pub consistent : IsConsistent s'.conn.db
  pub spared :
      (other : String) (sb : Sandbox) (xs : List Held)
      → contains ids other ≡ false
      → contains paths sb.rootfs_path ≡ false
      → IsOwned other sb xs
      → Standing other sb xs s
      → Standing other sb xs s'
  pub tracks :
      (other : String)
      → contains ids other ≡ false
      → contains s'.machines other ≡ contains s.machines other
  pub processes :
      (other : String)
      → contains ids other ≡ false
      → holds (process other) s' ≡ holds (process other) s

pub SparesAll-nil : (s : Host) → IsConsistent s.conn.db → SparesAll [] [] s s
SparesAll-nil s v = record {
  consistent = v;
  spared = λ _ _ _ _ _ _ up. up;
  tracks = λ _ _. refl;
  processes = λ _ _. refl;
}

pub SparesAll-cons :
    (id path : String) (ids paths : List String) (s s₁ s₂ : Host)
    → Spares id path s s₁
    → SparesAll ids paths s₁ s₂
    → SparesAll (id ∷ ids) (path ∷ paths) s s₂
unfolding contains
SparesAll-cons id path ids paths s s₁ s₂ a b =
    let apart : (other : String)
        → contains (id ∷ ids) other ≡ false
        → ((other == id) ≡ false) × (contains ids other ≡ false) =
      λ other n. (ground (arith, eq_iff other id, eq_iff id other), ground arith) in
    record {
      consistent = b.consistent;
      spared = λ other sb xs n p o up. b.spared other sb xs (apart other n).1 (ground arith) o (
          a.spared other sb xs (apart other n).0
            (ground (arith, eq_iff sb.rootfs_path path, eq_iff path sb.rootfs_path)) o up);
      tracks = λ other n. b.tracks other (apart other n).1 ∙ a.tracks other (apart other n).0;
      processes =
          λ other n. b.processes other (apart other n).1 ∙ a.processes other (apart other n).0;
    }

-- One after the other, for sandboxes that are all among `ids`.
pub SparesAll-trans :
    (ids₁ ids₂ ids paths₁ paths₂ paths : List String) (s s₁ s₂ : Host)
    → ((i : String)
        → contains ids i ≡ false
        → (contains ids₁ i ≡ false) × (contains ids₂ i ≡ false))
    → ((p : String)
        → contains paths p ≡ false
        → (contains paths₁ p ≡ false) × (contains paths₂ p ≡ false))
    → SparesAll ids₁ paths₁ s s₁
    → SparesAll ids₂ paths₂ s₁ s₂
    → SparesAll ids paths s s₂
SparesAll-trans ids₁ ids₂ ids paths₁ paths₂ paths s s₁ s₂ m q a b = record {
  consistent = b.consistent;
  spared = λ other sb xs n p o up.
      b.spared other sb xs (m other n).1 (q sb.rootfs_path p).1 o
        (a.spared other sb xs (m other n).0 (q sb.rootfs_path p).0 o up);
  tracks = λ other n. b.tracks other (m other n).1 ∙ a.tracks other (m other n).0;
  processes = λ other n. b.processes other (m other n).1 ∙ a.processes other (m other n).0;
}

module _ {ids paths : List String} {s s' : Host} (a : SparesAll ids paths s s') where
  pub IsTracked-spared : (id : String) → contains ids id ≡ false → IsTracked id s → IsTracked id s'
  IsTracked-spared id n t k = a.tracks id n ∙ t (sym (a.processes id n) ∙ k)

  pub Live-spared :
      (cfg : Settings) (id : String) (sb : Sandbox)
      → contains ids id ≡ false
      → contains paths sb.rootfs_path ≡ false
      → Live cfg id sb s
      → Live cfg id sb s'
  Live-spared cfg id sb n p l = record {
    tracked = a.tracks id n ∙ l.tracked;
    standing =
        a.spared id sb (possessions cfg id sb) n p (possessions-IsOwned cfg id sb) l.standing;
  }

-- No two sandboxes have the same path.
abbrev pub HasOwnPaths : Settings → Type 0
HasOwnPaths cfg =
    (i j : String)
    → (i == j) ≡ false
    → (rootfs_path cfg.system cfg.paths i == rootfs_path cfg.system cfg.paths j) ≡ false

abbrev pub paths_of : Settings → List String → List String
paths_of cfg = map (rootfs_path cfg.system cfg.paths)

pub contains-paths_of :
    (cfg : Settings) (id : String) (ids : List String)
    → HasOwnPaths cfg
    → contains ids id ≡ false
    → contains (paths_of cfg ids) (rootfs_path cfg.system cfg.paths id) ≡ false
unfolding contains
contains-paths_of cfg id [] inj n = refl
contains-paths_of cfg id (i ∷ ids) inj n =
    ground (arith, inj i id, contains-paths_of cfg id ids inj)

module _ (cfg : Settings) where
  pub paths_of-listed :
      (id : String) (ids : List String)
      → contains ids id ≡ true
      → contains (paths_of cfg ids) (rootfs_path cfg.system cfg.paths id) ≡ true
  unfolding contains
  paths_of-listed id [] h = cc
  paths_of-listed id (i ∷ ids) h = elim (Bool-cases (id == i)) [
    | inl same ↦
        subst (λ j. contains (paths_of cfg (i ∷ ids)) (rootfs_path cfg.system cfg.paths j) ≡ true)
          (sym ((eq_iff id i).0 same))
          (ground (arith, beq_refl (rootfs_path cfg.system cfg.paths i)))
    | inr other ↦ ground (arith, paths_of-listed id ids, eq_iff id i, eq_iff i id)
  ]

  pub paths_of-within :
      (cs ids : List String) (p : String)
      → ((i : String) → contains cs i ≡ true → contains ids i ≡ true)
      → contains (paths_of cfg ids) p ≡ false
      → contains (paths_of cfg cs) p ≡ false
  unfolding contains
  paths_of-within [] ids p m n = refl
  paths_of-within (c ∷ cs) ids p m n =
      let head : contains (paths_of cfg ids) (rootfs_path cfg.system cfg.paths c) ≡ true =
        paths_of-listed c ids (m c (ground (arith, beq_refl c))) in
      let tail : contains (paths_of cfg cs) p ≡ false =
        paths_of-within cs ids p (λ i k. m i (ground arith)) n in
      elim (Bool-cases (rootfs_path cfg.system cfg.paths c == p)) [
        | inl same ↦ absurd (
            false≢true
              (sym n ∙ ap (contains (paths_of cfg ids)) (sym ((eq_iff _ p).0 same)) ∙ head))
        | inr other ↦ ground (
          arith,
          eq_iff p (rootfs_path cfg.system cfg.paths c),
          eq_iff (rootfs_path cfg.system cfg.paths c) p,
        )
      ]
