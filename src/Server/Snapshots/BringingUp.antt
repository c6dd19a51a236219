-- ===== src/Server/Snapshots/BringingUp.antt =====
-- internal/server/snapshot.go: the first phase of handleFanout.
use web_sandbox.Registry.Invariant.{IsConsistent}
use web_sandbox.Registry.Types.{Sandbox}
use web_sandbox.Server.Host.{Host, Settings, Eq-Held, holds, process}
use web_sandbox.Server.Sandboxes.Standing.{fresh_head}
use web_sandbox.Server.Snapshots.{bring_up_all, bring_up_clone, brought_up}
use mathlib.Core.Bool.{true}
use web_sandbox.Server.Snapshots.Resuming.{Resumed, NotResumed, bring_up_clone-Ends}
use web_sandbox.Server.Snapshots.Sparing.{
  SparesAll, SparesAll-nil, SparesAll-cons, HasOwnPaths, paths_of, contains-paths_of,
}
use web_sandbox.Server.Snapshots.Phases.{IsUp, ids_of, resumed-IsOwned}
use web_sandbox.Common.{
  All, Bool-cases, Distinct, Distinct-cons, Distinct-nil, EndsAt, List, Option, Result, String, [],
  arith, contains, eq_iff, err, false, inl, inr, ok, subst, sym, true, ℕ, ◌==◌, ◌∙◌, ◌∷◌, ◌≡◌,
  Eq-String, Ends-mono, Ends-either, Distinct-tail,
}

-- After the first phase: the clones that are up have different ids of the list, and those that are not
-- have no process.
pub record BroughtUp (cfg : Settings) (ids : List String) (s : Host)
    (r : List (String × Sandbox) × Host) : Type 0 where
  pub spares : SparesAll ids (paths_of cfg ids) s r.1
  pub up : All (IsUp cfg r.1) r.0
  pub listed : (i : String) → contains (ids_of r.0) i ≡ true → contains ids i ≡ true
  pub distinct : Distinct (ids_of r.0)
  pub resting :
      (i : String)
      → contains ids i ≡ true
      → contains (ids_of r.0) i ≡ false
      → holds (process i) s ≡ false
      → holds (process i) r.1 ≡ false

module _ (cfg : Settings) (inj : HasOwnPaths cfg) where
  BroughtUp-cons :
      (id : String) (ids : List String) (s s₁ : Host) (r : Result ℕ Sandbox)
      (rest : List (String × Sandbox) × Host)
      → contains ids id ≡ false
      → EndsAt (Resumed cfg id s) (λ _ s'. NotResumed cfg id s s') (r, s₁)
      → BroughtUp cfg ids s₁ rest
      → BroughtUp cfg (id ∷ ids) s (brought_up id r rest.0, rest.1)
  unfolding contains
  BroughtUp-cons id ids s s₁ (ok sb) rest n h b =
      let absent : contains (ids_of rest.0) id ≡ false = ground (arith, b.listed id) in
      record {
        spares = SparesAll-cons id _ ids _ s s₁ _ h.spares b.spares;
        up = (
          record {
            path = h.path;
            standing =
                b.spares.spared id sb _ n
                  (subst (λ p. contains (paths_of cfg ids) p ≡ false) (sym h.path)
                    (contains-paths_of cfg id ids inj n))
                  (resumed-IsOwned cfg id sb) h.standing;
          },
          b.up,
        );
        listed = λ i k. ground (arith, b.listed i);
        distinct = Distinct-cons id (ids_of rest.0) absent b.distinct;
        resting = λ i k m z.
            let other : (i == id) ≡ false = ground (arith, eq_iff i id, eq_iff id i) in
            b.resting i (ground arith) (ground arith) (h.spares.processes i other ∙ z);
      }
  BroughtUp-cons id ids s s₁ (err e) rest n h b = record {
    spares = SparesAll-cons id _ ids _ s s₁ _ h.spares b.spares;
    up = b.up;
    listed = λ i k. ground (arith, b.listed i);
    distinct = b.distinct;
    resting = λ i k m z. elim (Bool-cases (i == id)) [
      | inl same ↦
          let e' : id ≡ i = sym ((eq_iff i id).0 same) in
          subst (λ j. holds (process j) rest.1 ≡ false) e'
            (b.spares.processes id n
              ∙ h.stopped (subst (λ j. holds (process j) s ≡ false) (sym e') z))
      | inr other ↦
          b.resting i (ground (arith, eq_iff i id, eq_iff id i)) m (h.spares.processes i other ∙ z)
    ];
  }

  pub bring_up_all-BroughtUp :
      (expires_at : Option ℕ) (now : ℕ) (ids : List String) (s : Host)
      → IsConsistent s.conn.db
      → Distinct ids
      → BroughtUp cfg ids s (bring_up_all cfg expires_at now ids s)
  unfolding bring_up_all contains
  bring_up_all-BroughtUp expires_at now [] s v d = record {
    spares = SparesAll-nil s v;
    up = tt;
    listed = λ i k. k;
    distinct = Distinct-nil;
    resting = λ i k m z. z;
  }
  bring_up_all-BroughtUp expires_at now (id ∷ ids) s v d =
      let first = bring_up_clone cfg id expires_at now s in
      let one = bring_up_clone-Ends cfg id expires_at now s v in
      let w : IsConsistent first.1.conn.db =
        Ends-either (λ s'. IsConsistent s'.conn.db) first
          (Ends-mono _ _ _ _ _ one (λ _ _ h. h.spares.consistent) (λ _ _ h. h.spares.consistent)) in
      BroughtUp-cons id ids s first.1 first.0 _ (fresh_head id ids d) one.at
        (bring_up_all-BroughtUp expires_at now ids first.1 w (Distinct-tail id ids d))
