-- ===== src/Server/Snapshots/Finishing.antt =====
-- internal/server/snapshot.go: finishClone, and the destruction of a clone that could not be finished.
use web_sandbox.Registry.Engine.{find_sandbox}
use web_sandbox.Registry.Invariant.{IsConsistent}
use web_sandbox.Registry.Types.{Sandbox, SandboxRow}
use web_sandbox.Registry.Ops.{finish_start}
use web_sandbox.Provisioner.Disks.{rootfs_path}
use web_sandbox.Server.Host.{
  Host, Settings, attempt, release, on_error, registry, process, Held, Eq-Held, holds,
}
use web_sandbox.Server.Host.Tracks.{Track, contains-filter, Releases}
use web_sandbox.Server.Sandboxes.Tracking.{torn_down, extra_rules}
use web_sandbox.Server.Host.Rules.{step-Ends, attempt-Ends, registry-Ends}
use web_sandbox.Server.Sandboxes.{add_port_forward, destroy_quietly, track}
use web_sandbox.Server.Sandboxes.Booting.{add_port_forward-Ends, finish_start-row}
use web_sandbox.Server.Sandboxes.Destroying.{TornDown, destroy_sandbox-TornDown}
use web_sandbox.Server.Sandboxes.Elsewhere.{Elsewhere, Elsewhere-trans}
use web_sandbox.Server.Sandboxes.Concerning.{destroy_quietly-Elsewhere, Concerns-same}
use web_sandbox.Server.Sandboxes.Standing.{Standing}
use web_sandbox.Server.Sandboxes.Spares.{Spares, Elsewhere-Spares}
use web_sandbox.Server.Sandboxes.Possessions.{
  Matches, Rowed, TornDown-Releases, contains-extra_rules, possessions,
}
use web_sandbox.Server.Sandboxes.Tracking.{owns, extra_rules}
use web_sandbox.Server.Snapshots.{finish_clone, finished_or_destroyed}
use web_sandbox.Server.Snapshots.Isolation.{resumed, finish_clone-Stays}
use web_sandbox.Common.{
  Ends, List, String, ap, arith, beq_refl, contains, refl, some, true, ◌∙◌, ◌≡◌, Eq-String,
  Bool-cases, Ends-bind, Ends-mono, Ends-ok, [], inl, inr, subst, sym, ◌>>◌, ◌∷◌, All, EndsAt,
  Result, err, ok, ℕ, Ends-either,
}

-- A sandbox that is in the table of machines and standing with all its possessions.
pub record Live (cfg : Settings) (id : String) (sb : Sandbox) (s : Host) : Type 0 where
  pub tracked : contains s.machines id ≡ true
  pub standing : Standing id sb (possessions cfg id sb) s

-- If the process of a sandbox runs, the table of machines has it.
abbrev pub IsTracked : String → Host → Type 0
IsTracked id s = holds (process id) s ≡ true → contains s.machines id ≡ true

-- What is left of a clone that could not be finished, before it is destroyed.
pub record Unfinished (id : String) (sb : Sandbox) (s : Host) : Type 0 where
  pub row : SandboxRow
  pub found : find_sandbox id s.conn.db ≡ some row
  pub named : Matches sb row
  pub accounted : IsTracked id s

module _ (cfg : Settings) (id : String) (sb : Sandbox) where
  stopped :
      (r : SandboxRow) (s : Host)
      → find_sandbox id s.conn.db ≡ some r
      → Matches sb r
      → Unfinished id sb (release (process id) s)
  unfolding release contains
  stopped r s found m = record {
    row = r;
    found = found;
    named = m;
    accounted = λ k. ground (arith, contains-filter (process id) (process id) s.held, beq_refl id);
  }

  -- The state as a start, in which `xs` is held.
  started_with :
      (xs : List Held) (s : Host)
      → ((h : Held) → contains xs h ≡ true → holds h s ≡ true)
      → Track (owns id sb) xs xs s s.conn s
  started_with xs s has = record {
    frame = λ _ _. refl;
    within = λ h k. ground arith;
    has = has;
    conn_is = refl;
  }

  -- From the entry in the table of machines to the answer of the guest's agent.
  awaited :
      (s : Host)
      → Rowed id sb s.conn
      → ((h : Held) → contains (possessions cfg id sb) h ≡ true → holds h s ≡ true)
      → Ends (λ _ s'. Live cfg id sb s') (λ _ s'. Unfinished id sb s') ((track id >> attempt) s)
  unfolding contains
  awaited s rowed has =
      let s₁ : Host = record s { machines = id ∷ s.machines } in
      let (v, row) = rowed in
      let (r, found, m) = row in
      let tracked : (ms : List String) → ms ≡ id ∷ s.machines → contains ms id ≡ true =
        λ ms e. ap (λ l. contains l id) e ∙ ground (arith, beq_refl id) in
      Ends-bind (track id) (λ _. attempt) s
        (Ends-ok _ _ (
          Ends-mono _ _ _ _ _ (attempt-Ends s₁ (started_with (possessions cfg id sb) s₁ has))
            (λ _ _ h. record {
              tracked = tracked _ h.1;
              standing = record {
                row = r;
                found = ap (λ c. find_sandbox id c.db) h.0.conn_is ∙ found;
                named = m;
                has = h.0.has;
              };
            })
            (λ _ _ h. record {
              row = r;
              found = ap (λ c. find_sandbox id c.db) h.0.conn_is ∙ found;
              named = m;
              accounted = λ _. tracked _ h.1;
            })))

  recorded :
      (r : SandboxRow) (s : Host)
      → IsConsistent s.conn.db
      → find_sandbox id s.conn.db ≡ some r
      → Matches sb r
      → ((h : Held) → contains (possessions cfg id sb) h ≡ true → holds h s ≡ true)
      → Ends
          (λ _ s'. Live cfg id sb s')
          (λ _ s'. Unfinished id sb s')
          ((do
            on_error
                (registry 500
                  (finish_start id (cfg.pid_of id) (cfg.vm_id_of id) (cfg.socket_of id)))
                (release (process id))
            track id
            attempt)
            s)
  recorded r s v found m has =
      step-Ends
        (λ _ s'.
          Rowed id sb s'.conn
          × ((h : Held) → contains (possessions cfg id sb) h ≡ true → holds h s' ≡ true))
        (λ _ s'. s'.conn.db ≡ s.conn.db) _ _ _ s
        (registry-Ends _ _ 500
          (finish_start id (cfg.pid_of id) (cfg.vm_id_of id) (cfg.socket_of id)) s
          (finish_start-row cfg id sb s s.conn (v, (r, found, m))) (λ _ _ h. (h, has))
          (λ _ _ h. h.1))
        (λ _ s' h. awaited s' h.0 h.1) (λ _ s' e. stopped r s' (ap (find_sandbox id) e ∙ found) m)

  finish_clone-Ends :
      (s : Host)
      → IsConsistent s.conn.db
      → Standing id sb (resumed id sb) s
      → Ends (λ _ s'. Live cfg id sb s') (λ _ s'. Unfinished id sb s') (finish_clone cfg id sb s)
  unfolding finish_clone
  finish_clone-Ends s v up =
      let still : (s' : Host) → s'.conn ≡ s.conn → find_sandbox id s'.conn.db ≡ some up.row =
        λ s' e. ap (λ c. find_sandbox id c.db) e ∙ up.found in
      step-Ends _ _ attempt (release (process id)) _ s
        (attempt-Ends s (started_with (resumed id sb) s up.has))
        (λ _ s₁ h₁.
          step-Ends _ _ attempt (release (process id)) _ s₁ (attempt-Ends s₁ h₁.0)
            (λ _ s₂ h₂.
              step-Ends _ _ (add_port_forward cfg sb) (release (process id)) _ s₂
                (add_port_forward-Ends cfg id sb s s.conn s₂ h₂.0)
                (λ _ s₃ h₃.
                  recorded up.row s₃ (subst (λ c. IsConsistent c.db) (sym h₃.conn_is) v)
                    (still s₃ h₃.conn_is) up.named h₃.has)
                (λ _ s₃ h. stopped up.row s₃ (still s₃ h.conn_is) up.named))
            (λ _ s₂ h. stopped up.row s₂ (still s₂ h.0.conn_is) up.named))
        (λ _ s₁ h. stopped up.row s₁ (still s₁ h.0.conn_is) up.named)

  TornDown-IsTracked :
      (s s' : Host) (r : SandboxRow)
      → find_sandbox id s.conn.db ≡ some r
      → Matches sb r
      → IsTracked id s
      → TornDown cfg id s s'
      → IsTracked id s'
  unfolding contains
  TornDown-IsTracked s s' r found m t d k =
      let released = TornDown-Releases cfg id sb r s s' found m d in
      elim (Bool-cases (contains s.machines id)) [
        | inl tracked ↦
            let all : Releases (torn_down cfg id sb d.extra true) s s' =
              subst (λ b. Releases (torn_down cfg id sb d.extra b) s s') tracked released in
            let listed : contains (extra_rules sb.guest_ip d.extra (process id ∷ [])) (process id)
                ≡ true =
              (contains-extra_rules id sb d.extra (process id ∷ []) (process id)).0
                (ground (arith, beq_refl id)) in
            ground (arith, all.left (process id), listed)
        | inr untracked ↦ ground (arith, released.left (process id))
      ]

  destroy_quietly-IsTracked :
      (s : Host) (r : SandboxRow)
      → find_sandbox id s.conn.db ≡ some r
      → Matches sb r
      → IsTracked id s
      → IsTracked id (destroy_quietly cfg id s)
  destroy_quietly-IsTracked s r found m t = Ends-either (IsTracked id) _ (
      Ends-mono _ _ _ _ _ (destroy_sandbox-TornDown cfg id s)
        (λ _ _ h. TornDown-IsTracked s _ r found m t h.0)
        (λ _ _ h. elim h.1 [
          | inl kept ↦ λ k.
              ap (λ l. contains l id) kept.1
              ∙ t (sym (ap (λ l. contains l (process id)) kept.0) ∙ k)
          | inr torn ↦ TornDown-IsTracked s _ r found m t torn
        ]))

-- A clone has been finished or destroyed: every other sandbox that was standing stands, its process is
-- accounted for, and if it is answered it is live.
pub record Settled (cfg : Settings) (id : String) (sb : Sandbox) (before : Host)
    (r : List Sandbox × Host) : Type 0 where
  pub spares : Spares id (rootfs_path cfg.system cfg.paths id) before r.1
  pub accounted : IsTracked id r.1
  pub answered : All (λ b. (b ≡ sb) × Live cfg id sb r.1) r.0

settled :
    (cfg : Settings) (id : String) (sb : Sandbox) (before : Host) (r : Result ℕ (Unit {0}))
    (s : Host)
    → IsConsistent before.conn.db
    → sb.rootfs_path ≡ rootfs_path cfg.system cfg.paths id
    → Rowed id sb before.conn
    → Elsewhere (owns id sb) id before s
    → EndsAt (λ _ s'. Live cfg id sb s') (λ _ s'. Unfinished id sb s') (r, s)
    → Settled cfg id sb before (finished_or_destroyed cfg id sb (r, s))
settled cfg id sb before (ok u) s v path rowed away h = record {
  spares =
      Elsewhere-Spares id sb _ before s before.conn v path rowed (Concerns-same id _ _ refl) away;
  accounted = λ _. h.tracked;
  answered = ((refl, h), tt);
}
settled cfg id sb before (err e) s v path rowed away h = record {
  spares = Elsewhere-Spares id sb _ before _ before.conn v path rowed (Concerns-same id _ _ refl) (
      Elsewhere-trans _ _ before s _ away
        (destroy_quietly-Elsewhere cfg id sb h.row s h.found h.named));
  accounted = destroy_quietly-IsTracked cfg id sb s h.row h.found h.named h.accounted;
  answered = tt;
}

pub finish_clone-Settled :
    (cfg : Settings) (id : String) (sb : Sandbox) (s : Host)
    → IsConsistent s.conn.db
    → sb.rootfs_path ≡ rootfs_path cfg.system cfg.paths id
    → Standing id sb (resumed id sb) s
    → Settled cfg id sb s (finished_or_destroyed cfg id sb (finish_clone cfg id sb s))
finish_clone-Settled cfg id sb s v path up =
    settled cfg id sb s (finish_clone cfg id sb s).0 (finish_clone cfg id sb s).1 v path
      (v, (up.row, up.found, up.named)) ((finish_clone-Stays cfg id sb).stays s)
      (finish_clone-Ends cfg id sb s v up).at
