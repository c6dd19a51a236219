-- ===== src/Server/Sandboxes/Concerning.antt =====
-- internal/server: the calls of the registry for one sandbox, and destroying it, leave the others alone.
use web_sandbox.Registry.Types.{Pools, SandboxRow, Sandbox, PortMapping}
use web_sandbox.Server.Host.{Eq-Held, output, prerouting, process, tap, disk, Held}
use web_sandbox.Server.Sandboxes.Elsewhere.{Concerns, Elsewhere}
use web_sandbox.Common.{
  Bool, Bool-cases, Ends-mono, List, Option, String, [], ap, arith, beq_refl, contains, eq_iff,
  false, find, if◌then◌else◌, inl, inr, refl, some, subst, sym, ℕ, ◌==◌, ◌∙◌, ◌∷◌, ◌≡◌, Ends-either,
  Eq-String, not, ◌&&◌,
}
use web_sandbox.Server.Sandboxes.Tracking.{torn_down, owns}
use web_sandbox.Registry.Ops.{finish_start, create, destroy}
use web_sandbox.Registry.Invariant.{IsConsistent}
use web_sandbox.Registry.History.{after_call, after_call-IsConsistent, creates, finishes, destroys}
use web_sandbox.Server.Sandboxes.Possessions.{
  Matches, contains-extra_rules, apart, TornDown-Releases, destroy_sandbox-IsConsistent,
}
use web_sandbox.Registry.Engine.{Conn, find_sandbox, update_rows, update_sandbox}
use web_sandbox.Registry.Lifecycle.{create-Created, destroy-Destroyed}
use web_sandbox.Server.Host.{Held, Host, Settings, process, holds, disk, tap, output}
use web_sandbox.Registry.Ops.Updates.{update_existing-Ensures}
use web_sandbox.Server.Sandboxes.Destroying.{TornDown, destroy_sandbox-TornDown}
use web_sandbox.Server.Sandboxes.{destroy_quietly}

find-update_rows_other :
    (id other : String) (f : SandboxRow → SandboxRow) (rs : List SandboxRow)
    → ((r : SandboxRow) → (f r).id ≡ r.id)
    → (other == id) ≡ false
    → find (λ r. r.id == other) (update_rows id f rs) ≡ find (λ r. r.id == other) rs
unfolding find update_rows
find-update_rows_other id other f [] k n = refl
find-update_rows_other id other f (r ∷ rs) k n = elim (Bool-cases (r.id == id)) [
  | inl hit ↦
      let miss : (r.id == other) ≡ false =
        ground (arith, eq_iff r.id id, eq_iff r.id other, eq_iff other id) in
      let miss' : ((f r).id == other) ≡ false = ap (λ i. i == other) (k r) ∙ miss in
      rw (hit, miss, miss') (find-update_rows_other id other f rs k n)
  | inr miss ↦ rw (miss, find-update_rows_other id other f rs k n) refl
]

pub Concerns-same : (id : String) (c c' : Conn) → c'.db ≡ c.db → Concerns id c c'
Concerns-same id c c' e = record {
  rows = λ other _. ap (find_sandbox other) e;
  consistent = λ v. subst IsConsistent (sym e) v;
}

pub create-Concerns :
    (pools : Pools) (id path : String) (expires_at : Option ℕ) (now : ℕ) (c : Conn)
    → Concerns id c (create pools id path expires_at now c).1
unfolding after_call
create-Concerns pools id path expires_at now c = record {
  rows = λ other n.
      Ends-either (λ c'. find_sandbox other c'.db ≡ find_sandbox other c.db) _
        (Ends-mono _ _ _ _ _ (create-Created pools id path expires_at now c)
          (λ _ _ h. h.others other n) (λ _ _ h. ap (find_sandbox other) h));
  consistent = λ v. after_call-IsConsistent pools (creates id path expires_at now) c v;
}

pub finish_start-Concerns :
    (pools : Pools) (id : String) (pid : ℕ) (vm_id socket_path : String) (c : Conn)
    → Concerns id c (finish_start id pid vm_id socket_path c).1
unfolding after_call finish_start find_sandbox update_sandbox
finish_start-Concerns pools id pid vm_id socket_path c = record {
  rows = λ other n.
      Ends-either (λ c'. find_sandbox other c'.db ≡ find_sandbox other c.db) _
        (Ends-mono _ _ _ _ _ (update_existing-Ensures id _ c)
          (λ _ _ h.
            ap (find_sandbox other) h.1
            ∙ find-update_rows_other id other _ c.db.sandboxes (λ r. refl) n)
          (λ _ _ h. ap (find_sandbox other) h));
  consistent = λ v. after_call-IsConsistent pools (finishes id pid vm_id socket_path) c v;
}

pub destroy-Concerns : (pools : Pools) (id : String) (c : Conn) → Concerns id c (destroy id c).1
unfolding after_call
destroy-Concerns pools id c = record {
  rows = λ other n.
      Ends-either (λ c'. find_sandbox other c'.db ≡ find_sandbox other c.db) _
        (Ends-mono _ _ _ _ _ (destroy-Destroyed id c) (λ _ _ h. h.others other n)
          (λ _ _ h. ap (find_sandbox other) h));
  consistent = λ v. after_call-IsConsistent pools (destroys id) c v;
}

-- What destroy releases belongs to the sandbox whose row was read.
torn_down-owned :
    (cfg : Settings) (id : String) (sb : Sandbox) (extra : List PortMapping) (tracked : Bool)
    (h : Held)
    → owns id sb h ≡ false
    → contains (torn_down cfg id sb extra tracked) h ≡ false
unfolding contains
torn_down-owned cfg id sb extra tracked h k =
    let process_only : contains (if tracked then process id ∷ [] else []) h ≡ false =
      ground (arith, apart id sb (process id) h (beq_refl id) k) in
    ground (
      arith,
      apart id sb (disk sb.rootfs_path) h (beq_refl sb.rootfs_path) k,
      apart id sb (tap sb.tap_device) h (beq_refl sb.tap_device) k,
      apart id sb (output sb.host_port sb.guest_ip cfg.guest_port) h (beq_refl sb.guest_ip) k,
      apart id sb (prerouting sb.host_port sb.guest_ip cfg.guest_port) h (beq_refl sb.guest_ip) k,
      (contains-extra_rules id sb extra (if tracked then process id ∷ [] else []) h).1 k
          process_only,
    )

TornDown-Elsewhere :
    (cfg : Settings) (id : String) (sb : Sandbox) (r : SandboxRow) (s s' : Host)
    → find_sandbox id s.conn.db ≡ some r
    → Matches sb r
    → Concerns id s.conn s'.conn
    → TornDown cfg id s s'
    → Elsewhere (owns id sb) id s s'
TornDown-Elsewhere cfg id sb r s s' found m c d = record {
  frame = λ h k.
      let kept : contains (torn_down cfg id sb d.extra (contains s.machines id)) h ≡ false =
        torn_down-owned cfg id sb d.extra (contains s.machines id) h k in
      (TornDown-Releases cfg id sb r s s' found m d).left h ∙ ap (λ b. not b && holds h s) kept;
  rows = c.rows;
  tracks = d.others_tracked;
  consistent = c.consistent;
}

-- Destroying a sandbox leaves the others alone, whatever fails.
pub destroy_quietly-Elsewhere :
    (cfg : Settings) (id : String) (sb : Sandbox) (r : SandboxRow) (s : Host)
    → find_sandbox id s.conn.db ≡ some r
    → Matches sb r
    → Elsewhere (owns id sb) id s (destroy_quietly cfg id s)
destroy_quietly-Elsewhere cfg id sb r s found m =
    let v : IsConsistent s.conn.db → IsConsistent (destroy_quietly cfg id s).conn.db =
      destroy_sandbox-IsConsistent cfg id s in
    Ends-either (Elsewhere (owns id sb) id s) _ (
      Ends-mono _ _ _ _ _ (destroy_sandbox-TornDown cfg id s)
        (λ _ _ h.
          TornDown-Elsewhere cfg id sb r s _ found m (record { rows = h.1.others; consistent = v })
            h.0)
        (λ _ _ h. elim h.1 [
          | inl kept ↦ record {
            frame = λ x _. ap (λ l. contains l x) kept.0;
            rows = λ other _. ap (find_sandbox other) h.0;
            tracks = λ other _. ap (λ l. contains l other) kept.1;
            consistent = v;
          }
          | inr torn ↦
              TornDown-Elsewhere cfg id sb r s _ found m
                (record { rows = λ other _. ap (find_sandbox other) h.0; consistent = v }) torn
        ]))
