-- ===== src/Server/Sandboxes/Possessions.antt =====
-- internal/server/server.go: what a running sandbox holds, and that destroying it releases all of it.
use web_sandbox.Registry.Engine.{Conn, find_sandbox, is_running, Sql}
use web_sandbox.Registry.Invariant.{IsConsistent}
use web_sandbox.Registry.History.{
  after_call, after_call-IsConsistent, destroys, gets_sandbox, lists_ports,
}
use web_sandbox.Registry.Ops.{destroy, get, ports}
use web_sandbox.Registry.Types.{PortMapping, Sandbox, SandboxRow, scan_sandbox}
use web_sandbox.Server.Host.Tracks.{Track, Track-Releases, Releases}
use web_sandbox.Server.Host.{
  Held, Host, Settings, disk, output, prerouting, process, registry, tap, Eq-Held, same_held_iff,
}
use web_sandbox.Server.Sandboxes.{destroy_quietly, destroy_sandbox, read_ports, tear_down}
use web_sandbox.Server.Sandboxes.Destroying.{TornDown, tear_down-conn}
use web_sandbox.Server.Sandboxes.Tracking.{extra_rules, owns, torn_down}
use mathlib.Core.Bool.{false≢true}
use web_sandbox.Common.{
  Bool-cases, ℕ, Bool, Ends, Ends-always, Ends-bind, Ends-either, Ends-mono, List, String, [], ap,
  arith, beq_refl, contains, false, inl, inr, refl, some, subst, sym, true, ◌==◌, ◌∙◌, ◌∷◌, ◌≡◌,
  Eq-String, err, ok,
}

-- What a running sandbox holds, the latest first.
abbrev pub possessions : Settings → String → Sandbox → List Held
possessions cfg id sb =
    output sb.host_port sb.guest_ip cfg.guest_port
    ∷ prerouting sb.host_port sb.guest_ip cfg.guest_port
    ∷ process id
    ∷ tap sb.tap_device
    ∷ disk sb.rootfs_path
    ∷ []

abbrev pub forwards_of : Settings → Sandbox → List Held
forwards_of cfg sb =
    output sb.host_port sb.guest_ip cfg.guest_port
    ∷ prerouting sb.host_port sb.guest_ip cfg.guest_port
    ∷ []

-- The row is that of a running sandbox, and has the names of what the sandbox holds.
pub record Matches (sb : Sandbox) (r : SandboxRow) : Type 0 where
  pub path : r.rootfs_path ≡ sb.rootfs_path
  pub tap_name : r.tap_device ≡ sb.tap_device
  pub ip : r.guest_ip ≡ sb.guest_ip
  pub port : r.host_port ≡ sb.host_port
  pub running : is_running r ≡ true

-- The tables are consistent, and the row of the sandbox is found.
abbrev pub Rowed : String → Sandbox → Conn → Type 0
Rowed id sb c =
    IsConsistent c.db × ((r : SandboxRow) × (find_sandbox id c.db ≡ some r) × Matches sb r)

torn_down-Matches :
    (cfg : Settings) (id : String) (sb : Sandbox) (r : SandboxRow) (extra : List PortMapping)
    (tracked : Bool)
    → Matches sb r
    → torn_down cfg id (scan_sandbox r) extra tracked ≡ torn_down cfg id sb extra tracked
unfolding scan_sandbox
torn_down-Matches cfg id sb r extra tracked m = rw (m.path, m.tap_name, m.ip, m.port) refl

pub contains-extra_rules :
    (id : String) (sb : Sandbox) (extra : List PortMapping) (xs : List Held) (h : Held)
    → (contains xs h ≡ true → contains (extra_rules sb.guest_ip extra xs) h ≡ true)
      × (owns id sb h ≡ false
          → contains xs h ≡ false
          → contains (extra_rules sb.guest_ip extra xs) h ≡ false)
unfolding contains
contains-extra_rules id sb [] xs h = (λ k. k, λ o k. k)
contains-extra_rules id sb (pm ∷ pms) xs h =
    let p : Held = prerouting pm.host_port sb.guest_ip pm.guest_port in
    let q : Held = output pm.host_port sb.guest_ip pm.guest_port in
    let rest = contains-extra_rules id sb pms (q ∷ p ∷ xs) h in
    (
      λ k. rest.0 (ground arith),
      λ o k. rest.1 o (ground (arith, same_held_iff p h, same_held_iff q h, beq_refl sb.guest_ip)),
    )

registry-IsConsistent :
    {A : Type 0} (status : ℕ) (m : Sql A) (s : Host)
    → IsConsistent (m s.conn).1.db
    → Ends (λ _ s'. IsConsistent s'.conn.db) (λ _ s'. IsConsistent s'.conn.db) (registry status m s)
unfolding registry
registry-IsConsistent status m s v = Ends-always (λ s'. IsConsistent s'.conn.db) _ v

pub destroy_sandbox-IsConsistent :
    (cfg : Settings) (id : String) (s : Host)
    → IsConsistent s.conn.db
    → IsConsistent (destroy_quietly cfg id s).conn.db
unfolding destroy_sandbox after_call read_ports
destroy_sandbox-IsConsistent cfg id s v =
    Ends-either (λ s'. IsConsistent s'.conn.db) _
      (Ends-bind (registry 500 (get id)) _ s (
        Ends-mono _ _ _ _ _
          (registry-IsConsistent 500 (get id) s
            (after_call-IsConsistent cfg.pools (gets_sandbox id) s.conn v))
          (λ sb _ w.
            let s₁ : Host = (registry 500 (get id) s).1 in
            let s₂ : Host = (read_ports id s₁).1 in
            let extra : List PortMapping = elim (ports id s₁.conn).0 [ ok ms ↦ ms | err e ↦ [] ] in
            registry-IsConsistent 500 (destroy id) (tear_down cfg id sb extra s₂) (
              after_call-IsConsistent cfg.pools (destroys id) _ (
                subst (λ c. IsConsistent c.db) (sym (tear_down-conn cfg id sb extra s₂).0)
                  (after_call-IsConsistent cfg.pools (lists_ports id) s₁.conn w))))
          (λ e _ w. w)))

pub apart :
    (id : String) (sb : Sandbox) (x h : Held)
    → owns id sb x ≡ true
    → owns id sb h ≡ false
    → (x == h) ≡ false
apart id sb x h o k = elim (Bool-cases (x == h)) [
  | inl same ↦ absurd (false≢true (sym k ∙ ap (owns id sb) (sym ((same_held_iff x h).0 same)) ∙ o))
  | inr other ↦ other
]

-- What destroy has released, in the names of the sandbox whose row was there.
pub TornDown-Releases :
    (cfg : Settings) (id : String) (sb : Sandbox) (r : SandboxRow) (s s' : Host)
    → find_sandbox id s.conn.db ≡ some r
    → Matches sb r
    → (d : TornDown cfg id s s')
    → Releases (torn_down cfg id sb d.extra (contains s.machines id)) s s'
unfolding scan_sandbox
TornDown-Releases cfg id sb r s s' found m d =
    let same : d.row ≡ r = cc in
    subst (λ xs. Releases xs s s')
      (ap (λ q. torn_down cfg id (scan_sandbox q) d.extra (contains s.machines id)) same
        ∙ torn_down-Matches cfg id sb r d.extra (contains s.machines id) m)
      d.releases

-- After destroy, from a state in which the table of machines has the sandbox: all its possessions are
-- released, or else nothing was, because its row could not be read.
module _ (cfg : Settings) (id : String) (sb : Sandbox) (before : Host) where
  pub TornDown-Left :
      (s s' : Host) (c : Conn) (r : SandboxRow)
      → contains s.machines id ≡ true
      → find_sandbox id s.conn.db ≡ some r
      → Matches sb r
      → Track (owns id sb) (possessions cfg id sb) (possessions cfg id sb) before c s
      → TornDown cfg id s s'
      → Track (owns id sb) [] [] before s'.conn s'
  unfolding contains
  TornDown-Left s s' c r tracked found m t d =
      let released : Releases (torn_down cfg id sb d.extra true) s s' =
        subst (λ b. Releases (torn_down cfg id sb d.extra b) s s') tracked
          (TornDown-Releases cfg id sb r s s' found m d) in
      Track-Releases [] s'
        (λ h k. ground (
          arith,
          apart id sb (disk sb.rootfs_path) h (beq_refl sb.rootfs_path) k,
          apart id sb (tap sb.tap_device) h (beq_refl sb.tap_device) k,
          apart id sb (output sb.host_port sb.guest_ip cfg.guest_port) h (beq_refl sb.guest_ip) k,
          apart id sb (prerouting sb.host_port sb.guest_ip cfg.guest_port) h (beq_refl sb.guest_ip)
              k,
          (contains-extra_rules id sb d.extra (process id ∷ []) h).1 k,
          apart id sb (process id) h (beq_refl id) k,
        ))
        (λ h k. ground (arith, (contains-extra_rules id sb d.extra (process id ∷ []) h).0)) t
        released
