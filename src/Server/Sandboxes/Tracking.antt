-- ===== src/Server/Sandboxes/Tracking.antt =====
-- internal/server/server.go: what the clean-ups of a sandbox release.
use web_sandbox.Registry.Engine.{Conn}
use web_sandbox.Registry.Invariant.{IsConsistent}
use web_sandbox.Registry.History.{after_call, after_call-IsConsistent, destroys}
use web_sandbox.Registry.Ops.{destroy}
use web_sandbox.Registry.Types.{Pools, PortMapping, Sandbox}
use web_sandbox.Server.Host.Tracks.{
  Releases, Track, Track-conn, release-Releases, release-Track, Releases-same, Releases-start,
}
use web_sandbox.Server.Host.{
  Held, Host, Settings, artifacts, disk, output, pause, prerouting, process, quietly, tap,
  remove_port_forward_to, Eq-Held,
}
use web_sandbox.Server.Sandboxes.{
  remove_extra, remove_port_forward, rollback_pre_vm, stop_and_roll_back, stop_tracked, tear_down,
}
use web_sandbox.Common.{
  ℕ, Bool, Bool-cases, List, String, [], contains, false, if◌then◌else◌, inl, inr, refl, sym, true,
  ◌==◌, ◌∷◌, ◌≡◌, ◌||◌, Eq-String, subst,
}

-- What belongs to a sandbox: its disk, its tap, the rules to its address and its process.
abbrev pub owns : String → Sandbox → Held → Bool
owns id sb (disk path) = path == sb.rootfs_path
owns id sb (tap t) = t == sb.tap_device
owns id sb (prerouting host_port ip guest_port) = ip == sb.guest_ip
owns id sb (output host_port ip guest_port) = ip == sb.guest_ip
owns id sb (process i) = i == id
owns id sb (pause i) = false
owns id sb (artifacts i) = false

-- The tables are consistent, and what has been taken and not released is among `may`.
abbrev pub Left : (Held → Bool) → List Held → Host → Host → Type 0
Left own may before s = IsConsistent s.conn.db × Track own may [] before s.conn s

pub destroy_row-Left :
    {own : Held → Bool} {may : List Held} {before : Host} {c : Conn} (pools : Pools) (id : String)
    (s : Host)
    → IsConsistent c.db
    → Track own may [] before c s
    → Left own may before (quietly (destroy id) s)
unfolding quietly after_call
destroy_row-Left pools id s v t = (
  after_call-IsConsistent pools (destroys id) s.conn
      (subst (λ d. IsConsistent d.db) (sym t.conn_is) v),
  Track-conn _ s t,
)

module _ {own : Held → Bool} {may must : List Held} {before : Host} {c : Conn} (pools : Pools)
    (v : IsConsistent c.db) where
  pub rollback_pre_vm-Left :
      (id : String) (sb : Sandbox) (may' : List Held) (s : Host)
      → own (tap sb.tap_device) ≡ true
      → own (disk sb.rootfs_path) ≡ true
      → ((h : Held)
          → contains may h ≡ true
          → (tap sb.tap_device == h || (disk sb.rootfs_path == h || contains may' h)) ≡ true)
      → Track own may must before c s
      → Left own may' before (rollback_pre_vm id sb s)
  unfolding rollback_pre_vm contains
  rollback_pre_vm-Left id sb may' s o o' m t = destroy_row-Left pools id _ v (
      release-Track (disk sb.rootfs_path) may' _ o' (λ h k. k)
        (release-Track (tap sb.tap_device) (disk sb.rootfs_path ∷ may') s o m t))

module _ {own : Held → Bool} {may must : List Held} {before : Host} {c : Conn} (pools : Pools)
    (v : IsConsistent c.db) where
  pub stop_and_roll_back-Left :
      (id : String) (sb : Sandbox) (may' : List Held) (s : Host)
      → own (process id) ≡ true
      → own (tap sb.tap_device) ≡ true
      → own (disk sb.rootfs_path) ≡ true
      → ((h : Held)
          → contains may h ≡ true
          → (process id == h
              || (tap sb.tap_device == h || (disk sb.rootfs_path == h || contains may' h)))
            ≡ true)
      → Track own may must before c s
      → Left own may' before (stop_and_roll_back id sb s)
  unfolding stop_and_roll_back contains
  stop_and_roll_back-Left id sb may' s o o' o'' m t =
      rollback_pre_vm-Left pools v id sb may' _ o' o'' (λ h k. k)
        (release-Track (process id) (tap sb.tap_device ∷ disk sb.rootfs_path ∷ may') s o m t)

-- The rules of the extra ports, with others.
abbrev pub extra_rules : String → List PortMapping → List Held → List Held
extra_rules ip [] xs = xs
extra_rules ip (pm ∷ pms) xs =
    extra_rules ip pms
      (output pm.host_port ip pm.guest_port ∷ prerouting pm.host_port ip pm.guest_port ∷ xs)

-- All that destroy releases: `tracked` says whether the table of machines has the sandbox.
abbrev pub torn_down : Settings → String → Sandbox → List PortMapping → Bool → List Held
torn_down cfg id sb extra tracked =
    disk sb.rootfs_path
    ∷ tap sb.tap_device
    ∷ output sb.host_port sb.guest_ip cfg.guest_port
    ∷ prerouting sb.host_port sb.guest_ip cfg.guest_port
    ∷ extra_rules sb.guest_ip extra (if tracked then process id ∷ [] else [])

remove_port_forward_to-Releases :
    {xs : List Held} {before : Host} (host_port guest_port : ℕ) (ip : String) (s : Host)
    → Releases xs before s
    → Releases
        (output host_port ip guest_port ∷ prerouting host_port ip guest_port ∷ xs)
        before
        (remove_port_forward_to host_port ip guest_port s)
unfolding remove_port_forward_to
remove_port_forward_to-Releases host_port guest_port ip s r =
    release-Releases _ _ (release-Releases _ s r)

remove_extra-Releases :
    (ip : String) (extra : List PortMapping) (xs : List Held) (before s : Host)
    → Releases xs before s
    → Releases (extra_rules ip extra xs) before (remove_extra ip extra s)
unfolding remove_extra
remove_extra-Releases ip [] xs before s r = r
remove_extra-Releases ip (pm ∷ pms) xs before s r =
    remove_extra-Releases ip pms _ before _
      (remove_port_forward_to-Releases pm.host_port pm.guest_port ip s r)

stop_tracked-Releases :
    (id : String) (s : Host)
    → Releases (if contains s.machines id then process id ∷ [] else []) s (stop_tracked id s)
unfolding stop_tracked
stop_tracked-Releases id s = elim (Bool-cases (contains s.machines id)) [
  | inl tracked ↦
      rw tracked (release-Releases (process id) _ (Releases-same [] s s _ refl (Releases-start s)))
  | inr untracked ↦ rw untracked (Releases-start s)
]

pub tear_down-Releases :
    (cfg : Settings) (id : String) (sb : Sandbox) (extra : List PortMapping) (s : Host)
    → Releases (torn_down cfg id sb extra (contains s.machines id)) s (tear_down cfg id sb extra s)
unfolding tear_down remove_port_forward
tear_down-Releases cfg id sb extra s = release-Releases _ _ (
    release-Releases _ _ (
      remove_port_forward_to-Releases sb.host_port cfg.guest_port sb.guest_ip _
        (remove_extra-Releases sb.guest_ip extra _ s _ (stop_tracked-Releases id s))))
