-- ===== src/Server/Reaping.antt =====
-- internal/server/ttl.go and internal/server/reconcile.go: the sandboxes whose deadline has passed, and
-- those that an earlier run of the server has left.
pub mod Working
pub mod Rows
use web_sandbox.Registry.Ops.{all, destroy, expired}
use web_sandbox.Registry.Pools.{Error}
use web_sandbox.Registry.Types.{PortMapping, Sandbox}
use web_sandbox.Registry.Engine.{Conn}
use web_sandbox.Server.Host.{Host, Settings, disk, process, quietly, release, tap}
use web_sandbox.Server.Sandboxes.{destroy_each, read_ports, remove_extra, remove_port_forward}
use web_sandbox.Common.{
  Bool, List, Option, Result, String, [], err, false, if◌then◌else◌, map, nat_eq, none, ok, some, ℕ,
  ◌+◌, ◌==◌, ◌∷◌, zero, suc, Eq-String,
}

-- `comm` is the content of /proc/<pid>/comm, if it can be read, and `trim` is strings.TrimSpace.
unfoldable pub is_firecracker_proc : (String → String) → (ℕ → Option String) → ℕ → Bool
is_firecracker_proc trim comm pid =
    if nat_eq pid 0
    then false
    else (elim (comm pid) [ none ↦ false | some c ↦ trim c == "firecracker" ])

pub data Signal : Type 0 where
  sigterm null sigkill : Signal

-- The signals of killWithGrace: `rounds` is the number of rounds that begin before the deadline, and
-- `gone n` says whether the null signal of round `n` finds no process.
unfoldable pub kill_rounds : (ℕ → Bool) → ℕ → ℕ → List Signal
kill_rounds gone zero n = sigkill ∷ []
kill_rounds gone (suc rounds) n =
    let rest = kill_rounds gone rounds (n + 1) in null ∷ (if gone n then [] else rest)

unfoldable pub kill_with_grace : (ℕ → Bool) → ℕ → List Signal
unfolding kill_rounds
kill_with_grace gone rounds = sigterm ∷ kill_rounds gone rounds 0

abbrev pub destroy_listed : Settings → Result Error (List Sandbox) × Conn → Host → Host
destroy_listed cfg (err e, c) s = record s { conn = c }
destroy_listed cfg (ok sbs, c) s = destroy_each cfg (map (λ sb. sb.id) sbs) (record s { conn = c })

-- A tick of reapExpired.
unfoldable pub reap : Settings → ℕ → Host → Host
reap cfg now s = destroy_listed cfg (expired now s.conn) s

abbrev pub release_all : Settings → Sandbox → Result ℕ (List PortMapping) × Host → Host
release_all cfg sb (ok extra, s) =
    release (disk sb.rootfs_path)
      (release (tap sb.tap_device) (remove_port_forward cfg sb (remove_extra sb.guest_ip extra s)))
release_all cfg sb (err e, s) =
    release (disk sb.rootfs_path) (release (tap sb.tap_device) (remove_port_forward cfg sb s))

-- The body of the loop of reconcile; `lives` says whether a process is a Firecracker.
unfoldable pub reconcile_one : Settings → (ℕ → Bool) → Sandbox → Host → Host
reconcile_one cfg lives sb s =
    let killed = if lives sb.pid then release (process sb.id) s else s in
    quietly (destroy sb.id) (release_all cfg sb (read_ports sb.id killed))

unfoldable pub reconcile_each : Settings → (ℕ → Bool) → List Sandbox → Host → Host
unfolding reconcile_one
reconcile_each cfg lives [] s = s
reconcile_each cfg lives (sb ∷ sbs) s = reconcile_each cfg lives sbs (reconcile_one cfg lives sb s)

abbrev pub reconcile_listed :
    Settings → (ℕ → Bool) → Result Error (List Sandbox) × Conn → Host → Host
reconcile_listed cfg lives (err e, c) s = record s { conn = c }
reconcile_listed cfg lives (ok sbs, c) s = reconcile_each cfg lives sbs (record s { conn = c })

unfoldable pub reconcile : Settings → (ℕ → Bool) → Host → Host
unfolding reconcile_each
reconcile cfg lives s = reconcile_listed cfg lives (all s.conn) s
