-- ===== src/Server/Ports.antt =====
-- internal/server/ports.go: handleExposePort and handleListPorts. Whether AddPortForwardTo succeeds is an
-- argument.
pub mod Exposing
use web_sandbox.Registry.Types.{Sandbox, PortMapping, Pools, PortRow, SandboxRow, scan_sandbox}
use web_sandbox.Registry.Engine.Rules.{LastCallFailed}
use web_sandbox.Registry.Engine.{
  call, exec, delete_port_row, Db, Conn, find_sandbox, find_port, has_port,
}
use web_sandbox.Registry.Ops.{get, ports, add_port, delete_port, port_mapping, ports_of}
use web_sandbox.Registry.Ops.Reads.{get-finds, ports-finds, Reads}
use web_sandbox.Registry.Invariant.{IsConsistent}
use web_sandbox.Registry.Lifecycle.{IsMapped, add_port-IsMapped}
use web_sandbox.Registry.History.{after_call-IsConsistent, after_call, adds_port, deletes_port}
use web_sandbox.Server.Timeouts.{Handler, or_status, or_status-Ends}
use web_sandbox.Common.{
  ℕ, Bool, Ends, Ends-err, Ends-ok, List, Option, String, err, fail, false, find, if◌then◌else◌,
  ltb, none, pure, refl, some, true, ◌==◌, ◌>>=◌, ◌||◌, ◌∷◌, ◌≡◌, ◌≢◌, ◌≤◌, ◌⊎◌, ℤ, Eq-ℕ, negsuc,
  pos, Bool-cases, Ends-bind, Ends-mono, [], ap, arith, inl, inr, nat_eq_iff, ok, sym, ◌∙◌, All,
  All-find, All-sort_by, eq_iff, filter, map, subst, Eq-String, not, ◌>>◌,
}

abbrev pub mapping : ℕ → ℕ → PortMapping
mapping guest_port host_port = record { guest_port = guest_port; host_port = host_port }

-- The end, with what AddPortForwardTo reported: a mapping that could not be forwarded is deleted.
unfoldable pub forward_or_undo : Bool → String → ℕ → ℕ → Handler PortMapping
forward_or_undo true id p port c = (ok (mapping p port), c)
forward_or_undo false id p port c = (err 500, (delete_port id p c).1)

-- A mapping that is there, or a new one.
unfoldable pub expose_extra :
    (ℕ → Bool) → Pools → String → ℕ → Option PortMapping → Handler PortMapping
expose_extra forwards pools id p (some pm) = pure pm
expose_extra forwards pools id p none = do
  port ← or_status 500 (add_port pools id p)
  forward_or_undo (forwards port) id p port

unfoldable pub expose_port :
    ℕ → (ℕ → String → ℕ → Bool) → Pools → String → ℕ → Sandbox → Handler PortMapping
expose_port primary forwards pools id p sb =
    if p == primary then pure (mapping p sb.host_port) else (do
      existing ← or_status 500 (ports id)
      expose_extra (λ port. forwards port sb.guest_ip p) pools id p
          (find (λ pm. pm.guest_port == p) existing))

-- `primary` is the guest port of the configuration, and `forwards` says for a host port, an address and a
-- guest port whether AddPortForwardTo succeeds.
unfoldable pub handle_expose_port :
    ℕ → (ℕ → String → ℕ → Bool) → Pools → String → Option ℤ → Handler PortMapping
handle_expose_port primary forwards pools id none = fail 400
handle_expose_port primary forwards pools id (some (negsuc n)) = fail 400
handle_expose_port primary forwards pools id (some (pos p)) =
    if ltb p 1 || ltb 65_535 p
    then fail 400
    else (or_status 404 (get id) >>= expose_port primary forwards pools id p)

unfoldable pub handle_list_ports : ℕ → String → Handler (List PortMapping)
handle_list_ports primary id = do
  sb ← or_status 404 (get id)
  extra ← or_status 500 (ports id)
  pure (mapping primary sb.host_port ∷ extra)
