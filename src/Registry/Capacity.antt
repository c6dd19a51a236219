-- ===== src/Registry/Capacity.antt =====
-- Slots is the capacity that the gateway is told: no history has more sandboxes running than it says.
mod Members
mod Pooled
pub use Members.{EndsBelowTop, tap_names, ip_names, port_names}
pub use Pooled.{IsPooled, Allowed, empty_db-IsPooled}
use Members.{length-names_from, length-ip_names, length-tap_names, length-port_names}
use Pooled.{In, In-filter, after_call-IsPooled}
use web_sandbox.Registry.Types.{Pools}
use web_sandbox.Registry.Pools.{slots, ip_range}
use web_sandbox.Registry.Engine.{Db, Conn, is_running, running_rows}
use web_sandbox.Registry.History.{Call, after_call, after_calls, after_calls-IsConsistent}
use web_sandbox.Common.{
  All, Eq, List, [], ap, arith, length, length-append, map, pigeonhole, refl, suc, ◌++◌, ◌+◌, ◌-◌,
  ◌∷◌, ◌≡◌, ◌≤◌, Option, Option-cases, inl, inr, ℕ, length-map,
}
use web_sandbox.Registry.Ops.{used_ips, used_ports, used_taps}
use web_sandbox.Registry.Capacity.Members.{EndsBelowTop, ip_names, port_names, tap_names}
use web_sandbox.Registry.Capacity.Pooled.{Allowed, empty_db-IsPooled, IsPooled}
use web_sandbox.Registry.Invariant.{IsConsistent}
use web_sandbox.Registry.Address.{ip_to_uint32}

In-append :
    {A : Type 0} ⦃e : Eq A⦄ (pool xs ys : List A) → In pool xs → In pool ys → In pool (xs ++ ys)
In-append pool [] ys h k = k
In-append pool (x ∷ xs) ys h k = (h.0, In-append pool xs ys h.1 k)

module _ (pools : Pools) (db : Db) (c : IsConsistent db) (v : IsPooled pools db) where
  running-le-taps : length (running_rows db) ≤ pools.tap_max
  running-le-taps = omega (
    arith,
    length-map (λ r. r.tap_device) (running_rows db),
    length-tap_names pools,
    pigeonhole (used_taps db) (tap_names pools) c.taps
        (In-filter _ (λ r. r.tap_device) is_running db.sandboxes v.taps),
  )

  running-le-ips : length (running_rows db) ≤ length (ip_names pools)
  running-le-ips = omega (
    arith,
    length-map (λ r. r.guest_ip) (running_rows db),
    pigeonhole (used_ips db) (ip_names pools) c.ips
        (In-filter _ (λ r. r.guest_ip) is_running db.sandboxes v.ips),
  )

  -- Primary and extra ports together fit into the range.
  pub ports-le-range :
      length (running_rows db) + length db.ports ≤ pools.port_max + 1 - pools.port_min
  ports-le-range = omega (
    arith,
    length-map (λ r. r.host_port) (running_rows db),
    length-map (λ m. m.host_port) db.ports,
    length-append (map (λ r. r.host_port) (running_rows db)) (map (λ m. m.host_port) db.ports),
    length-port_names pools,
    pigeonhole (used_ports db) (port_names pools) c.host_ports (
        In-append (port_names pools) _ _
          (In-filter _ (λ r. r.host_port) is_running db.sandboxes v.primary) v.extra),
  )

  pub running-le-slots : EndsBelowTop pools → length (running_rows db) ≤ slots pools
  unfolding slots
  running-le-slots top = elim (Option-cases range) [
    | inl e ↦ rw (e, slots) (ground (arith, running-le-taps, ports-le-range))
    | inr (n, e) ↦
        rw (e, slots)
          (ground (
            arith,
            running-le-taps,
            ports-le-range,
            length-ip_names pools (length (running_rows db)) n top running-le-ips e,
          ))
  ]
    where
      range : Option ℕ
      range = ip_range (ip_to_uint32 pools.guest_ip_min) (ip_to_uint32 pools.guest_ip_max)

Allowed-calls-IsPooled :
    (pools : Pools) (ks : List Call) (c : Conn)
    → EndsBelowTop pools
    → All (Allowed pools) ks
    → IsPooled pools c.db
    → IsPooled pools (after_calls pools ks c).db
unfolding after_calls
Allowed-calls-IsPooled pools [] c top a v = v
Allowed-calls-IsPooled pools (k ∷ ks) c top a v =
    Allowed-calls-IsPooled pools ks (after_call pools k c) top a.1
      (after_call-IsPooled pools k c top a.0 v)

-- From tables that are consistent and within the pools, such as empty ones, no history of calls has
-- more sandboxes running than Slots says, nor more host ports given out than the range has: whatever
-- the calls and the failures of the driver, if each restore asks for a tap and an address of the
-- pools and the last address of the pool is not 255.255.255.255.
pub after_calls-le-slots :
    (pools : Pools) (ks : List Call) (c : Conn)
    → IsConsistent c.db
    → IsPooled pools c.db
    → EndsBelowTop pools
    → All (Allowed pools) ks
    → let db = (after_calls pools ks c).db in
      (length (running_rows db) ≤ slots pools)
      × (length (running_rows db) + length db.ports ≤ pools.port_max + 1 - pools.port_min)
after_calls-le-slots pools ks c con v top a =
    let con' : IsConsistent (after_calls pools ks c).db = after_calls-IsConsistent pools ks c con in
    let v' : IsPooled pools (after_calls pools ks c).db =
      Allowed-calls-IsPooled pools ks c top a v in
    (
      running-le-slots pools (after_calls pools ks c).db con' v' top,
      ports-le-range pools (after_calls pools ks c).db con' v',
    )
