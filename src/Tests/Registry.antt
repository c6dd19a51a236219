-- ===== src/Tests/Registry.antt =====
-- internal/registry/registry.go on the default pools: 64 taps, addresses and ports.
use web_sandbox.Registry.Types.{Pools, SandboxRow, unix_or_nil, second}
use web_sandbox.Registry.Pools.{
  pick_free_tap, pick_free_ip, pick_free_port, slots, ip_exhausted, pick_port_from, address_rounds,
  pick_ip_from,
}
use web_sandbox.Registry.Pools.Choice.{FirstFree, pick_free_ip-FirstFree}
use web_sandbox.Registry.Address.{ip_to_uint32, uint32_to_ip}
use web_sandbox.Registry.Engine.{
  Conn, running_rows, find_sandbox, exec_unless, find_port, insert_port, refuses_port, transaction,
  call, query, commit, insert_sandbox, refuses_sandbox,
}
use web_sandbox.Registry.Ops.{
  create, add_port, has_expired, new_row, load_used, port_or_new, insert_running,
}
use web_sandbox.Registry.Capacity.{EndsBelowTop, empty_db-IsPooled, after_calls-le-slots}
use web_sandbox.Registry.History.{
  Call, after_calls, creates, adds_port, destroys, after_calls-IsConsistent, after_call,
}
use web_sandbox.Common.{
  List, [], false, length, none, ok, refl, some, ◌+◌, ◌-◌, ◌∷◌, ◌≡◌, ◌≤◌, arith, contains, true,
  ◌<◌, ◌⊎◌, Eq-String, Eq-ℕ, filter, find,
}
use web_sandbox.Registry.Lifecycle.{Recorded, create-Created, has_expired_bounds}
use web_sandbox.Registry.Invariant.{IsConsistent, empty_db, empty_db-IsConsistent}
use web_sandbox.Registry.Engine.Rules.{Ensures}
use web_sandbox.Registry.Address.RoundTrip.{ip_to_uint32-uint32_to_ip}

abbrev pub default_pools : Pools
default_pools = record {
  tap_prefix = "fc";
  tap_max = 64;
  guest_ip_min = "172.16.0.10";
  guest_ip_max = "172.16.0.73";
  port_min = 5_200;
  port_max = 5_263;
}

abbrev pub empty_conn : Conn
empty_conn = record { db = empty_db; fails = λ n. false; calls = 0 }

abbrev pub history : List Call
history =
    creates "a" "/r/a" none 7
    ∷ adds_port "a" 8_080
    ∷ creates "b" "/r/b" (some 9) 8
    ∷ destroys "a"
    ∷ []

abbrev pub used_conn : Conn
used_conn = after_calls default_pools history empty_conn

pub used_conn-IsConsistent : IsConsistent used_conn.db
used_conn-IsConsistent =
    after_calls-IsConsistent default_pools history empty_conn empty_db-IsConsistent

after_calls-IsConsistent_example : IsConsistent (after_calls default_pools history empty_conn).db
after_calls-IsConsistent_example =
    after_calls-IsConsistent default_pools history empty_conn empty_db-IsConsistent

lowest : ip_to_uint32 "172.16.0.10" ≡ some 2_886_729_738
unfolding ip_to_uint32
lowest = refl

highest : ip_to_uint32 "172.16.0.73" ≡ some 2_886_729_801
unfolding ip_to_uint32
highest = refl

pub default_pools-EndsBelowTop : EndsBelowTop default_pools
default_pools-EndsBelowTop hi e = ground (arith, highest)

after_calls-le-slots_example :
    (length (running_rows used_conn.db) ≤ slots default_pools)
    × (length (running_rows used_conn.db) + length used_conn.db.ports ≤ 5_263 + 1 - 5_200)
after_calls-le-slots_example =
    after_calls-le-slots default_pools history empty_conn empty_db-IsConsistent
      (empty_db-IsPooled default_pools) default_pools-EndsBelowTop (tt, (tt, (tt, (tt, tt))))

create-Created_example :
    Ensures empty_db
      (Recorded "a" "/r/a" (some 90) 70 empty_db)
      (create default_pools "a" "/r/a" (some 90) 70 empty_conn)
create-Created_example = create-Created default_pools "a" "/r/a" (some 90) 70 empty_conn

abbrev one_sandbox : Conn
one_sandbox = after_calls default_pools (creates "a" "/r/a" none 7 ∷ []) empty_conn

first_port : (add_port default_pools "a" 80 one_sandbox).0 ≡ ok 5_201
unfolding add_port port_or_new load_used transaction call query exec_unless commit find_sandbox
    find_port refuses_port insert_port pick_free_port pick_port_from after_calls after_call create
    pick_free_tap pick_free_ip contains filter ip_to_uint32 pick_ip_from address_rounds
    insert_running refuses_sandbox new_row find insert_sandbox
first_port = refl

abbrev row : SandboxRow
row = record (new_row "a" "/r/a" "fc0" "172.16.0.10" 5_200 none 7) {
  expires_at = unix_or_nil (some 5_400_000_000);
}

has_expired_bounds_example :
    ((has_expired 6_000_000_000 row ≡ true) × (5_400_000_000 < 6_000_000_000))
    ⊎ ((has_expired 6_000_000_000 row ≡ false) × (6_000_000_000 < 5_400_000_000 + second))
has_expired_bounds_example = has_expired_bounds row 5_400_000_000 6_000_000_000 refl

pick_free_ip-FirstFree_example :
    FirstFree
      (contains ("172.16.0.10" ∷ []))
      uint32_to_ip
      2_886_729_738
      2_886_729_802
      ip_exhausted
      (pick_free_ip ("172.16.0.10" ∷ []) default_pools)
pick_free_ip-FirstFree_example =
    pick_free_ip-FirstFree ("172.16.0.10" ∷ []) default_pools 2_886_729_738 2_886_729_801 lowest
      highest (omega arith) (omega arith)

ip_to_uint32-uint32_to_ip_example : ip_to_uint32 (uint32_to_ip 2_886_729_738) ≡ some 2_886_729_738
ip_to_uint32-uint32_to_ip_example = ip_to_uint32-uint32_to_ip 2_886_729_738 (omega arith)
