-- ===== src/Tests/Gateway.antt =====
-- internal/gateway/gateway.go on two hosts.
use mathlib.Core.Bool.{false≢true}
use web_sandbox.Registry.Types.{Sandbox, Status}
use web_sandbox.Gateway.State.{Heartbeat, Gateway, new, pick_host, prune, upsert}
use web_sandbox.Gateway.Handlers.{handle_create, handle_proxy_by_id, handle_register}
use web_sandbox.Gateway.Placement.{Picked, pick_host-Picked}
use web_sandbox.Gateway.Routing.{IsRouted}
use web_sandbox.Gateway.Pruning.{names_stale, lookup-prune-route}
use web_sandbox.Gateway.Recovery.{
  register_all, register_all-rebuilds, IsValid, listed_ids, reporting_ids,
}
use web_sandbox.Gateway.Steps.{
  Registered, handle_register-Registered, new-Steps-IsRouted, Steps, registers, done, and_then,
  CreatedOn, handle_create-CreatedOn,
}
use web_sandbox.Gateway.Proxy.{Proxied, handle_proxy_by_id-Proxied}
use web_sandbox.Common.{
  [], inl, inr, keep_unless, lookup, none, refl, some, true, ◌∷◌, ◌≡◌, All, Distinct, Distinct-cons,
  Distinct-nil, List, String, contains, eq_iff, false, sym, ℕ, ◌==◌, ◌∙◌, ◌≢◌, Eq-String,
}

abbrev h1 : Heartbeat
h1 = record {
  host_id = "h1";
  addr = "10.0.0.1:8080";
  token = "t1";
  slots_total = 4;
  slots_used = 1;
  sandbox_ids = "a" ∷ [];
}

abbrev h2 : Heartbeat
h2 = record {
  host_id = "h2";
  addr = "10.0.0.2:8080";
  token = "";
  slots_total = 8;
  slots_used = 2;
  sandbox_ids = "b" ∷ "c" ∷ [];
}

abbrev no_hosts : Gateway
no_hosts = new "secret" 15

abbrev two_hosts : Gateway
two_hosts = (handle_register 3 (some h2) (handle_register 2 (some h1) no_hosts).1).1

two_hosts-Steps : Steps no_hosts two_hosts
two_hosts-Steps = and_then _ _ _ (registers 2 (some h1) no_hosts) (
    and_then _ _ _ (registers 3 (some h2) (handle_register 2 (some h1) no_hosts).1)
      (done two_hosts))

new-Steps-IsRouted_example : IsRouted two_hosts
new-Steps-IsRouted_example = new-Steps-IsRouted "secret" 15 two_hosts two_hosts-Steps

-- The same fact, for the other examples.
two_hosts-IsRouted : IsRouted two_hosts
two_hosts-IsRouted = new-Steps-IsRouted "secret" 15 two_hosts two_hosts-Steps

no_hosts-IsRouted : IsRouted no_hosts
no_hosts-IsRouted = new-Steps-IsRouted "secret" 15 no_hosts (done no_hosts)

pick_host-Picked_example : Picked 15 9 two_hosts.hosts (pick_host 9 two_hosts)
unfolding new handle_register upsert
pick_host-Picked_example = pick_host-Picked 9 two_hosts

handle_register-Registered_example :
    Registered 9 two_hosts (some h1) (handle_register 9 (some h1) two_hosts)
handle_register-Registered_example =
    handle_register-Registered 9 (some h1) two_hosts two_hosts-IsRouted

lookup-prune-route_example :
    lookup "a" (prune 18 two_hosts).route
    ≡ keep_unless
        (λ hid. names_stale two_hosts.ttl 18 (lookup hid two_hosts.hosts))
        (lookup "a" two_hosts.route)
lookup-prune-route_example = lookup-prune-route 18 two_hosts "a" two_hosts-IsRouted

handle_proxy_by_id-Proxied_example : Proxied "b" two_hosts (handle_proxy_by_id "b" two_hosts)
handle_proxy_by_id-Proxied_example = handle_proxy_by_id-Proxied "b" two_hosts two_hosts-IsRouted

abbrev answer : Sandbox
answer = record {
  id = "d";
  pid = 9;
  vm_id = "v";
  socket_path = "/s";
  tap_device = "fc2";
  guest_ip = "172.16.0.12";
  host_port = 5_202;
  rootfs_path = "/r/d";
  status = Status.running;
  created_at = 8;
  stopped_at = none;
  expires_at = none;
}

handle_create-CreatedOn_example :
    CreatedOn 9 true
      (λ h. some answer)
      two_hosts
      (prune 18 two_hosts)
      (handle_create 9 true (λ h. some answer) (prune 18) two_hosts)
handle_create-CreatedOn_example =
    handle_create-CreatedOn 9 true (λ h. some answer) (prune 18) two_hosts

abbrev reports : List (ℕ × Heartbeat)
reports = (2, h1) ∷ (3, h2) ∷ []

not_empty : (s : String) → (s == "") ≡ false → s ≢ ""
not_empty s e p = false≢true (sym e ∙ (eq_iff s "").1 p)

reports-IsValid : All (λ e. IsValid e.1) reports
reports-IsValid = (
  (not_empty "h1" refl, not_empty "10.0.0.1:8080" refl),
  ((not_empty "h2" refl, not_empty "10.0.0.2:8080" refl), tt),
)

reports-sandboxes : Distinct (listed_ids reports)
unfolding contains
reports-sandboxes =
    Distinct-cons "a" _ refl (Distinct-cons "b" _ refl (Distinct-cons "c" _ refl Distinct-nil))

reports-hosts : Distinct (reporting_ids reports)
unfolding contains
reports-hosts = Distinct-cons "h1" _ refl (Distinct-cons "h2" _ refl Distinct-nil)

register_all-rebuilds_example : lookup "c" (register_all reports no_hosts).route ≡ some "h2"
unfolding contains
register_all-rebuilds_example =
    register_all-rebuilds reports no_hosts "c" "h2" no_hosts-IsRouted reports-IsValid
      reports-sandboxes reports-hosts (inr (inl (refl, refl)))
