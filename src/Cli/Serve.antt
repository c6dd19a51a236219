-- ===== src/Cli/Serve.antt =====
-- cmd/sandbox/serve.go and gateway.go: what the two servers are started with. The registry, the network
-- of the host and the servers themselves are called at the end, with the given results.
use Prim.Native.String.{◌++◌ as str_append}
use web_sandbox.Config.{Config}
use web_sandbox.Registry.Types.{Pools}
use web_sandbox.Vm.{RunOptions}
use web_sandbox.Common.{
  String, Result, ok, err, ◌==◌, if◌then◌else◌, Eq-String, ℤ, pos, Bool, Option, false, none, not,
  some, true, ◌&&◌, Bool-cases, [], arith, eq_iff, inl, inr, refl, ◌∷◌, ◌≡◌,
}
use web_sandbox.Server.Serving.{
  Network, ServerConfig, Guarded, serve-Guarded, tcp_tokens, serve, no_tcp, refused, guarded,
  Listeners,
}

pub record ServeFlags : Type 0 where
  pub listen_addr : String
  pub api_token : String
  pub gateway_url : String
  pub gateway_token : String
  pub advertise_addr : String
  pub host_id : String

-- A flag that is not empty overrides the configuration.
abbrev pub override : String → String → String
override flag given = if not (flag == "") then flag else given

unfoldable pub with_flags : ServeFlags → Config → Config
with_flags f c = record c {
  listen_addr = override f.listen_addr c.listen_addr;
  api_token = override f.api_token c.api_token;
  gateway_url = override f.gateway_url c.gateway_url;
  gateway_token = override f.gateway_token c.gateway_token;
  advertise_addr = override f.advertise_addr c.advertise_addr;
  host_id = override f.host_id c.host_id;
}

unfoldable pub network_of : Config → Network
network_of c = record {
  bridge = c.bridge;
  gateway_cidr = str_append c.gateway_ip "/24";
  guest_port = c.guest_port;
}

unfoldable pub template_of : Config → RunOptions
template_of c = record {
  firecracker_bin = c.firecracker_bin;
  socket_path = "";
  kernel_image = c.kernel_image;
  rootfs_path = "";
  kernel_args = c.kernel_args;
  vcpus = pos c.vcpus;
  mem_mib = pos c.mem_mib;
  log_dir = "";
  tap_device = "";
  mac_address = "";
  guest_cidr = "";
  gateway_ip = "";
  nameservers = c.nameservers;
  snapshot_mem_path = "";
  snapshot_state_path = "";
}

unfoldable pub server_config : Config → ServerConfig
unfolding network_of template_of
server_config c = record {
  socket_path = c.socket_path;
  listen_addr = c.listen_addr;
  api_token = c.api_token;
  network = network_of c;
  paths = record {
    rootfs_base = c.rootfs_base;
    rootfs_dir = c.rootfs_dir;
    snapshot_dir = c.snapshot_dir;
  };
  gateway_ip = c.gateway_ip;
  vm_template = template_of c;
  gateway_url = c.gateway_url;
  gateway_token = c.gateway_token;
  advertise_addr = c.advertise_addr;
  host_id = c.host_id;
}

-- registry.Open, EnsureNetwork, and Serve of the server.
pub record Backend : Type 0 where
  pub open_registry : String → Pools → Result String (Unit {0})
  pub sets_up_network : Network → Result String (Unit {0})
  pub start_server : ServerConfig → Result String (Unit {0})

-- Whether the registry is opened, and with what the server is started.
pub record Ran : Type 0 where
  pub opened : Bool
  pub served : Option ServerConfig
  pub result : Result String (Unit {0})

abbrev pub after_network : Backend → ServerConfig → Result String (Unit {0}) → Ran
after_network b s (err e) = record {
  opened = true;
  served = none;
  result = err (str_append "ensure network: " e);
}
after_network b s (ok u) = record { opened = true; served = some s; result = b.start_server s }

abbrev pub after_open : Backend → ServerConfig → Result String (Unit {0}) → Ran
after_open b s (err e) = record {
  opened = false;
  served = none;
  result = err (str_append "open registry: " e);
}
after_open b s (ok u) = after_network b s (b.sets_up_network s.network)

abbrev pub not_started : String → Ran
not_started e = record { opened = false; served = none; result = err e }

unfoldable pub run_serve : Backend → ServeFlags → Result String Config → Ran
unfolding with_flags server_config
run_serve b f (err e) = not_started e
run_serve b f (ok given) =
    let c = with_flags f given in
    if not (c.gateway_url == "") && (c.listen_addr == "")
    then not_started "--gateway requires --listen (the gateway dials back over TCP)"
    else after_open b (server_config c) (b.open_registry c.db_path c.pools)

-- The gateway's token, its time limit and its address.
unfoldable pub run_gateway :
    String
    → String
    → ℤ
    → (String → ℤ → String → Result String (Unit {0}))
    → Result String (Unit {0})
run_gateway listen token ttl serve =
    if listen == ""
    then err "--listen is required"
    else if token == ""
    then err "--token is required (refusing to run an unauthenticated gateway)"
    else serve token ttl listen

-- The backend whose server is Serve with these listeners.
abbrev pub backend_of :
    (String → Pools → Result String (Unit {0}))
    → (Network → Result String (Unit {0}))
    → Listeners
    → Backend
backend_of opens ensures n = record {
  open_registry = opens;
  sets_up_network = ensures;
  start_server = λ c. (serve n c).1;
}

-- How `serve` ends with the configuration `c`.
pub data Started (n : Listeners) (c : Config) (r : Ran) : Type 0 where
  unstarted : (e : String) → r.served ≡ none → r.result ≡ err e → Started n c r
  failing : (e : String) → r.served ≡ some (server_config c) → r.result ≡ err e → Started n c r
  alone : r.served ≡ some (server_config c) → c.gateway_url ≡ "" → Started n c r
  on_tcp :
      r.served ≡ some (server_config c)
      → tcp_tokens (serve n (server_config c)).0 ≡ c.api_token ∷ []
      → (c.api_token == "") ≡ false
      → Started n c r

module _ (opens : String → Pools → Result String (Unit {0}))
    (ensures : Network → Result String (Unit {0})) (n : Listeners) where
  served-Started :
      (c : Config)
      → (not (c.gateway_url == "") && (c.listen_addr == "")) ≡ false
      → Guarded (server_config c) (serve n (server_config c))
      → Started n c (record {
        opened = true;
        served = some (server_config c);
        result = (serve n (server_config c)).1;
      })
  unfolding server_config
  served-Started c g (no_tcp e h) =
      alone refl (ground (arith, eq_iff c.gateway_url "", eq_iff c.listen_addr ""))
  served-Started c g (refused e h k) = failing e refl h
  served-Started c g (guarded h k) = on_tcp refl h k

  after_network-Started :
      (c : Config) (r : Result String (Unit {0}))
      → (not (c.gateway_url == "") && (c.listen_addr == "")) ≡ false
      → Started n c (after_network (backend_of opens ensures n) (server_config c) r)
  after_network-Started c (err e) g = unstarted _ refl refl
  after_network-Started c (ok u) g = served-Started c g (serve-Guarded n (server_config c))

  after_open-Started :
      (c : Config) (r : Result String (Unit {0}))
      → (not (c.gateway_url == "") && (c.listen_addr == "")) ≡ false
      → Started n c (after_open (backend_of opens ensures n) (server_config c) r)
  after_open-Started c (err e) g = unstarted _ refl refl
  after_open-Started c (ok u) g = after_network-Started c (ensures (server_config c).network) g

  -- With a configuration, `serve` reports an error, before or after the server has started with the
  -- configuration that the flags override, or that configuration names no gateway, or the server
  -- serves on TCP, behind its token only, which is not empty.
  pub run_serve-Started :
      (f : ServeFlags) (given : Config)
      → Started n (with_flags f given) (run_serve (backend_of opens ensures n) f (ok given))
  unfolding run_serve
  run_serve-Started f given =
      let c : Config = with_flags f given in
      elim (Bool-cases (not (c.gateway_url == "") && (c.listen_addr == ""))) [
        | inl unreachable ↦ rw unreachable (unstarted _ refl refl)
        | inr fine ↦ rw fine (after_open-Started c (opens c.db_path c.pools) fine)
      ]
