-- ===== src/Tests/Cli.antt =====
-- cmd/sandbox on small inputs.
use web_sandbox.Cli.Doctor.{Env, Tally, run_doctor, verdict}
use web_sandbox.Cli.Doctor.Verdict.{counted, has_required, run_doctor-succeeds, succeeds}
use web_sandbox.Cli.Serve.{
  ServeFlags, Started, backend_of, run_serve, run_serve-Started, with_flags,
}
use web_sandbox.Server.Serving.{Listeners, cancelled}
use web_sandbox.Config.{Config}
use web_sandbox.Tests.Registry.{default_pools}
use web_sandbox.Common.{[], err, false, ok, refl, some, ◌∷◌, ◌≡◌, ◌==◌, not, Eq-String}

abbrev config : Config
config = record {
  socket_path = "/run/sandbox.sock";
  listen_addr = "";
  api_token = "secret";
  gateway_url = "http://10.0.0.1:9090";
  gateway_token = "gate";
  advertise_addr = "";
  host_id = "h1";
  db_path = "/var/lib/sandbox/registry.db";
  rootfs_base = "/opt/fc/devbox-rootfs.ext4";
  rootfs_dir = "/var/lib/sandbox/rootfs";
  snapshot_dir = "/var/lib/sandbox/snapshots";
  bridge = "br-fc";
  gateway_ip = "172.16.0.1";
  nameservers = "8.8.8.8";
  guest_port = 3_000;
  pools = default_pools;
  firecracker_bin = "/usr/local/bin/firecracker";
  kernel_image = "/opt/fc/vmlinux";
  kernel_args = "console=ttyS0";
  vcpus = 2;
  mem_mib = 1_024;
}

-- A system without the bridge.
abbrev env : Env
env = record {
  goos = "linux";
  goarch = "amd64";
  exists = λ path. not (path == "/sys/class/net/br-fc");
  version = λ bin. some "Firecracker v1.7.0";
  reads = λ path. ok (49 ∷ []);
  dial = λ path. err "connection refused";
  make_dir = λ dir. ok tt;
  create_temp = λ dir. ok "/var/lib/sandbox/rootfs/.reflink-probe-1";
  reflink = λ src dst. err "cp: failed to clone";
  trim_space = λ s. s;
  first_line = λ s. s;
}

run_doctor-succeeds_example :
    (succeeds (run_doctor env (ok config)).1 ≡ has_required env config)
    × ((t : Tally) × (run_doctor env (ok config) ≡ verdict t) × (counted t ≡ 10))
run_doctor-succeeds_example = run_doctor-succeeds env config

bridge_missing : has_required env config ≡ false
bridge_missing = refl

abbrev flags : ServeFlags
flags = record {
  listen_addr = "100.64.0.2:8080";
  api_token = "";
  gateway_url = "";
  gateway_token = "";
  advertise_addr = "";
  host_id = "";
}

abbrev listeners : Listeners
listeners = record {
  dir = λ path. "/run";
  make_dir = λ dir. ok tt;
  listen_unix = λ path. ok tt;
  listen_tcp = λ addr. ok tt;
  ending = cancelled;
}

run_serve-Started_example :
    Started listeners
      (with_flags flags config)
      (run_serve (backend_of (λ path pools. ok tt) (λ network. ok tt) listeners) flags (ok config))
run_serve-Started_example =
    run_serve-Started (λ path pools. ok tt) (λ network. ok tt) listeners flags config
