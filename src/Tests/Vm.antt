-- ===== src/Tests/Vm.antt =====
-- internal/vm on small inputs.
use mathlib.Core.Bool.{false≢true}
use Prim.Native.String.{◌++◌ as str_append}
use web_sandbox.Vm.{
  Vmm, CloneParams, Launch, RunOptions, RuntimeConfig, answered, up, apply_defaults, socket_path_of,
  start_clone, start_process, or_killed, configure, wrapped, fc_api, wait_api, wait_polls,
}
use web_sandbox.Vm.Cloning.{SentSome, clone_requests}
use web_sandbox.Vm.Starting.{Cloned, start_clone-Cloned}
use web_sandbox.Vm.Identities.{TookOn, mmds_after, start_clone-Taken}
use web_sandbox.Guest.Thaw.{Thaw, fetch_identity, replied, thaw_round}
use web_sandbox.Common.{Ends, [], eq_iff, none, ok, refl, some, ◌≡◌, ◌≢◌, pos, true}

abbrev options : RunOptions
options = record {
  firecracker_bin = "";
  socket_path = "";
  kernel_image = "vmlinux";
  rootfs_path = "";
  kernel_args = "console=ttyS0";
  vcpus = pos 1;
  mem_mib = pos 512;
  log_dir = "";
  tap_device = "";
  mac_address = "";
  guest_cidr = "";
  gateway_ip = "";
  nameservers = "8.8.8.8";
  snapshot_mem_path = "";
  snapshot_state_path = "";
}

abbrev params : CloneParams
params = record {
  mem_path = "/snapshots/s1/mem.bin";
  state_path = "/snapshots/s1/state.bin";
  clone_rootfs_path = "/rootfs/c1.ext4";
  tap_device = "tap4";
  guest_ip = "172.16.0.11";
  mac_address = "02:00:00:00:00:04";
  gateway_ip = "172.16.0.1";
  prefix = 24;
  gen = "c1";
}

abbrev launch : Launch
launch = record {
  temp_dir = "/tmp";
  join = λ a b. str_append a (str_append "/" b);
  trim_space = λ s. s;
  socket_id = ok "u1";
  vm_id = "u2";
  started = ok tt;
  polls = λ _. up;
}

abbrev accepting : Vmm
accepting = record { running = none; requests = []; answers = λ _. answered 204 "" }

start_clone-Cloned_example :
    Ends
      (Cloned launch options params accepting)
      (λ _ s'. (s'.running ≡ none) × SentSome accepting (clone_requests params) s')
      (start_clone launch options params accepting)
start_clone-Cloned_example = start_clone-Cloned launch options params accepting refl

abbrev config : RuntimeConfig
config = record { socket_path = "/tmp/sandbox-u1.sock"; vm_id = "u2" }

launch_succeeds : (start_clone launch options params accepting).0 ≡ ok config
unfolding start_clone apply_defaults socket_path_of start_process or_killed configure wrapped fc_api
    wait_api wait_polls
launch_succeeds = refl

abbrev thawed : Thaw
thawed = record {
  last_gen = "";
  shell = record { issued = []; answers = λ _. record { succeeds = true; output = "" } };
}

gen_is_new : params.gen ≢ ""
gen_is_new e = false≢true ((eq_iff params.gen "").1 e)

start_clone-Taken_example : TookOn params thawed (
    thaw_round
      (fetch_identity (replied 200 none) (
        replied 200
          (some (mmds_after [] (start_clone launch options params accepting).1.requests))))
      thawed)
start_clone-Taken_example =
    start_clone-Taken launch options params accepting config [] 200 none thawed refl launch_succeeds
      gen_is_new gen_is_new
