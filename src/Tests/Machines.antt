-- ===== src/Tests/Machines.antt =====
-- The machines of internal/vm on small inputs.
use Prim.Native.String.{◌++◌ as str_append}
use web_sandbox.Vm.{RunOptions, RuntimeConfig, apply_defaults, asleep, socket_path_of}
use web_sandbox.Vm.Machine.{
  Sdk, Wanted, new_machine, new_machine_from_snapshot, base_config, build_command,
  build_network_interface, fc_config, wanted_of, built, networked,
}
use web_sandbox.Vm.Machine.Booted.{
  Booted, without_tap, new_machine-Booted, new_machine_from_snapshot-Booted,
}
use web_sandbox.Vm.Lifecycle.{
  Asked, Machine, Op, after_ops, pauses, shuts_down, snapshots, stops, waits,
}
use web_sandbox.Vm.Lifecycle.Requests.{IsSentTo, after_ops-IsSentTo}
use web_sandbox.Common.{[], false, none, ok, refl, some, true, ◌∷◌, ◌≡◌, pos, List, Option}

abbrev vm_options : RunOptions
vm_options = record {
  firecracker_bin = "/usr/local/bin/firecracker";
  socket_path = "/tmp/c.sock";
  kernel_image = "/opt/fc/vmlinux";
  rootfs_path = "/r/c.ext4";
  kernel_args = "console=ttyS0";
  vcpus = pos 1;
  mem_mib = pos 512;
  log_dir = "";
  tap_device = "fc-tap4";
  mac_address = "02:00:00:00:00:04";
  guest_cidr = "172.16.0.11/24";
  gateway_ip = "172.16.0.1";
  nameservers = "";
  snapshot_mem_path = "";
  snapshot_state_path = "";
}

abbrev sdk : Sdk
sdk = record {
  launch = record {
    temp_dir = "/tmp";
    join = λ a b. str_append a (str_append "/" b);
    trim_space = λ s. s;
    socket_id = ok "u1";
    vm_id = "u2";
    started = ok tt;
    polls = λ _. asleep;
  };
  log_id = ok "l1";
  fc_id = ok "v1";
  parse_cidr = λ s. ok (record { ip = "172.16.0.11"; mask = "255.255.255.0" });
  parse_ip = λ s. some s;
  split = λ s sep. s ∷ [];
  quote = λ s. s;
  opens = λ path. true;
  new_machine = λ w. ok tt;
}

-- The log of a machine with no directory for it.
abbrev asked_for : Wanted
asked_for = record {
  config = record {
    vm_id = "v1";
    socket_path = "/tmp/c.sock";
    kernel_image_path = "/opt/fc/vmlinux";
    kernel_args = "console=ttyS0";
    drives =
        record {
          drive_id = "rootfs";
          path_on_host = "/r/c.ext4";
          is_root_device = true;
          is_read_only = false;
        }
        ∷ [];
    vcpu_count = pos 1;
    mem_size_mib = pos 512;
    log_fifo = "/tmp/sandbox-log-l1.fifo";
    log_level = "Warn";
    seccomp = record { enabled = false; filter = "" };
    network_interfaces =
        record {
          mac_address = "02:00:00:00:00:04";
          host_dev_name = "fc-tap4";
          ip_addr = record { ip = "172.16.0.11"; mask = "255.255.255.0" };
          gateway = "172.16.0.1";
          nameservers = [];
          if_name = "eth0";
          allow_mmds = true;
        }
        ∷ [];
    mmds_version = "V2";
    disable_validation = false;
  };
  runner = record {
    bin = "/usr/local/bin/firecracker";
    socket_path = "/tmp/c.sock";
    args = "--id" ∷ "v1" ∷ "--no-seccomp" ∷ [];
    output = some "/firecracker-v1.log";
  };
  snapshot = none;
}

abbrev runtime : RuntimeConfig
runtime = record { socket_path = "/tmp/c.sock"; vm_id = "v1" }

asks_for : new_machine sdk vm_options false ≡ ok (asked_for, runtime)
unfolding new_machine built fc_config networked build_network_interface base_config wanted_of
    build_command apply_defaults socket_path_of
asks_for = refl

new_machine-Booted_example : Booted sdk vm_options none asked_for runtime
new_machine-Booted_example = new_machine-Booted sdk vm_options false asked_for runtime asks_for

abbrev defaulted_options : RunOptions
defaulted_options = record vm_options { tap_device = ""; log_dir = "/tmp" }

restore_defaults : apply_defaults sdk.launch (without_tap vm_options) ≡ ok defaulted_options
unfolding apply_defaults socket_path_of
restore_defaults = refl

new_machine_from_snapshot-Booted_example :
    (p : Wanted × RuntimeConfig) × (new_machine_from_snapshot sdk vm_options "/s/n/mem.bin"
        "/s/n/state.bin" false
      ≡ ok p)
    × Booted sdk (without_tap vm_options) (some ("/s/n/mem.bin", "/s/n/state.bin", true)) p.0 p.1
    × (p.0.config.network_interfaces ≡ [])
new_machine_from_snapshot-Booted_example =
    new_machine_from_snapshot-Booted sdk vm_options defaulted_options "/s/n/mem.bin"
      "/s/n/state.bin" false "l1" "v1" restore_defaults refl refl (λ w. refl)

-- The machine of a clone.
abbrev clone : Option Machine
clone = some (record { sdk = none; raw = some (record { process = some 77; ended = none }) })

abbrev calls : List Op
calls = pauses ∷ snapshots "/m" "/s" ∷ shuts_down ∷ waits "deadline" ∷ stops ∷ []

abbrev unasked : Asked
unasked = record { sent = []; answers = λ n. ok tt }

after_ops-IsSentTo_example : IsSentTo clone (after_ops clone calls unasked)
after_ops-IsSentTo_example = after_ops-IsSentTo clone calls unasked tt
