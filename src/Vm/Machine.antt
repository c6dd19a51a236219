-- ===== src/Vm/Machine.antt =====
-- internal/vm/machine_linux.go: the configuration and the command of a VM that the SDK of Firecracker
-- runs. The SDK, the parsers of net, the UUIDs and the files are arguments.
pub mod Configured
pub mod Booted
use Prim.Native.String.{◌++◌ as str_append}
use web_sandbox.Vm.{Launch, RunOptions, RuntimeConfig, apply_defaults, with_error}
use web_sandbox.Common.Results.{◌>>=◌, ◌>>◌}
use web_sandbox.Common.{
  Bool, List, Option, Result, String, [], err, false, if◌then◌else◌, none, not, ok, some, true,
  ◌==◌, ◌∷◌, ℤ, Eq-String,
}

pub record Drive : Type 0 where
  pub drive_id : String
  pub path_on_host : String
  pub is_root_device : Bool
  pub is_read_only : Bool

-- An address with its mask, as net.ParseCIDR gives them.
pub record IpNet : Type 0 where
  pub ip : String
  pub mask : String

pub record NetworkInterface : Type 0 where
  pub mac_address : String
  pub host_dev_name : String
  pub ip_addr : IpNet
  pub gateway : String
  pub nameservers : List String
  pub if_name : String
  pub allow_mmds : Bool

pub record Seccomp : Type 0 where
  pub enabled : Bool
  pub filter : String

-- fcsdk.Config
pub record FcConfig : Type 0 where
  pub vm_id : String
  pub socket_path : String
  pub kernel_image_path : String
  pub kernel_args : String
  pub drives : List Drive
  pub vcpu_count : ℤ
  pub mem_size_mib : ℤ
  pub log_fifo : String
  pub log_level : String
  pub seccomp : Seccomp
  pub network_interfaces : List NetworkInterface
  pub mmds_version : String
  pub disable_validation : Bool

-- What a command builder of the SDK was given, and the file that the output goes to.
pub record Command : Type 0 where
  pub bin : String
  pub socket_path : String
  pub args : List String
  pub output : Option String

-- The machine that the SDK is asked for; `snapshot` has the memory, the state and ResumeVM.
pub record Wanted : Type 0 where
  pub config : FcConfig
  pub runner : Command
  pub snapshot : Option (String × String × Bool)

-- What comes from outside, besides what `Launch` has.
pub record Sdk : Type 0 where
  pub launch : Launch
  pub log_id : Result String String
  pub fc_id : Result String String
  pub parse_cidr : String → Result String IpNet
  pub parse_ip : String → Option String
  pub split : String → String → List String
  pub quote : String → String
  pub opens : String → Bool
  pub new_machine : Wanted → Result String (Unit {0})

abbrev pub gateway_found : Sdk → RunOptions → IpNet → Option String → Result String NetworkInterface
gateway_found sdk o net none = err (str_append "invalid gateway IP " (sdk.quote o.gateway_ip))
gateway_found sdk o net (some gateway) = ok (record {
  mac_address = o.mac_address;
  host_dev_name = o.tap_device;
  ip_addr = net;
  gateway = gateway;
  nameservers = if o.nameservers == "" then [] else sdk.split o.nameservers ",";
  if_name = "eth0";
  allow_mmds = false;
})

unfoldable pub build_network_interface : Sdk → RunOptions → Result String NetworkInterface
build_network_interface sdk o = do
  net ←
      with_error (str_append "parse guest CIDR " (sdk.quote o.guest_cidr))
        (sdk.parse_cidr o.guest_cidr)
  gateway_found sdk o net (sdk.parse_ip o.gateway_ip)

-- The part of fcConfig before the network.
unfoldable pub base_config : Sdk → RunOptions → String → String → FcConfig
base_config sdk o uid vm_id = record {
  vm_id = vm_id;
  socket_path = o.socket_path;
  kernel_image_path = o.kernel_image;
  kernel_args = o.kernel_args;
  drives =
      record {
        drive_id = "rootfs";
        path_on_host = o.rootfs_path;
        is_root_device = true;
        is_read_only = false;
      }
      ∷ [];
  vcpu_count = o.vcpus;
  mem_size_mib = o.mem_mib;
  log_fifo = sdk.launch.join o.log_dir (str_append "sandbox-log-" (str_append uid ".fifo"));
  log_level = "Warn";
  seccomp = record { enabled = false; filter = "" };
  network_interfaces = [];
  mmds_version = "";
  disable_validation = false;
}

-- The network, where there is a tap.
unfoldable pub networked : Sdk → RunOptions → FcConfig → Result String FcConfig
unfolding build_network_interface
networked sdk o cfg = do
  interface ← with_error "network config" (build_network_interface sdk o)
  ok (record cfg {
    network_interfaces = record interface { allow_mmds = true } ∷ [];
    mmds_version = "V2";
  })

unfoldable pub fc_config : Sdk → RunOptions → Result String FcConfig
unfolding base_config networked
fc_config sdk opts = do
  o ← apply_defaults sdk.launch opts
  uid ← sdk.log_id
  vm_id ← sdk.fc_id
  (if o.tap_device == ""
      then ok (base_config sdk o uid vm_id)
      else networked sdk o (base_config sdk o uid vm_id))

unfoldable pub build_command : Sdk → FcConfig → String → String → Command
build_command sdk cfg fc_bin log_dir =
    let path = sdk.launch.join log_dir (str_append "firecracker-" (str_append cfg.vm_id ".log")) in
    record {
      bin = fc_bin;
      socket_path = cfg.socket_path;
      args =
          "--id"
          ∷ cfg.vm_id
          ∷ (if not cfg.seccomp.enabled
              then "--no-seccomp" ∷ []
              else if cfg.seccomp.filter == ""
              then []
              else ("--seccomp-filter" ∷ cfg.seccomp.filter ∷ []));
      output = if sdk.opens path then some path else none;
    }

unfoldable pub wanted_of :
    Sdk → RunOptions → Option (String × String × Bool) → Bool → FcConfig → Wanted
unfolding build_command
wanted_of sdk opts snapshot disable_validation made =
    let cfg = record made { disable_validation = disable_validation } in
    record {
      config = cfg;
      runner = build_command sdk cfg opts.firecracker_bin opts.log_dir;
      snapshot = snapshot;
    }

-- The call of fcsdk.NewMachine; a machine is what the SDK was asked for.
unfoldable pub built :
    Sdk
    → RunOptions
    → Option (String × String × Bool)
    → Bool
    → Result String (Wanted × RuntimeConfig)
unfolding fc_config wanted_of
built sdk opts snapshot disable_validation = do
  made ← fc_config sdk opts
  sdk.new_machine (wanted_of sdk opts snapshot disable_validation made)
  ok (
    wanted_of sdk opts snapshot disable_validation made,
    record { socket_path = made.socket_path; vm_id = made.vm_id },
  )

unfoldable pub new_machine : Sdk → RunOptions → Bool → Result String (Wanted × RuntimeConfig)
unfolding built
new_machine sdk opts disable_validation = built sdk opts none disable_validation

unfoldable pub new_machine_from_snapshot :
    Sdk → RunOptions → String → String → Bool → Result String (Wanted × RuntimeConfig)
unfolding built
new_machine_from_snapshot sdk opts mem_path state_path disable_validation =
    built sdk (record opts { tap_device = "" }) (some (mem_path, state_path, true))
      disable_validation
