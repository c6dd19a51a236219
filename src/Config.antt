-- ===== src/Config.antt =====
-- internal/config/config.go: the configuration and its defaults. Its numbers are not negative.
use web_sandbox.Registry.Types.{Pools}
use web_sandbox.Common.{ℕ, String, arith, eq_iff, if◌then◌else◌, nat_eq, refl, ◌==◌, ◌≡◌, Eq-String}

pub record Config : Type 0 where
  pub socket_path : String
  pub listen_addr : String
  pub api_token : String
  pub gateway_url : String
  pub gateway_token : String
  pub advertise_addr : String
  pub host_id : String
  pub db_path : String
  pub rootfs_base : String
  pub rootfs_dir : String
  pub snapshot_dir : String
  pub bridge : String
  pub gateway_ip : String
  pub nameservers : String
  pub guest_port : ℕ
  pub pools : Pools
  pub firecracker_bin : String
  pub kernel_image : String
  pub kernel_args : String
  pub vcpus : ℕ
  pub mem_mib : ℕ

-- The tests of Defaults, for a text and for a number.
unfoldable pub or_text : String → String → String
or_text s def = if s == "" then def else s

unfoldable pub or_number : ℕ → ℕ → ℕ
or_number n def = if nat_eq n 0 then def else n

unfoldable pub pool_defaults : Pools → Pools
unfolding or_text or_number
pool_defaults p = record {
  tap_prefix = or_text p.tap_prefix "fc";
  tap_max = or_number p.tap_max 64;
  guest_ip_min = or_text p.guest_ip_min "172.16.0.10";
  guest_ip_max = or_text p.guest_ip_max "172.16.0.73";
  port_min = or_number p.port_min 5_200;
  port_max = or_number p.port_max 5_263;
}

unfoldable pub defaults : Config → Config
unfolding or_text or_number pool_defaults
defaults c = record c {
  socket_path = or_text c.socket_path "/run/sandbox.sock";
  db_path = or_text c.db_path "/var/lib/sandbox/registry.db";
  rootfs_base = or_text c.rootfs_base "/opt/fc/devbox-rootfs.ext4";
  rootfs_dir = or_text c.rootfs_dir "/var/lib/sandbox/rootfs";
  snapshot_dir = or_text c.snapshot_dir "/var/lib/sandbox/snapshots";
  bridge = or_text c.bridge "br-fc";
  gateway_ip = or_text c.gateway_ip "172.16.0.1";
  nameservers = or_text c.nameservers "8.8.8.8";
  guest_port = or_number c.guest_port 3_000;
  kernel_args = or_text c.kernel_args "reboot=k panic=1 pci=off root=/dev/vda rw console=ttyS0";
  vcpus = or_number c.vcpus 2;
  mem_mib = or_number c.mem_mib 1_024;
  firecracker_bin = or_text c.firecracker_bin "/usr/local/bin/firecracker";
  kernel_image = or_text c.kernel_image "/opt/fc/vmlinux";
  pools = pool_defaults c.pools;
}

or_text_again : (s def : String) → or_text (or_text s def) def ≡ or_text s def
unfolding or_text
or_text_again s def = ground (arith, eq_iff s "", eq_iff def "")

or_number_again : (n def : ℕ) → or_number (or_number n def) def ≡ or_number n def
unfolding or_number
or_number_again n def = ground arith

pool_defaults_again : (p : Pools) → pool_defaults (pool_defaults p) ≡ pool_defaults p
unfolding pool_defaults
pool_defaults_again p =
    rw
      (
        or_text_again p.tap_prefix "fc",
        or_number_again p.tap_max 64,
        or_text_again p.guest_ip_min "172.16.0.10",
        or_text_again p.guest_ip_max "172.16.0.73",
        or_number_again p.port_min 5_200,
        or_number_again p.port_max 5_263,
      )
      refl

-- Filling in the defaults a second time changes nothing.
pub defaults_again : (c : Config) → defaults (defaults c) ≡ defaults c
unfolding defaults
defaults_again c =
    rw
      (
        or_text_again c.socket_path "/run/sandbox.sock",
        or_text_again c.db_path "/var/lib/sandbox/registry.db",
        or_text_again c.rootfs_base "/opt/fc/devbox-rootfs.ext4",
        or_text_again c.rootfs_dir "/var/lib/sandbox/rootfs",
        or_text_again c.snapshot_dir "/var/lib/sandbox/snapshots",
        or_text_again c.bridge "br-fc",
        or_text_again c.gateway_ip "172.16.0.1",
        or_text_again c.nameservers "8.8.8.8",
        or_number_again c.guest_port 3_000,
        or_text_again c.kernel_args "reboot=k panic=1 pci=off root=/dev/vda rw console=ttyS0",
        or_number_again c.vcpus 2,
        or_number_again c.mem_mib 1_024,
        or_text_again c.firecracker_bin "/usr/local/bin/firecracker",
        or_text_again c.kernel_image "/opt/fc/vmlinux",
        pool_defaults_again c.pools,
      )
      refl
