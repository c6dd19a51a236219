-- ===== src/Registry/Types.antt =====
-- internal/registry/registry.go: the structs, and the rows that their tables hold. A time is in
-- nanoseconds since 1970, as Go's clock has it; a row holds whole seconds.
use web_sandbox.Common.{ℕ, ◌*◌, ◌/◌, String, Option, none, some}

abbrev pub second : ℕ
second = 1_000_000_000

-- Time.Unix, and time.Unix(s, 0).
unfoldable pub unix : ℕ → ℕ
unix t = t / second

unfoldable pub from_unix : ℕ → ℕ
from_unix s = s * second

pub data Status : Type 0 where
  running stopping : Status

pub record Sandbox : Type 0 where
  pub id : String
  pub pid : ℕ
  pub vm_id : String
  pub socket_path : String
  pub tap_device : String
  pub guest_ip : String
  pub host_port : ℕ
  pub rootfs_path : String
  pub status : Status
  pub created_at : ℕ
  pub stopped_at : Option ℕ
  pub expires_at : Option ℕ

pub record PortMapping : Type 0 where
  pub guest_port : ℕ
  pub host_port : ℕ

pub record Snapshot : Type 0 where
  pub id : String
  pub source_id : String
  pub tap_device : String
  pub guest_ip : String
  pub mem_path : String
  pub state_path : String
  pub rootfs_path : String
  pub source_rootfs_path : String
  pub created_at : ℕ

pub record Pools : Type 0 where
  pub tap_prefix : String
  pub tap_max : ℕ
  pub guest_ip_min : String
  pub guest_ip_max : String
  pub port_min : ℕ
  pub port_max : ℕ

-- A row of `sandboxes` has the columns of the struct; its times are in seconds.
abbrev pub SandboxRow : Type 0
SandboxRow = Sandbox

abbrev pub SnapshotRow : Type 0
SnapshotRow = Snapshot

-- A row of `sandbox_ports`.
pub record PortRow : Type 0 where
  pub sandbox_id : String
  pub guest_port : ℕ
  pub host_port : ℕ

-- unixOrNil
unfoldable pub unix_or_nil : Option ℕ → Option ℕ
unfolding unix
unix_or_nil none = none
unix_or_nil (some t) = some (unix t)

map_time : Option ℕ → Option ℕ
unfolding from_unix
map_time none = none
map_time (some s) = some (from_unix s)

-- scanSandbox and scanSnapshot
unfoldable pub scan_sandbox : SandboxRow → Sandbox
unfolding from_unix map_time
scan_sandbox r = record r {
  created_at = from_unix r.created_at;
  stopped_at = map_time r.stopped_at;
  expires_at = map_time r.expires_at;
}

unfoldable pub scan_snapshot : SnapshotRow → Snapshot
unfolding from_unix
scan_snapshot r = record r { created_at = from_unix r.created_at }
