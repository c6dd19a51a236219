-- ===== src/Server/Sandboxes.antt =====
-- internal/server/server.go: the handlers that create, read and destroy sandboxes. The new id, the
-- clock and the decoded body are arguments; a body that cannot be decoded is `none`, and an empty one
-- is a time limit of 0.
pub mod Tracking
pub mod Possessions
pub mod Answering
pub mod Elsewhere
pub mod Standing
pub mod Spares
pub mod Concerning
pub mod Booting
pub mod Creating
pub mod Destroying
use web_sandbox.Registry.Engine.{Sql}
use web_sandbox.Registry.Ops.{all, create, destroy, expired, finish_start, get, list, ports}
use web_sandbox.Registry.Types.{Sandbox, PortMapping}
use web_sandbox.Provisioner.Disks.{rootfs_path}
use web_sandbox.Server.Timeouts.{deadline}
use web_sandbox.Server.Host.{
  Host, Settings, Act, Held, acquire, attempt, release, registry, quietly, on_error, create_tap,
  add_port_forward_to, remove_port_forward_to, disk, tap, process,
}
use web_sandbox.Common.{
  ℕ, Bool, List, Option, Result, String, [], contains, err, fail, filter, if◌then◌else◌, lift, none,
  not, ok, pure, some, ◌==◌, ◌>>=◌, ◌>>◌, ◌∷◌, ℤ, pos, negsuc, Eq-String,
}

-- PrepareRootfs: the path of the copy of the base image.
unfoldable pub prepare_rootfs : Settings → String → Act String
prepare_rootfs cfg id =
    let path = rootfs_path cfg.system cfg.paths id in do acquire (disk path); pure path

unfoldable pub add_port_forward : Settings → Sandbox → Act (Unit {0})
add_port_forward cfg sb = add_port_forward_to sb.host_port sb.guest_ip cfg.guest_port

unfoldable pub remove_port_forward : Settings → Sandbox → Host → Host
remove_port_forward cfg sb = remove_port_forward_to sb.host_port sb.guest_ip cfg.guest_port

-- rollbackPreVM
unfoldable pub rollback_pre_vm : String → Sandbox → Host → Host
rollback_pre_vm id sb s =
    quietly (destroy id) (release (disk sb.rootfs_path) (release (tap sb.tap_device) s))

-- StopForce, and then rollbackPreVM.
unfoldable pub stop_and_roll_back : String → Sandbox → Host → Host
unfolding rollback_pre_vm
stop_and_roll_back id sb s = rollback_pre_vm id sb (release (process id) s)

abbrev pub track : String → Act (Unit {0})
track id s = (ok tt, record s { machines = id ∷ s.machines })

-- The end of a guest's machine, if the table has it: ShutdownGuest, Wait and StopForce.
unfoldable pub stop_tracked : String → Host → Host
stop_tracked id s =
    if contains s.machines id
    then release (process id) (record s { machines = filter (λ i. not (i == id)) s.machines })
    else s

-- A list of port mappings that could not be read is taken as empty.
unfoldable pub read_ports : String → Act (List PortMapping)
read_ports id s =
    let (r, c) = ports id s.conn in (ok (elim r [ ok ms ↦ ms | err e ↦ [] ]), record s { conn = c })

unfoldable pub remove_extra : String → List PortMapping → Host → Host
remove_extra ip [] s = s
remove_extra ip (pm ∷ pms) s =
    remove_extra ip pms (remove_port_forward_to pm.host_port ip pm.guest_port s)

-- What destroy does once the sandbox and its extra ports have been read.
unfoldable pub tear_down : Settings → String → Sandbox → List PortMapping → Host → Host
unfolding stop_tracked remove_extra remove_port_forward
tear_down cfg id sb extra s = release (disk sb.rootfs_path) (
    release (tap sb.tap_device)
      (remove_port_forward cfg sb (remove_extra sb.guest_ip extra (stop_tracked id s))))

unfoldable pub destroy_sandbox : Settings → String → Act (Unit {0})
unfolding tear_down read_ports
destroy_sandbox cfg id = do
  sb ← registry 500 (get id)
  extra ← read_ports id
  λ s. registry 500 (destroy id) (tear_down cfg id sb extra s)

-- `_ = s.destroy(...)`
abbrev pub destroy_quietly : Settings → String → Host → Host
destroy_quietly cfg id s = (destroy_sandbox cfg id s).1

abbrev pub running_as : Settings → String → Sandbox → Sandbox
running_as cfg id sb = record sb {
  pid = cfg.pid_of id;
  vm_id = cfg.vm_id_of id;
  socket_path = cfg.socket_of id;
}

-- From NewMachine to the answer.
unfoldable pub boot : Settings → String → Sandbox → Act Sandbox
unfolding add_port_forward remove_port_forward rollback_pre_vm stop_and_roll_back
boot cfg id sb = do
  on_error attempt (rollback_pre_vm id sb)
  on_error (acquire (process id)) (stop_and_roll_back id sb)
  on_error attempt (stop_and_roll_back id sb)
  on_error (add_port_forward cfg sb) (stop_and_roll_back id sb)
  on_error (registry 500 (finish_start id (cfg.pid_of id) (cfg.vm_id_of id) (cfg.socket_of id)))
      (λ s. stop_and_roll_back id sb (remove_port_forward cfg sb s))
  track id
  on_error attempt (destroy_quietly cfg id)
  pure (running_as cfg id sb)

-- The time limit of a body, as the deadline of the sandbox.
unfoldable pub expiry_of : ℕ → Option ℤ → Result ℕ (Option ℕ)
expiry_of now none = err 400
expiry_of now (some (negsuc n)) = err 400
expiry_of now (some (pos n)) = ok (deadline now n)

unfoldable pub handle_create : Settings → String → ℕ → Option ℤ → Act Sandbox
unfolding prepare_rootfs expiry_of
handle_create cfg id now body = do
  expires_at ← lift (expiry_of now body)
  path ← prepare_rootfs cfg id
  sb ←
      on_error (registry 500 (create cfg.pools id path expires_at now))
        (release (disk (rootfs_path cfg.system cfg.paths id)))
  on_error (create_tap sb.tap_device) (rollback_pre_vm id sb)
  boot cfg id sb

unfoldable pub handle_list : Act (List Sandbox)
handle_list = registry 500 list

unfoldable pub handle_get : String → Act Sandbox
handle_get id = registry 404 (get id)

unfoldable pub handle_destroy : Settings → String → Act (Unit {0})
handle_destroy cfg id = destroy_sandbox cfg id

-- shutdownAll; the table of machines is read once, at the start.
unfoldable pub destroy_each : Settings → List String → Host → Host
destroy_each cfg [] s = s
destroy_each cfg (id ∷ ids) s = destroy_each cfg ids (destroy_quietly cfg id s)

unfoldable pub shutdown_all : Settings → Host → Host
unfolding destroy_each
shutdown_all cfg s = destroy_each cfg s.machines s
