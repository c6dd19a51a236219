-- ===== src/Server/Snapshots.antt =====
-- internal/server/snapshot.go: snapshots of a sandbox, and the sandboxes that start from one. The new
-- ids, the clock and the decoded bodies are arguments. The clones of a fan-out come up one after the
-- other here.
pub mod Pausing
pub mod Restoring
pub mod Isolation
pub mod Resuming
pub mod Finishing
pub mod Sparing
pub mod Phases
pub mod BringingUp
pub mod FanningOut
pub mod Fanout
use web_sandbox.Registry.Ops.{
  create, create_restore, create_snapshot, delete_snapshot, finish_start, get, get_snapshot,
  list_snapshots,
}
use web_sandbox.Registry.Types.{Sandbox, Snapshot}
use web_sandbox.Provisioner.Disks.{rootfs_path}
use web_sandbox.Server.Host.{
  Outcome, done, Act, Host, Settings, acquire, artifacts, attempt, create_tap, create_tap_unbridged,
  disk, on_error, pause, process, registry, release, Outcome,
}
use web_sandbox.Server.Sandboxes.{
  add_port_forward, boot, destroy_quietly, expiry_of, rollback_pre_vm, running_as, track,
}
use web_sandbox.Common.{
  ◌++◌, ℕ, Bool, List, Option, Result, String, [], contains, err, fail, if◌then◌else◌, lift, ltb,
  map, none, ok, pure, some, ◌==◌, ◌>>=◌, ◌>>◌, ◌∷◌, ℤ, pos, negsuc, Eq-String, not, true, false,
  length, ◌+◌,
}

-- A path in the directory of a snapshot.
unfoldable pub artifact_path : Settings → String → String → String
artifact_path cfg snap_id name =
    let sys = cfg.system in sys.join (sys.join cfg.paths.snapshot_dir snap_id) name

-- s.machines.Load
unfoldable pub require_tracked : String → Act (Unit {0})
require_tracked id s = if contains s.machines id then (ok tt, s) else (err 409, s)

unfoldable pub new_snapshot : Settings → String → String → Sandbox → ℕ → Snapshot
unfolding artifact_path
new_snapshot cfg snap_id id sb now = record {
  id = snap_id;
  source_id = id;
  tap_device = sb.tap_device;
  guest_ip = sb.guest_ip;
  mem_path = artifact_path cfg snap_id "mem.bin";
  state_path = artifact_path cfg snap_id "state.bin";
  rootfs_path = artifact_path cfg snap_id "rootfs.ext4";
  source_rootfs_path = sb.rootfs_path;
  created_at = now;
}

-- CleanupSnapshot, and then the deferred resume.
abbrev pub discard_and_resume : String → String → Host → Host
discard_and_resume snap_id id s = release (pause id) (release (artifacts snap_id) s)

unfoldable pub handle_snapshot : Settings → String → String → ℕ → Act Snapshot
unfolding require_tracked new_snapshot
handle_snapshot cfg snap_id id now = do
  sb ← registry 404 (get id)
  require_tracked id
  acquire (artifacts snap_id)
  acquire (pause id)
  on_error attempt (discard_and_resume snap_id id)
  on_error attempt (discard_and_resume snap_id id)
  λ s. (ok tt, release (pause id) s)
  on_error (registry 500 (create_snapshot (new_snapshot cfg snap_id id sb now)))
      (release (artifacts snap_id))
  pure (new_snapshot cfg snap_id id sb now)

-- handleRestore; the row comes first, since it shows that the tap and the address are free.
unfoldable pub handle_restore : Settings → String → String → ℕ → Option ℤ → Act Sandbox
handle_restore cfg id snap_id now body = do
  snap ← registry 404 (get_snapshot snap_id)
  expires_at ← lift (expiry_of now body)
  sb ← registry 409 (
      create_restore cfg.pools id snap.source_rootfs_path snap.tap_device snap.guest_ip expires_at
        now)
  on_error (acquire (disk sb.rootfs_path)) (rollback_pre_vm id sb)
  on_error (create_tap sb.tap_device) (rollback_pre_vm id sb)
  boot cfg id sb

-- StartClone of internal/vm/machine_linux.go: the wait for the API, the load of the snapshot, the
-- change of the disk, the identity and the resume. The process is killed if one of them fails.
abbrev pub process_started : String → Outcome → Act (Unit {0})
process_started id done s = (ok tt, record s { held = process id ∷ s.held })
process_started id _ s = (err 500, s)

-- cmd.Start, which leaves no process when it fails.
unfoldable pub start_process : String → Act (Unit {0})
start_process id s = process_started id (s.outcomes s.acts) (record s { acts = s.acts + 1 })

unfoldable pub start_clone : String → Act (Unit {0})
unfolding start_process
start_clone id = do
  start_process id
  on_error (do attempt; attempt; attempt; attempt; attempt) (release (process id))

unfoldable pub bring_up_clone : Settings → String → Option ℕ → ℕ → Act Sandbox
unfolding start_clone
bring_up_clone cfg id expires_at now = do
  sb ← registry 500 (create cfg.pools id (rootfs_path cfg.system cfg.paths id) expires_at now)
  on_error (acquire (disk sb.rootfs_path)) (rollback_pre_vm id sb)
  on_error (create_tap_unbridged sb.tap_device) (rollback_pre_vm id sb)
  on_error (start_clone id) (rollback_pre_vm id sb)
  pure sb

unfoldable pub finish_clone : Settings → String → Sandbox → Act (Unit {0})
unfolding add_port_forward
finish_clone cfg id sb = do
  on_error attempt (release (process id))
  on_error attempt (release (process id))
  on_error (add_port_forward cfg sb) (release (process id))
  on_error (registry 500 (finish_start id (cfg.pid_of id) (cfg.vm_id_of id) (cfg.socket_of id)))
      (release (process id))
  track id
  attempt

-- The two phases of handleFanout, over the ids of its clones.
abbrev pub brought_up :
    String → Result ℕ Sandbox → List (String × Sandbox) → List (String × Sandbox)
brought_up id (ok sb) clones = (id, sb) ∷ clones
brought_up id (err e) clones = clones

unfoldable pub bring_up_all :
    Settings → Option ℕ → ℕ → List String → Host → List (String × Sandbox) × Host
unfolding bring_up_clone
bring_up_all cfg expires_at now [] s = ([], s)
bring_up_all cfg expires_at now (id ∷ ids) s =
    let (r, s₁) = bring_up_clone cfg id expires_at now s in
    let (clones, s₂) = bring_up_all cfg expires_at now ids s₁ in (brought_up id r clones, s₂)

abbrev pub finished_or_destroyed :
    Settings → String → Sandbox → Result ℕ (Unit {0}) × Host → List Sandbox × Host
finished_or_destroyed cfg id sb (ok u, s) = (sb ∷ [], s)
finished_or_destroyed cfg id sb (err e, s) = ([], destroy_quietly cfg id s)

unfoldable pub finish_all : Settings → List (String × Sandbox) → Host → List Sandbox × Host
unfolding finish_clone
finish_all cfg [] s = ([], s)
finish_all cfg ((id, sb) ∷ clones) s =
    let (live, s₁) = finished_or_destroyed cfg id sb (finish_clone cfg id sb s) in
    let (rest, s₂) = finish_all cfg clones s₁ in (live ++ rest, s₂)

abbrev pub live_or_fail : List Sandbox → Result ℕ (List Sandbox)
live_or_fail [] = err 500
live_or_fail (sb ∷ sbs) = ok (sb ∷ sbs)

abbrev pub unstage : Bool → String → Host → Host
unstage true path s = s
unstage false path s = release (disk path) s

-- `staged` says whether the disk of the source is still there.
unfoldable pub fan_out :
    Settings → Bool → Snapshot → Option ℕ → ℕ → List String → Act (List Sandbox)
unfolding bring_up_all finish_all
fan_out cfg staged snap expires_at now ids = do
  if staged then pure tt else acquire (disk snap.source_rootfs_path)
  λ s.
      let (clones, s₁) = bring_up_all cfg expires_at now ids s in
      let (live, s₂) = finish_all cfg clones (unstage staged snap.source_rootfs_path s₁) in
      (live_or_fail live, s₂)

-- `ids` has an id for each clone that the body asks for.
unfoldable pub handle_fanout :
    Settings → Bool → (ℕ → List String) → String → ℕ → Option (ℤ × ℤ) → Act (List Sandbox)
unfolding fan_out
handle_fanout cfg staged ids snap_id now none = do registry 404 (get_snapshot snap_id); fail 400
handle_fanout cfg staged ids snap_id now (some (negsuc k, limit)) = do
  registry 404 (get_snapshot snap_id)
  fail 400
handle_fanout cfg staged ids snap_id now (some (pos n, limit)) = do
  snap ← registry 404 (get_snapshot snap_id)
  if ltb n 1 then fail 400 else pure tt
  expires_at ← lift (expiry_of now (some limit))
  fan_out cfg staged snap expires_at now (ids n)

unfoldable pub handle_list_snapshots : Act (List Snapshot)
handle_list_snapshots = registry 500 list_snapshots

unfoldable pub handle_delete_snapshot : String → Act (Unit {0})
handle_delete_snapshot snap_id = do
  registry 404 (delete_snapshot snap_id)
  λ s. (ok tt, release (artifacts snap_id) s)
