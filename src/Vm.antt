-- ===== src/Vm.antt =====
-- internal/vm/machine_linux.go and options.go: StartClone, which starts a clone from a snapshot through
-- the API of Firecracker. What each request is answered is an argument: a function from its number.
pub mod Cloning
pub mod Identities
pub mod Starting
pub mod Machine
pub mod Lifecycle
use Prim.Native.String.{◌++◌ as str_append}
use web_sandbox.Common.Decimal.{itoa}
use web_sandbox.Common.{
  ◌++◌, ℕ, zero, suc, ◌+◌, Bool, Exec, List, Option, Result, String, [], err, false, fail,
  if◌then◌else◌, leb, length, lift, none, ok, pure, some, ◌==◌, ◌>>=◌, ◌>>◌, ◌∷◌, ℤ, Eq-String,
}
use web_sandbox.Guest.Files.{File}

pub record RunOptions : Type 0 where
  pub firecracker_bin : String
  pub socket_path : String
  pub kernel_image : String
  pub rootfs_path : String
  pub kernel_args : String
  pub vcpus : ℤ
  pub mem_mib : ℤ
  pub log_dir : String
  pub tap_device : String
  pub mac_address : String
  pub guest_cidr : String
  pub gateway_ip : String
  pub nameservers : String
  pub snapshot_mem_path : String
  pub snapshot_state_path : String

pub record RuntimeConfig : Type 0 where
  pub socket_path : String
  pub vm_id : String

pub record CloneParams : Type 0 where
  pub mem_path : String
  pub state_path : String
  pub clone_rootfs_path : String
  pub tap_device : String
  pub guest_ip : String
  pub mac_address : String
  pub gateway_ip : String
  pub prefix : ℕ
  pub gen : String

-- The fields of a body, which encoding/json writes.
pub data Value : Type 0 where
  string : String → Value
  flag : Bool → Value
  object : List (String × String) → Value
  objects : List (List (String × String)) → Value

pub record ApiRequest : Type 0 where
  pub method : String
  pub path : String
  pub body : List (String × Value)

pub data ApiAnswer : Type 0 where
  unanswered : String → ApiAnswer
  answered : ℕ → String → ApiAnswer

-- The command line of the Firecracker process while it runs, and the requests that were sent to it.
pub record Vmm : Type 0 where
  pub running : Option (List String)
  pub requests : List ApiRequest
  pub answers : ℕ → ApiAnswer

abbrev pub Call : Type 0 → Type 0
Call A = Exec Vmm String A

abbrev pub and_sent : ApiRequest → Vmm → Vmm
and_sent r s = record s { requests = s.requests ++ (r ∷ []) }

-- A round of waitAPI: the API answered, the deadline has passed, the context is done, or it sleeps.
pub data Poll : Type 0 where
  up : Poll
  late : Poll
  cancelled : String → Poll
  asleep : Poll

-- What StartClone takes from outside: os.TempDir, filepath.Join, strings.TrimSpace, the two UUIDs, how
-- cmd.Start ends, and the rounds of waitAPI.
pub record Launch : Type 0 where
  pub temp_dir : String
  pub join : String → String → String
  pub trim_space : String → String
  pub socket_id : Result String String
  pub vm_id : String
  pub started : Result String (Unit {0})
  pub polls : ℕ → Poll

abbrev pub with_error : {A : Type 0} → String → Result String A → Result String A
with_error label (ok a) = ok a
with_error label (err e) = err (str_append label (str_append ": " e))

-- fmt.Errorf("label: %w", err)
unfoldable pub wrapped : {A : Type 0} → String → Call A → Call A
wrapped label m s = (with_error label (m s).0, (m s).1)

unfoldable pub socket_path_of : Launch → String → Result String String
socket_path_of l path =
    if path == ""
    then elim l.socket_id [
      | ok id ↦ ok (l.join l.temp_dir (str_append "sandbox-" (str_append id ".sock")))
      | err e ↦ err e
    ]
    else ok path

abbrev pub with_defaults : Launch → RunOptions → Result String String → Result String RunOptions
with_defaults l o (ok path) = ok (record o {
  firecracker_bin = if o.firecracker_bin == "" then "firecracker" else o.firecracker_bin;
  socket_path = path;
  log_dir = if o.log_dir == "" then l.temp_dir else o.log_dir;
})
with_defaults l o (err e) = err e

unfoldable pub apply_defaults : Launch → RunOptions → Result String RunOptions
unfolding socket_path_of
apply_defaults l o = with_defaults l o (socket_path_of l o.socket_path)

abbrev pub answer_of : Launch → ApiRequest → ApiAnswer → Result String (Unit {0})
answer_of l r (unanswered e) = err e
answer_of l r (answered status body) =
    if leb 400 status
    then err (
        str_append r.method (
          str_append " " (
            str_append r.path (
              str_append " -> HTTP "
                (str_append (itoa status) (str_append ": " (l.trim_space body)))))))
    else ok tt

unfoldable pub fc_api : Launch → ApiRequest → Call (Unit {0})
fc_api l r s = (answer_of l r (s.answers (length s.requests)), and_sent r s)

-- A round that goes on sleeps for 10 ms, so that after 501 rounds the 5 s of the deadline have passed.
unfoldable pub wait_polls : (ℕ → Poll) → ℕ → ℕ → Result String (Unit {0})
wait_polls polls zero n = err "timeout"
wait_polls polls (suc fuel) n =
    let again = wait_polls polls fuel (n + 1) in
    elim (polls n) [ up ↦ ok tt | late ↦ err "timeout" | cancelled e ↦ err e | asleep ↦ again ]

unfoldable pub wait_api : Launch → Result String (Unit {0})
unfolding wait_polls
wait_api l = wait_polls l.polls 501 0

unfoldable pub load_request : CloneParams → ApiRequest
load_request c = record {
  method = "PUT";
  path = "/snapshot/load";
  body =
      ("snapshot_path", string c.state_path)
      ∷ ("mem_backend", object (("backend_type", "File") ∷ ("backend_path", c.mem_path) ∷ []))
      ∷ ("enable_diff_snapshots", flag false)
      ∷ ("resume_vm", flag false)
      ∷ (
        "network_overrides",
        objects ((("iface_id", "1") ∷ ("host_dev_name", c.tap_device) ∷ []) ∷ []),
      )
      ∷ [];
}

unfoldable pub drive_request : CloneParams → ApiRequest
drive_request c = record {
  method = "PATCH";
  path = "/drives/rootfs";
  body = ("drive_id", string "rootfs") ∷ ("path_on_host", string c.clone_rootfs_path) ∷ [];
}

unfoldable pub mmds_request : CloneParams → ApiRequest
mmds_request c = record {
  method = "PUT";
  path = "/mmds";
  body =
      ("ip", string c.guest_ip)
      ∷ ("mac", string c.mac_address)
      ∷ ("gw", string c.gateway_ip)
      ∷ ("prefix", string (itoa c.prefix))
      ∷ ("gen", string c.gen)
      ∷ [];
}

abbrev pub resume_request : ApiRequest
resume_request = record { method = "PATCH"; path = "/vm"; body = ("state", string "Resumed") ∷ [] }

abbrev pub launched : List String → Vmm → Result String (Unit {0}) → Result String (Unit {0}) × Vmm
launched words s (ok u) = (ok tt, record s { running = some words })
launched words s (err e) = (err (str_append "start firecracker: " e), s)

-- cmd.Start
unfoldable pub start_process : Launch → List String → Call (Unit {0})
start_process l words s = launched words s l.started

abbrev pub killed_on : {A : Type 0} → Result String A × Vmm → Result String A × Vmm
killed_on (ok a, s) = (ok a, s)
killed_on (err e, s) = (err e, record s { running = none })

-- The deferred function, which kills the process if there is an error.
unfoldable pub or_killed : {A : Type 0} → Call A → Call A
or_killed m s = killed_on (m s)

unfoldable pub configure : Launch → CloneParams → Call (Unit {0})
unfolding wrapped fc_api wait_api load_request drive_request mmds_request
configure l c = do
  wrapped "firecracker API never came up" (lift (wait_api l))
  wrapped "load snapshot" (fc_api l (load_request c))
  wrapped "relocate rootfs" (fc_api l (drive_request c))
  wrapped "set mmds" (fc_api l (mmds_request c))
  wrapped "resume" (fc_api l resume_request)

abbrev pub command_line : Launch → RunOptions → List String
command_line l o =
    o.firecracker_bin ∷ "--api-sock" ∷ o.socket_path ∷ "--id" ∷ l.vm_id ∷ "--no-seccomp" ∷ []

unfoldable pub start_clone : Launch → RunOptions → CloneParams → Call RuntimeConfig
unfolding apply_defaults start_process or_killed configure
start_clone l opts c = do
  o ← lift (apply_defaults l opts)
  start_process l (command_line l o)
  or_killed (configure l c)
  pure (record { socket_path = o.socket_path; vm_id = l.vm_id })
