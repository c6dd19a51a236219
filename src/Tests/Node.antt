-- ===== src/Tests/Node.antt =====
-- internal/server and internal/client on a host with the default pools.
use Prim.Native.String.{◌++◌ as str_append}
use text.Mathlib.TextLemmas.{append_cancel_left, append_cancel_right}
use mathlib.Core.Bool.{false≢true}
use web_sandbox.Client.{
  Codec, Net, new_http, do_raw, checked, new_request, sandboxes_path, bearer, error_text,
}
use web_sandbox.Client.Streaming.{exec_stream_call}
use web_sandbox.Cli.Commands.Printed.{Printed}
use web_sandbox.Client.RoundTrip.{
  CutOff, Received, exec_stream_call-CutOff, exec_stream_call-Received,
}
use web_sandbox.Guest.Exec.{ExecRequest}
use web_sandbox.Guest.Stream.{
  Ended, ExecEvent, Read, exec_stream, exit_event, exit_code_of, interleave, stream,
}
use web_sandbox.Provisioner.Disks.{rootfs_path}
use web_sandbox.Registry.Engine.{is_running}
use web_sandbox.Registry.Invariant.{IsConsistent, empty_db, empty_db-IsConsistent}
use web_sandbox.Registry.Lifecycle.{Destroyed}
use web_sandbox.Registry.Ops.{has_expired}
use web_sandbox.Registry.Types.{Sandbox, SnapshotRow}
use web_sandbox.Server.Host.{Host, Settings, broken, done}
use web_sandbox.Server.Proxy.{WaitEnded, wait_for_agent, wait_for_agent-WaitEnded}
use web_sandbox.Server.Reaping.{reap, reconcile}
use web_sandbox.Server.Reaping.Rows.{reap-filter, reconcile-empty}
use web_sandbox.Server.Sandboxes.{destroy_sandbox, handle_create, running_as}
use web_sandbox.Server.Sandboxes.Answering.{Running}
use web_sandbox.Registry.Engine.Rules.{IsUnreadable, tick}
use web_sandbox.Server.Sandboxes.Creating.{NotCreated, handle_create-Running}
use web_sandbox.Server.Sandboxes.Destroying.{TornDown, destroy_sandbox-TornDown}
use web_sandbox.Server.Snapshots.{handle_fanout, handle_restore}
use web_sandbox.Server.Snapshots.Restoring.{NotRestored, Restored, handle_restore-Restored}
use web_sandbox.Server.Snapshots.Fanout.{OfSnapshot, SomeLive, Untouched, handle_fanout-FannedOut}
use web_sandbox.Server.Snapshots.Sparing.{HasOwnPaths}
use web_sandbox.Tests.Registry.{default_pools, used_conn, used_conn-IsConsistent}
use web_sandbox.Common.{
  Bool, Ends, List, Option, String, [], false, filter, if◌then◌else◌, map, nat_eq, none, not, ok,
  refl, some, true, ℕ, ◌&&◌, ◌∷◌, ◌≡◌, ◌⊎◌, ◌==◌, pos, ltb, leb, arith, Eq-String, Bool-cases,
  eq_iff, inl, inr, sym, ◌∙◌, take, Distinct, Distinct-cons, Distinct-nil, contains, find,
}

abbrev settings : Settings
settings = record {
  pools = default_pools;
  system = record {
    join = λ a b. str_append a (str_append "/" b);
    dir = λ p. "/r";
    to_lower = λ t. t;
    contains_text = λ t u. false;
    makes_dir = λ p. true;
    removes = λ p. true;
  };
  paths = record { rootfs_base = "/base"; rootfs_dir = "/r"; snapshot_dir = "/s" };
  guest_port = 3_000;
  pid_of = λ id. 77;
  vm_id_of = λ id. id;
  socket_of = λ id. "/tmp/s";
}

-- A host on which the ninth call of the provisioner and the vm package breaks off.
abbrev host : Host
host = record {
  conn = record used_conn { fails = λ n. false };
  held = [];
  stuck = [];
  machines = "b" ∷ [];
  outcomes = λ n. if nat_eq n 9 then broken else done;
  acts = 0;
}

handle_create-Running_example :
    Ends
      (λ sb' s'.
        (sb : Sandbox) × (sb' ≡ running_as settings "c" sb)
        × (sb.rootfs_path ≡ rootfs_path settings.system settings.paths "c")
        × Running settings "c" sb host s'.conn s')
      (λ _ s'. NotCreated settings "c" host s')
      (handle_create settings "c" 100 (some (pos 60)) host)
handle_create-Running_example =
    handle_create-Running settings "c" 100 (some (pos 60)) host used_conn-IsConsistent

destroy_sandbox-TornDown_example :
    Ends
      (λ _ s'. TornDown settings "b" host s' × Destroyed "b" host.conn.db s'.conn.db)
      (λ e s'.
        (s'.conn.db ≡ host.conn.db)
        × (((s'.held ≡ host.held)
              × (s'.machines ≡ host.machines)
              × IsUnreadable "b" host.conn
              × (s'.conn ≡ tick host.conn))
            ⊎ TornDown settings "b" host s'))
      (destroy_sandbox settings "b" host)
destroy_sandbox-TornDown_example = destroy_sandbox-TornDown settings "b" host

-- A host whose sandbox has gone and left a snapshot.
abbrev snapshot_host : Host
snapshot_host = record host {
  conn = record {
    db = record empty_db {
      snapshots =
          record {
            id = "n";
            source_id = "b";
            tap_device = "fc-tap1";
            guest_ip = "172.16.0.11";
            mem_path = "/s/n/mem.bin";
            state_path = "/s/n/state.bin";
            rootfs_path = "/s/n/rootfs.ext4";
            source_rootfs_path = "/r/b.ext4";
            created_at = 90;
          }
          ∷ [];
    };
    fails = λ n. false;
    calls = 0;
  };
}

snapshot_db-IsConsistent : IsConsistent snapshot_host.conn.db
snapshot_db-IsConsistent =
    let e = empty_db-IsConsistent in
    record { ids = e.ids; taps = e.taps; ips = e.ips; host_ports = e.host_ports; owned = e.owned }

handle_restore-Restored_example :
    Ends
      (λ sb' s'. Restored settings "d" "n" snapshot_host sb' s')
      (λ _ s'. NotRestored settings "d" "n" snapshot_host s')
      (handle_restore settings "d" "n" 100 (some (pos 0)) snapshot_host)
handle_restore-Restored_example =
    handle_restore-Restored settings "d" "n" 100 (some (pos 0)) snapshot_host
      snapshot_db-IsConsistent

has_own_paths : HasOwnPaths settings
unfolding rootfs_path
has_own_paths i j n =
    elim (Bool-cases (
      rootfs_path settings.system settings.paths i
      == rootfs_path settings.system settings.paths j)) [
        | inl same ↦
            let e : i ≡ j =
              append_cancel_right i j ".ext4"
                (append_cancel_left "/" _ _ (append_cancel_left "/r" _ _ ((eq_iff _ _).0 same))) in
            absurd (false≢true (sym n ∙ (eq_iff i j).1 e))
        | inr other ↦ other
      ]

-- The first ids of a list.
abbrev clone_ids : ℕ → List String
clone_ids n = take n ("x" ∷ "y" ∷ "z" ∷ [])

clone_ids-Distinct : Distinct {A = String} ("x" ∷ "y" ∷ [])
unfolding contains
clone_ids-Distinct = Distinct-cons "x" ("y" ∷ []) refl (Distinct-cons "y" [] refl Distinct-nil)

-- The source of the snapshot has the disk at `/r/b.ext4`.
clones_apart :
    (i : String) (r : SnapshotRow)
    → contains ("x" ∷ "y" ∷ []) i ≡ true
    → find (λ q. q.id == "n") snapshot_host.conn.db.snapshots ≡ some r
    → contains (r.source_rootfs_path ∷ []) (rootfs_path settings.system settings.paths i) ≡ false
unfolding contains find rootfs_path
clones_apart i r k h =
    let path : r.source_rootfs_path ≡ "/r/b.ext4" = ground arith in
    elim (Bool-cases (i == "x")) [
      | inl same ↦ let e : i ≡ "x" = (eq_iff i "x").0 same in rw (path, e) refl
      | inr other ↦
          let e : i ≡ "y" =
            (eq_iff i "y").0
              (ground (arith, eq_iff i "y", eq_iff "y" i, eq_iff "x" i, eq_iff i "x")) in
          rw (path, e) refl
    ]

handle_fanout-FannedOut_example :
    Ends
      (λ bs t.
        OfSnapshot settings false ("x" ∷ "y" ∷ []) "n" snapshot_host t
        × SomeLive settings has_own_paths ("x" ∷ "y" ∷ []) t bs)
      (λ _ t.
        Untouched snapshot_host t ⊎ OfSnapshot settings false ("x" ∷ "y" ∷ []) "n" snapshot_host t)
      (handle_fanout settings false clone_ids "n" 100 (some (pos 2, pos 60)) snapshot_host)
unfolding contains take
handle_fanout-FannedOut_example =
    handle_fanout-FannedOut settings has_own_paths false clone_ids "n" 100 (some (pos 2, pos 60))
      snapshot_host snapshot_db-IsConsistent clone_ids-Distinct (λ i k. refl) clones_apart

reap-filter_example :
    (reap settings 20_000_000_000 host).conn.db.sandboxes
    ≡ filter (λ r. not (is_running r && has_expired 20_000_000_000 r)) host.conn.db.sandboxes
reap-filter_example = reap-filter settings 20_000_000_000 host refl used_conn-IsConsistent

reconcile-empty_example : (reconcile settings (λ pid. true) host).conn.db.sandboxes ≡ []
reconcile-empty_example = reconcile-empty settings (λ pid. true) host refl

-- The third probe is answered with 200, and the deadline passes after the fifth.
abbrev probe : ℕ → Option ℕ
probe n = if ltb n 2 then none else some 200

abbrev expires : ℕ → Bool
expires n = leb 5 n

wait_for_agent-WaitEnded_example :
    (ready : Bool) × (wait_for_agent probe expires 9 ≡ some ready) × WaitEnded probe expires 0 ready
wait_for_agent-WaitEnded_example = wait_for_agent-WaitEnded probe expires 5 9 refl (omega arith)

-- A codec of events for lines of numbers: the first says what the event is.
abbrev marshal : ExecEvent → List ℕ
marshal e =
    if e.type == "stdout"
    then 1 ∷ e.data_
    else if e.type == "stderr"
    then 2 ∷ e.data_
    else (3 ∷ e.duration_ms ∷ [])

abbrev output : String → List ℕ → ExecEvent
output type bytes = record {
  type = type;
  data_ = bytes;
  exit_code = pos 0;
  timed_out = false;
  duration_ms = 0;
}

abbrev unmarshal : List ℕ → Option ExecEvent
unmarshal [] = none
unmarshal (t ∷ rest) =
    if nat_eq t 1
    then some (output "stdout" rest)
    else if nat_eq t 2
    then some (output "stderr" rest)
    else some (record (output "exit" []) { duration_ms = 12 })

abbrev out : List Read
out = record { bytes = 104 ∷ 105 ∷ []; failed = false } ∷ record { bytes = []; failed = true } ∷ []

abbrev err_ : List Read
err_ = record { bytes = 33 ∷ []; failed = true } ∷ []

abbrev ended : Ended
ended = record { ok_ = true; process_state = some (pos 0); timed_out = false; duration_ms = 12 }

abbrev events : List ExecEvent
events =
    output "stderr" (33 ∷ [])
    ∷ output "stdout" (104 ∷ 105 ∷ [])
    ∷ record (output "exit" []) { duration_ms = 12 }
    ∷ []

-- `lines` is what the body gives.
abbrev codec : List (List ℕ) → Codec
codec lines = record {
  error_of = λ b. "";
  sandbox = λ b. none;
  sandboxes = λ b. none;
  mapping = λ b. none;
  mappings = λ b. none;
  exec_result = λ b. none;
  create_body = λ n. "";
  port_body = λ p. "";
  exec_body = λ r. r.cmd;
  query = λ q. "";
  scan = λ b. (lines, false);
  trim = λ l. l;
  event = unmarshal;
}

abbrev net : Net
net r = some (record { status = 200; status_text = "200 OK"; body = "" })

abbrev request : ExecRequest
request = record { cmd = "ls"; cwd = ""; env = []; timeout_sec = pos 0 }

answered :
    (lines : List (List ℕ))
    → do_raw
        (codec lines)
        net
        (new_http "h:1" "t")
        "POST"
        (sandboxes_path "b" "/exec/stream")
        (some "ls")
      ≡ ok (record { status = 200; status_text = "200 OK"; body = "" })
unfolding do_raw checked new_request new_http bearer error_text
answered lines = refl

exec_stream_call-Received_example :
    Received out err_ ended (exec_stream (false ∷ []) out err_ ended) (
      exec_stream_call
        (codec (map marshal (exec_stream (false ∷ []) out err_ ended)))
        net
        (new_http "h:1" "t")
        "b"
        request)
unfolding exec_stream stream interleave exit_event exit_code_of
exec_stream_call-Received_example =
    exec_stream_call-Received (codec (map marshal (exec_stream (false ∷ []) out err_ ended))) net
      (new_http "h:1" "t") "b" request marshal
      (record { status = 200; status_text = "200 OK"; body = "" })
      (answered (map marshal (exec_stream (false ∷ []) out err_ ended))) (false ∷ []) out err_ ended
      refl ((refl, refl), ((refl, refl), ((refl, refl), tt)))

exec_stream_call-CutOff_example :
    CutOff
      (output "stderr" (33 ∷ []) ∷ [])
      false
      (exec_stream_call (codec ((2 ∷ 33 ∷ []) ∷ [])) net (new_http "h:1" "t") "b" request)
unfolding exec_stream stream interleave exit_event exit_code_of
exec_stream_call-CutOff_example =
    exec_stream_call-CutOff (codec ((2 ∷ 33 ∷ []) ∷ [])) net (new_http "h:1" "t") "b" request
      marshal (record { status = 200; status_text = "200 OK"; body = "" })
      (answered ((2 ∷ 33 ∷ []) ∷ [])) (false ∷ []) out err_ ended (output "stderr" (33 ∷ []) ∷ [])
      (output "stdout" (104 ∷ 105 ∷ [])) (record (output "exit" []) { duration_ms = 12 } ∷ []) false
      refl refl ((refl, refl), tt)
