-- ===== src/Cli/Commands.antt =====
-- cmd/sandbox/stopserver.go and exec.go: the processes that are signalled, and what a command in a sandbox
-- prints and how the process exits then.
pub mod Printed
use Prim.Native.String.{◌++◌ as str_append}
use web_sandbox.Client.Streaming.{Returned, StreamError}
use web_sandbox.Guest.Exec.{ExecRequest, ExecResult}
use web_sandbox.Guest.Stream.{ExecEvent}
use web_sandbox.Server.Reaping.{Signal, sigterm, sigkill}
use web_sandbox.Common.Decimal.{itoa}
use web_sandbox.Common.{
  ℤ, pos, zero, Bool, List, Option, Result, String, [], err, false, if◌then◌else◌, nat_eq, none, ok,
  some, ℕ, ◌&&◌, ◌++◌, ◌==◌, ◌∷◌, Eq-String, true,
}

-- /proc: the entries with the process id that the name is, if it is one, and the arguments that the
-- split of its command line gives, if it can be read.
pub record Proc : Type 0 where
  pub entry_pid : Option ℕ
  pub argv : Option (List String)

-- len(argv) >= 2, strings.HasSuffix(argv[0], "sandbox") and argv[1] == "serve"
abbrev pub is_server : (String → String → Bool) → List String → Bool
is_server has_suffix [] = false
is_server has_suffix (a ∷ []) = false
is_server has_suffix (a ∷ b ∷ rest) = has_suffix a "sandbox" && (b == "serve")

abbrev pub server_pid : (String → String → Bool) → ℕ → Option ℕ → Option (List String) → List ℕ
server_pid has_suffix self none argv = []
server_pid has_suffix self (some id) none = []
server_pid has_suffix self (some id) (some argv) =
    if nat_eq id self then [] else if is_server has_suffix argv then id ∷ [] else []

unfoldable pub find_server_pids : (String → String → Bool) → ℕ → List Proc → List ℕ
find_server_pids has_suffix self [] = []
find_server_pids has_suffix self (p ∷ ps) =
    server_pid has_suffix self p.entry_pid p.argv ++ find_server_pids has_suffix self ps

-- Each server is signalled, until a signal fails: with SIGKILL if it is forced, and else with SIGTERM.
abbrev pub signalled :
    ℕ × Signal
    → Result String (Unit {0})
    → List (ℕ × Signal) × Result String (Unit {0})
    → List (ℕ × Signal) × Result String (Unit {0})
signalled (id, sig) (err e) rest =
    ([], err (str_append "kill " (str_append (itoa id) (str_append ": " e))))
signalled sent (ok u) (sents, r) = (sent ∷ sents, r)

unfoldable pub kill_all :
    (ℕ → Signal → Result String (Unit {0}))
    → Signal
    → List ℕ
    → List (ℕ × Signal) × Result String (Unit {0})
kill_all kill sig [] = ([], ok tt)
kill_all kill sig (id ∷ ids) =
    let rest = kill_all kill sig ids in signalled (id, sig) (kill id sig) rest

-- `procs` is what os.ReadDir and the reads of /proc give.
unfoldable pub stop_server :
    (String → String → Bool)
    → (ℕ → Signal → Result String (Unit {0}))
    → ℕ
    → Bool
    → Result String (List Proc)
    → List (ℕ × Signal) × Result String (Unit {0})
unfolding find_server_pids kill_all
stop_server has_suffix kill self force (err e) =
    ([], err (str_append "scan /proc (Linux only): " e))
stop_server has_suffix kill self force (ok procs) =
    kill_all kill (if force then sigkill else sigterm) (find_server_pids has_suffix self procs)

-- What a command writes, and how its process ends: an exit code that is not 0, an error that is
-- reported, or neither.
pub data Print : Type 0 where
  on_stdout : List ℕ → Print
  on_stderr : List ℕ → Print
  timeout_note : Print

pub data Exit (E : Type 0) : Type 0 where
  reported : E → Exit E
  exits : ℤ → Exit E
  returns : Exit E

-- `join` is strings.Join of the arguments after the id.
unfoldable pub exec_request :
    (List String → String → String) → List String → String → ℤ → ExecRequest
exec_request join args cwd timeout_sec = record {
  cmd = join args " ";
  cwd = cwd;
  timeout_sec = timeout_sec;
  env = [];
}

abbrev pub noted : Bool → List Print → List Print
noted true ps = ps ++ (timeout_note ∷ [])
noted false ps = ps

abbrev pub exit_with : {E : Type 0} → ℤ → Exit E
exit_with (pos zero) = returns
exit_with code = exits code

-- After the call, with what has been printed.
unfoldable pub after_exec : {E : Type 0} → ExecResult → List Print → List Print × Exit E
after_exec res ps = (noted res.timed_out ps, exit_with res.exit_code)

-- The command without --stream, from what Exec gives.
unfoldable pub run_exec : {E : Type 0} → Result E ExecResult → List Print × Exit E
unfolding after_exec
run_exec (err e) = ([], reported e)
run_exec (ok res) = after_exec res (on_stdout res.stdout ∷ on_stderr res.stderr ∷ [])

unfoldable pub printed_events : List ExecEvent → List Print
printed_events [] = []
printed_events (e ∷ es) =
    let rest = printed_events es in
    if e.type == "stdout"
    then on_stdout e.data_ ∷ rest
    else if e.type == "stderr"
    then on_stderr e.data_ ∷ rest
    else rest

-- With --stream: the events are printed as they come, whether or not ExecStream fails in the end.
unfoldable pub run_exec_stream : Returned → List Print × Exit StreamError
unfolding printed_events after_exec
run_exec_stream r = elim r.error [
  | some e ↦ (printed_events r.seen, reported e)
  | none ↦ after_exec r.result (printed_events r.seen)
]
