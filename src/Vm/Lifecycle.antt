-- ===== src/Vm/Lifecycle.antt =====
-- internal/vm/machine_linux.go: the lifecycle of a machine, which is one of the SDK or a clone's
-- process. What the SDK and the signals answer is an argument: a function from the number of the call.
pub mod Requests
use web_sandbox.Common.{
  Option, Result, String, List, Exec, [], err, fail, length, lift, none, ok, pure, some, ℕ, ◌++◌,
  ◌∷◌, All, ◌≡◌, refl, subst, sym, not,
}

-- What is asked of the SDK's machine or the process.
pub data MachineCall : Type 0 where
  start_vm : MachineCall
  stop_vmm : MachineCall
  shutdown_vm : MachineCall
  wait_vm : MachineCall
  pid_of_vm : MachineCall
  pause_vm : MachineCall
  resume_vm : MachineCall
  write_snapshot : String → String → MachineCall
  sigterm : ℕ → MachineCall

-- rawMachine: cmd.Process, if it was started, and waitErr, if a wait finds doneCh closed.
pub record RawMachine : Type 0 where
  pub process : Option ℕ
  pub ended : Option (Result String (Unit {0}))

-- The embedded machine of the SDK, if there is one, by its process id, and the raw one.
pub record Machine : Type 0 where
  pub sdk : Option (Result String ℕ)
  pub raw : Option RawMachine

pub record Asked : Type 0 where
  pub sent : List MachineCall
  pub answers : ℕ → Result String (Unit {0})

abbrev pub Action : Type 0 → Type 0
Action A = Exec Asked String A

unfoldable pub ask : MachineCall → Action (Unit {0})
ask r s = (s.answers (length s.sent), record s { sent = s.sent ++ (r ∷ []) })

abbrev pub nil_machine : {A : Type 0} → Action A
nil_machine = fail "nil machine"

-- The calls that go to the SDK's machine, or fail.
abbrev pub if_sdk : Option (Result String ℕ) → Action (Unit {0}) → MachineCall → Action (Unit {0})
if_sdk none otherwise r = otherwise
if_sdk (some id) otherwise r = ask r

unfoldable pub by_sdk : MachineCall → Option Machine → Action (Unit {0})
by_sdk r none = nil_machine
by_sdk r (some m) = if_sdk m.sdk nil_machine r

unfoldable pub start : Option Machine → Action (Unit {0})
start m = by_sdk start_vm m

unfoldable pub pause : Option Machine → Action (Unit {0})
pause m = by_sdk pause_vm m

unfoldable pub resume : Option Machine → Action (Unit {0})
resume m = by_sdk resume_vm m

unfoldable pub snapshot : Option Machine → String → String → Action (Unit {0})
snapshot m mem_path state_path = by_sdk (write_snapshot mem_path state_path) m

abbrev pub terminate : Option ℕ → Action (Unit {0})
terminate none = pure tt
terminate (some id) = ask (sigterm id)

-- StopForce of a machine that is there.
abbrev pub stop_one : Option RawMachine → Machine → Action (Unit {0})
stop_one (some raw) m = terminate raw.process
stop_one none m = if_sdk m.sdk (pure tt) stop_vmm

unfoldable pub stop_force : Option Machine → Action (Unit {0})
stop_force none = pure tt
stop_force (some m) = stop_one m.raw m

abbrev pub shut_down_one : Option RawMachine → Machine → Action (Unit {0})
shut_down_one (some raw) m = stop_force (some m)
shut_down_one none m = by_sdk shutdown_vm (some m)

unfoldable pub shutdown_guest : Option Machine → Action (Unit {0})
shutdown_guest none = nil_machine
shutdown_guest (some m) = shut_down_one m.raw m

-- The select of Wait, whose context is done if it does not find doneCh closed; `cause` is ctx.Err.
abbrev pub exit_of : Option (Result String (Unit {0})) → String → Result String (Unit {0})
exit_of (some how) cause = how
exit_of none cause = err cause

abbrev pub wait_one : Option RawMachine → Machine → String → Action (Unit {0})
wait_one (some raw) m cause = lift (exit_of raw.ended cause)
wait_one none m cause = by_sdk wait_vm (some m)

unfoldable pub wait : Option Machine → String → Action (Unit {0})
wait none cause = nil_machine
wait (some m) cause = wait_one m.raw m cause

abbrev pub or_error : {A : Type 0} → String → Option A → Result String A
or_error e (some a) = ok a
or_error e none = err e

abbrev pub flat : Option (Result String ℕ) → Result String ℕ
flat (some r) = r
flat none = err "nil machine"

abbrev pub pid_of_one : Option RawMachine → Machine → Result String ℕ
pid_of_one (some raw) m = or_error "clone process not started" raw.process
pid_of_one none m = flat m.sdk

unfoldable pub pid_of : Option Machine → Result String ℕ
pid_of none = err "nil machine"
pid_of (some m) = pid_of_one m.raw m

pub data Op : Type 0 where
  starts : Op
  stops : Op
  shuts_down : Op
  waits : String → Op
  pauses : Op
  resumes : Op
  snapshots : String → String → Op

unfoldable pub apply : Option Machine → Op → Action (Unit {0})
apply m starts = start m
apply m stops = stop_force m
apply m shuts_down = shutdown_guest m
apply m (waits cause) = wait m cause
apply m pauses = pause m
apply m resumes = resume m
apply m (snapshots mem_path state_path) = snapshot m mem_path state_path

-- The calls for one machine, one after the other, whatever each reports.
unfoldable pub after_ops : Option Machine → List Op → Asked → Asked
after_ops m [] s = s
after_ops m (op ∷ ops) s = after_ops m ops (apply m op s).1
