-- ===== src/Guest/Exec.antt =====
-- cmd/sandboxd/main.go: handleExec and handleExecStream. What a command does is an argument: its
-- writes, or the reads of its pipes, and how it ended.
use Prim.Native.String.{◌++◌ as str_append}
use web_sandbox.Registry.Types.{second}
use web_sandbox.Guest.Output.{write_all, empty_buffer, text, kept, text-write_all}
use web_sandbox.Guest.Stream.{ExecEvent, Ended, Read, exec_stream}
use web_sandbox.Common.{
  ◌++◌, ℕ, Bool, List, Map, Option, String, [], false, if◌then◌else◌, ltb, map, none, not, refl,
  some, true, ◌&&◌, ◌*◌, ◌==◌, ◌∷◌, ◌≡◌, ◌≤◌, ℤ, pos, Eq-String, wrap_int64, negsuc, concat,
  Bool-cases, arith, eq_iff, inl, inr, wrap_int64_small, ◌⊎◌, ap, ◌<◌, ◌∙◌, ◌≢◌,
}

-- agentapi.ExecRequest
pub record ExecRequest : Type 0 where
  pub cmd : String
  pub cwd : String
  pub env : Map String
  pub timeout_sec : ℤ

-- agentapi.DefaultTimeout
abbrev pub default_timeout : ℕ
default_timeout = 60 * second

-- A time.Duration is an int64, so the product wraps round.
unfoldable pub exec_timeout : ExecRequest → ℤ
exec_timeout r = elim r.timeout_sec [
  | pos n ↦ if ltb 0 n then wrap_int64 (n * second) else pos default_timeout
  | negsuc n ↦ pos default_timeout
]

abbrev pub default_cwd : String
default_cwd = "/home/sandbox/app"

-- `has_default` says whether defaultCwd is there.
unfoldable pub working_dir : Bool → String → String
working_dir has_default requested =
    if requested == "" then (if has_default then default_cwd else "/") else requested

-- exec.Cmd, as buildCmd fills it.
pub record Cmd : Type 0 where
  pub path : String
  pub args : List String
  pub dir : String
  pub env : List String
  pub own_group : Bool

abbrev env_entry : String × String → String
env_entry (k, v) = str_append k (str_append "=" v)

unfoldable pub build_cmd : Bool → List String → ExecRequest → Cmd
unfolding working_dir
build_cmd has_default environ r = record {
  path = "/bin/bash";
  args = "-lc" ∷ r.cmd ∷ [];
  dir = working_dir has_default r.cwd;
  env = environ ++ map env_entry r.env;
  own_group = true;
}

-- agentapi.ExecResult
pub record ExecResult : Type 0 where
  pub stdout : List ℕ
  pub stderr : List ℕ
  pub exit_code : ℤ
  pub timed_out : Bool
  pub duration_ms : ℕ

pub data ExecReply : Type 0 where
  refused : ℕ → ExecReply
  completed : ExecResult → ExecReply
  streamed : List ExecEvent → ExecReply

-- cmd.Run: the writes of the command, and how it ended.
pub record Run : Type 0 where
  pub stdout : List (List ℕ)
  pub stderr : List (List ℕ)
  pub ended : Ended

-- The cases of the switch that have an exit code.
unfoldable pub final_code : Ended → Option ℤ
final_code e = if e.ok_ then some (pos 0) else e.process_state

abbrev result_of : Run → ℤ → ExecResult
result_of run code = record {
  stdout = text (write_all run.stdout empty_buffer);
  stderr = text (write_all run.stderr empty_buffer);
  exit_code = code;
  timed_out = run.ended.timed_out;
  duration_ms = run.ended.duration_ms;
}

unfoldable pub finish_exec : Run → Option ℤ → ExecReply
finish_exec run none = refused 500
finish_exec run (some code) = completed (result_of run code)

unfoldable pub handle_exec : Bool → List String → (Cmd → ℤ → Run) → Option ExecRequest → ExecReply
unfolding finish_exec
handle_exec has_default environ run none = refused 400
handle_exec has_default environ run (some r) =
    if r.cmd == ""
    then refused 400
    else let done = run (build_cmd has_default environ r) (exec_timeout r) in
      finish_exec done (final_code done.ended)

-- What a streamed command does: whether its pipes and its start succeed, the reads of the pipes, in
-- which order their events come, and how it ended.
pub record StreamRun : Type 0 where
  pub piped : Bool
  pub started : Bool
  pub stdout : List Read
  pub stderr : List Read
  pub schedule : List Bool
  pub ended : Ended

unfoldable pub handle_exec_stream :
    Bool → List String → Bool → (Cmd → ℤ → StreamRun) → Option ExecRequest → ExecReply
handle_exec_stream has_default environ flushes run none = refused 400
handle_exec_stream has_default environ flushes run (some r) =
    let done = run (build_cmd has_default environ r) (exec_timeout r) in
    if r.cmd == ""
    then refused 400
    else if not (flushes && (done.piped && done.started))
    then refused 500
    else streamed (exec_stream done.schedule done.stdout done.stderr done.ended)

-- A time limit of 1 to 9,223,372,036 seconds is met as it was asked for, and one of 0 is a minute.
pub exec_timeout_bounds :
    (r : ExecRequest) (n : ℕ)
    → r.timeout_sec ≡ pos n
    → n ≤ 9_223_372_036
    → exec_timeout r ≡ pos ((if ltb 0 n then n else 60) * second)
unfolding exec_timeout
exec_timeout_bounds r n e small =
    rw (e, exec_timeout) (ground (arith, wrap_int64_small (n * second)))

-- The result of a command that ran: its outputs, each cut at the limit, and how it ended.
pub record IsResult (done : Run) (res : ExecResult) : Type 0 where
  pub stdout : res.stdout ≡ kept (concat done.stdout)
  pub stderr : res.stderr ≡ kept (concat done.stderr)
  pub exit_code :
      ((done.ended.ok_ ≡ true) × (res.exit_code ≡ pos 0))
      ⊎ ((done.ended.ok_ ≡ false) × (done.ended.process_state ≡ some res.exit_code))
  pub timed_out : res.timed_out ≡ done.ended.timed_out

-- The time limit of a request: what it asks for, and a minute if it asks for none. One above 9,223,372,036
-- seconds overflows and is some other limit.
pub data IsLimit (asked : ℤ) (limit : ℤ) : Type 0 where
  asked_for :
      (n : ℕ)
      → asked ≡ pos n
      → 1 ≤ n
      → n ≤ 9_223_372_036
      → limit ≡ pos (n * second)
      → IsLimit asked limit
  zero_asked : asked ≡ pos 0 → limit ≡ pos (60 * second) → IsLimit asked limit
  below_zero : (n : ℕ) → asked ≡ negsuc n → limit ≡ pos (60 * second) → IsLimit asked limit
  overflowed : (n : ℕ) → asked ≡ pos n → 9_223_372_036 < n → IsLimit asked limit

-- The directory of a command: the one that was asked for, or else the default one, or the root where that
-- is missing.
pub data IsDir (has_default : Bool) (asked dir : String) : Type 0 where
  given : asked ≢ "" → dir ≡ asked → IsDir has_default asked dir
  default_there :
      asked ≡ "" → has_default ≡ true → dir ≡ "/home/sandbox/app" → IsDir has_default asked dir
  default_missing : asked ≡ "" → has_default ≡ false → dir ≡ "/" → IsDir has_default asked dir

-- The command that a request starts: bash, as a login shell, in the directory, in a process group of its
-- own, with the agent's environment before that of the request.
pub record IsCommand (has_default : Bool) (environ : List String) (r : ExecRequest) (c : Cmd)
    : Type 0 where
  pub path : c.path ≡ "/bin/bash"
  pub args : c.args ≡ "-lc" ∷ r.cmd ∷ []
  pub dir : IsDir has_default r.cwd c.dir
  pub env : c.env ≡ environ ++ map (λ entry. str_append entry.0 (str_append "=" entry.1)) r.env
  pub own_group : c.own_group ≡ true

-- What a request runs: its command, with its time limit.
pub record HasRun (has_default : Bool) (environ : List String) (run : Cmd → ℤ → Run)
    (r : ExecRequest) (done : Run) : Type 0 where
  pub cmd : Cmd
  pub limit : ℤ
  pub is_command : IsCommand has_default environ r cmd
  pub is_limit : IsLimit r.timeout_sec limit
  pub done_is : done ≡ run cmd limit

-- What an exec answers.
pub data Executed (has_default : Bool) (environ : List String) (run : Cmd → ℤ → Run)
    : Option ExecRequest → ExecReply → Type 0 where
  undecoded : Executed has_default environ run none (refused 400)
  no_command :
      (r : ExecRequest) → r.cmd ≡ "" → Executed has_default environ run (some r) (refused 400)
  not_started :
      (r : ExecRequest) (done : Run)
      → r.cmd ≢ ""
      → HasRun has_default environ run r done
      → done.ended.ok_ ≡ false
      → done.ended.process_state ≡ none
      → Executed has_default environ run (some r) (refused 500)
  ran :
      (r : ExecRequest) (done : Run) (res : ExecResult)
      → r.cmd ≢ ""
      → HasRun has_default environ run r done
      → IsResult done res
      → Executed has_default environ run (some r) (completed res)

exec_timeout-IsLimit : (r : ExecRequest) → IsLimit r.timeout_sec (exec_timeout r)
unfolding exec_timeout
exec_timeout-IsLimit r = go r.timeout_sec refl
  where
    go : (t : ℤ) → r.timeout_sec ≡ t → IsLimit t (exec_timeout r)
    go (negsuc n) e = below_zero n refl (rw (e, exec_timeout) refl)
    go (pos n) e = elim (Bool-cases (ltb 0 n)) [
      | inr none_ ↦
          let zero_ : n ≡ 0 = ground arith in
          zero_asked (ap pos zero_) (exec_timeout_bounds r 0 (e ∙ ap pos zero_) (omega arith))
      | inl some_ ↦ elim (Bool-cases (ltb 9_223_372_036 n)) [
        | inl large ↦ overflowed n refl (ground arith)
        | inr small ↦
            asked_for n refl (ground arith) (ground arith)
              (exec_timeout_bounds r n e (ground arith) ∙ rw some_ refl)
      ]
    ]

working_dir-IsDir :
    (has_default : Bool) (asked : String) → IsDir has_default asked (working_dir has_default asked)
unfolding working_dir
working_dir-IsDir has_default asked = elim (Bool-cases (asked == "")) [
  | inr named ↦ rw named (given (λ e. ground (arith, eq_iff asked "")) refl)
  | inl empty ↦ rw empty (elim (Bool-cases has_default) [
    | inl there ↦ rw there (default_there ((eq_iff asked "").0 empty) refl refl)
    | inr missing ↦ rw missing (default_missing ((eq_iff asked "").0 empty) refl refl)
  ])
]

ran_by :
    (has_default : Bool) (environ : List String) (run : Cmd → ℤ → Run) (r : ExecRequest)
    → HasRun has_default environ run r (run (build_cmd has_default environ r) (exec_timeout r))
unfolding build_cmd
ran_by has_default environ run r = record {
  cmd = build_cmd has_default environ r;
  limit = exec_timeout r;
  is_command = record {
    path = refl;
    args = refl;
    dir = working_dir-IsDir has_default r.cwd;
    env = refl;
    own_group = refl;
  };
  is_limit = exec_timeout-IsLimit r;
  done_is = refl;
}

finish_exec-Executed :
    (has_default : Bool) (environ : List String) (run : Cmd → ℤ → Run) (r : ExecRequest)
    (done : Run) (o : Option ℤ)
    → r.cmd ≢ ""
    → HasRun has_default environ run r done
    → final_code done.ended ≡ o
    → Executed has_default environ run (some r) (finish_exec done o)
unfolding finish_exec final_code
finish_exec-Executed has_default environ run r done none n d e =
    not_started r done n d (ground arith) (ground arith)
finish_exec-Executed has_default environ run r done (some code) n d e =
    ran r done (result_of done code) n d (record {
      stdout = (text-write_all done.stdout).1;
      stderr = (text-write_all done.stderr).1;
      exit_code = elim (Bool-cases done.ended.ok_) [
        | inl good ↦ inl (good, ground arith)
        | inr bad ↦ inr (bad, ground arith)
      ];
      timed_out = refl;
    })

-- A request that cannot be decoded or has no command is refused with 400. For any other,
-- bash runs the command in the directory of the request, or else in the default one or the root, with
-- the environment of the request after the agent's, and with the time limit of the request, a minute
-- where it asks for none, if that is at most 9,223,372,036 seconds. If the command never started the answer
-- is 500, and else its exit code, 0 for a success, and each of its two outputs, whole or cut at
-- MaxOutputBytes with a notice.
pub handle_exec-Executed :
    (has_default : Bool) (environ : List String) (run : Cmd → ℤ → Run) (req : Option ExecRequest)
    → Executed has_default environ run req (handle_exec has_default environ run req)
unfolding handle_exec
handle_exec-Executed has_default environ run none = undecoded
handle_exec-Executed has_default environ run (some r) = elim (Bool-cases (r.cmd == "")) [
  | inl empty ↦ rw empty (no_command r ((eq_iff r.cmd "").0 empty))
  | inr given_ ↦ rw given_ (
      finish_exec-Executed has_default environ run r _ _ (λ e. ground (arith, eq_iff r.cmd ""))
        (ran_by has_default environ run r) refl)
]
