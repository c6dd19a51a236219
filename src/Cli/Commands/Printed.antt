-- ===== src/Cli/Commands/Printed.antt =====
-- cmd/sandbox/exec.go with --stream, over the client and the guest's agent.
use web_sandbox.Cli.Commands.{Exit, Print, exit_with, noted, on_stderr, on_stdout, timeout_note}
use web_sandbox.Client.{Client}
use web_sandbox.Client.Streaming.{StreamError}
use web_sandbox.Guest.Stream.{Ended, Read, bytes_read, exit_code_of}
use web_sandbox.Common.{List, [], ◌∷◌, ◌++◌, ◌≡◌, ℕ, Eq-String}

-- What was printed on standard output and on standard error, but for the note.
abbrev pub stdout_of : List Print → List ℕ
stdout_of [] = []
stdout_of (on_stdout bytes ∷ ps) = bytes ++ stdout_of ps
stdout_of (on_stderr bytes ∷ ps) = stdout_of ps
stdout_of (timeout_note ∷ ps) = stdout_of ps

abbrev pub stderr_of : List Print → List ℕ
stderr_of [] = []
stderr_of (on_stdout bytes ∷ ps) = stderr_of ps
stderr_of (on_stderr bytes ∷ ps) = bytes ++ stderr_of ps
stderr_of (timeout_note ∷ ps) = stderr_of ps

-- What a command has printed, and how its process has ended.
pub record Printed (out err_ : List Read) (ended : Ended) (r : List Print × Exit StreamError)
    : Type 0 where
  pub output : List Print
  pub all_of : r.0 ≡ noted ended.timed_out output
  pub stdout_ : stdout_of output ≡ bytes_read out
  pub stderr_ : stderr_of output ≡ bytes_read err_
  pub exit : r.1 ≡ exit_with (exit_code_of ended)
