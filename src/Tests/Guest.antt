-- ===== src/Tests/Guest.antt =====
-- cmd/sandboxd/main.go on small inputs.
use web_sandbox.Guest.Output.{
  write, text, write_all, empty_buffer, kept, text-write_all, CappedBuffer,
}
use web_sandbox.Guest.Exec.{
  ExecRequest, Run, Cmd, exec_timeout, Executed, handle_exec, handle_exec-Executed,
}
use web_sandbox.Guest.Stream.{Read, Ended, exec_stream, Streamed, exec_stream-Streamed}
use web_sandbox.Guest.Files.{
  FsError, not_exist, Entry, Listed, handle_list_dir, handle_list_dir-Listed,
}
use web_sandbox.Common.{
  ℕ, List, Result, String, [], err, false, length, refl, some, true, ◌∷◌, ◌≡◌, concat, pos,
  wrap_int64, ℤ, negsuc,
}

text-write_all_example :
    ((p : List ℕ) (c : CappedBuffer) → (write p c).0 ≡ length p)
    × (text (write_all ((1 ∷ 2 ∷ []) ∷ (3 ∷ []) ∷ []) empty_buffer)
        ≡ kept (concat ((1 ∷ 2 ∷ []) ∷ (3 ∷ []) ∷ [])))
text-write_all_example = text-write_all ((1 ∷ 2 ∷ []) ∷ (3 ∷ []) ∷ [])

abbrev request : ExecRequest
request = record { cmd = "ls"; cwd = ""; env = ("A", "1") ∷ []; timeout_sec = pos 5 }

-- A limit that is too large wraps round to one below zero.
long_timeout :
    exec_timeout (record request { timeout_sec = pos 9_223_372_037 })
    ≡ negsuc 9_223_372_036_709_551_615
unfolding exec_timeout wrap_int64
long_timeout = refl

abbrev ended : Ended
ended = record { ok_ = false; process_state = some (pos 2); timed_out = false; duration_ms = 4 }

abbrev run : Cmd → ℤ → Run
run c t = record { stdout = (65 ∷ []) ∷ []; stderr = []; ended = ended }

handle_exec-Executed_example :
    Executed true [] run (some request) (handle_exec true [] run (some request))
handle_exec-Executed_example = handle_exec-Executed true [] run (some request)

abbrev reads : List Read
reads = record { bytes = 65 ∷ []; failed = false } ∷ record { bytes = 66 ∷ []; failed = true } ∷ []

exec_stream-Streamed_example :
    Streamed reads reads ended (exec_stream (false ∷ true ∷ []) reads reads ended)
exec_stream-Streamed_example = exec_stream-Streamed (false ∷ true ∷ []) reads reads ended

abbrev missing : String → Result FsError (List Entry)
missing path = err not_exist

handle_list_dir-Listed_example : Listed "" missing (handle_list_dir missing "")
handle_list_dir-Listed_example = handle_list_dir-Listed missing ""
