-- ===== src/Client/RoundTrip.antt =====
-- internal/client/client.go and cmd/sandboxd/main.go: ExecStream gives back what handleExecStream wrote.
use web_sandbox.Client.{Client, Codec, Net, Response, do_raw, sandboxes_path}
use web_sandbox.Client.Streaming.{
  Decodes, Returned, after_events, after_events-append, after_events-exit, after_events-fields,
  exec_stream_call, finish, no_exit_event, on_event, read_events, read_stream, scan_lines-events,
  started,
}
use web_sandbox.Guest.Exec.{ExecRequest}
use web_sandbox.Guest.Stream.{
  Ended, ExecEvent, Read, Streamed, bytes_read, exec_stream, exec_stream-Streamed, exit_code_of,
  exit_event, joined, of_type,
}
use web_sandbox.Common.{
  All, Bool, List, String, [], ap, arith, false, filter, if◌then◌else◌, map, none, ok, refl, some,
  sym, true, ℕ, ◌++◌, ◌==◌, ◌∙◌, ◌∷◌, ◌≡◌, Eq-String, Bool-cases, inl, inr,
}

-- The result of a stream that was read to its end.
pub record Received (out err_ : List Read) (ended : Ended) (events : List ExecEvent) (r : Returned)
    : Type 0 where
  pub no_error : r.error ≡ none
  pub every_event : r.seen ≡ events
  pub stdout_ : r.result.stdout ≡ bytes_read out
  pub stderr_ : r.result.stderr ≡ bytes_read err_
  pub exit_code : r.result.exit_code ≡ exit_code_of ended
  pub timed_out : r.result.timed_out ≡ ended.timed_out
  pub duration : r.result.duration_ms ≡ ended.duration_ms

finish-Received :
    (out err_ : List Read) (ended : Ended) (events : List ExecEvent)
    → Streamed out err_ ended events
    → Received out err_ ended events (finish false (ok (after_events events started)))
unfolding finish after_events on_event exit_event
finish-Received out err_ ended events s =
    let f = after_events-fields events started in
    let last : after_events events started
        ≡ on_event (exit_event ended) (after_events s.before started) =
      ap (λ es. after_events es started) s.last
      ∙ after_events-append s.before (exit_event ended ∷ []) started in
    record {
      no_error = rw last refl;
      every_event = f.2;
      stdout_ = f.0 ∙ s.stdout_;
      stderr_ = f.1 ∙ s.stderr_;
      exit_code = ap (λ p. p.res.exit_code) last;
      timed_out = ap (λ p. p.res.timed_out) last;
      duration = ap (λ p. p.res.duration_ms) last;
    }

-- The result of a stream that broke off.
pub record CutOff (es : List ExecEvent) (failed : Bool) (r : Returned) : Type 0 where
  pub error : r.error ≡ some (if failed then read_stream else no_exit_event)
  pub every_event : r.seen ≡ es
  pub stdout_ : r.result.stdout ≡ joined (of_type "stdout" es)
  pub stderr_ : r.result.stderr ≡ joined (of_type "stderr" es)

finish-CutOff :
    (es : List ExecEvent) (failed : Bool)
    → of_type "exit" es ≡ []
    → CutOff es failed (finish failed (ok (after_events es started)))
unfolding finish
finish-CutOff es true h =
    let f = after_events-fields es started in
    record { error = refl; every_event = f.2; stdout_ = f.0; stderr_ = f.1 }
finish-CutOff es false h =
    let f = after_events-fields es started in
    record {
      error = rw (after_events-exit es started h) refl;
      every_event = f.2;
      stdout_ = f.0;
      stderr_ = f.1;
    }

-- A part that is cut off before the end is a part of what comes before the last element.
part-before {ℓ} :
    {A : Type ℓ} (p : A → Bool) (es rest before : List A) (e last : A)
    → es ++ (e ∷ rest) ≡ before ++ (last ∷ [])
    → filter p before ≡ []
    → filter p es ≡ []
unfolding filter
part-before p [] rest before e last h k = refl
part-before p (x ∷ []) rest [] e last h k = cc
part-before p (x ∷ y ∷ es) rest [] e last h k = cc
part-before p (x ∷ es) rest (y ∷ before) e last h k =
    let same : x ≡ y = cc in
    let tails : es ++ (e ∷ rest) ≡ before ++ (last ∷ []) = cc in
    elim (Bool-cases (p y)) [
      | inl hit ↦ absurd (ground arith)
      | inr miss ↦
          let missed : p x ≡ false = ap p same ∙ miss in
          rw missed (part-before p es rest before e last tails (ground arith))
    ]

no_exit-cut :
    (schedule : List Bool) (out err_ : List Read) (ended : Ended) (es : List ExecEvent)
    (e : ExecEvent) (rest : List ExecEvent)
    → exec_stream schedule out err_ ended ≡ es ++ (e ∷ rest)
    → of_type "exit" es ≡ []
no_exit-cut schedule out err_ ended es e rest cut =
    let s = exec_stream-Streamed schedule out err_ ended in
    part-before (λ x. x.type == "exit") es rest s.before e (exit_event ended) (sym cut ∙ s.last)
      s.no_exit

module _ (j : Codec) (net : Net) (c : Client) (id : String) (req : ExecRequest)
    (marshal : ExecEvent → List ℕ) (r : Response)
    (answered : do_raw j net c "POST" (sandboxes_path id "/exec/stream") (some (j.exec_body req))
      ≡ ok r)
    (schedule : List Bool) (out err_ : List Read) (ended : Ended) where
  -- If the request is answered with the lines of a stream that the guest's agent wrote, in any schedule
  -- of its two goroutines, and each line decodes to the event that was written, then ExecStream
  -- returns no error, onEvent has been called with exactly the events in their order, and the result
  -- has all that the command wrote to standard output and to standard error up to an error of the
  -- pipe, its exit code, whether it timed out and its duration.
  pub exec_stream_call-Received :
      j.scan r.body ≡ (map marshal (exec_stream schedule out err_ ended), false)
      → All (Decodes j marshal) (exec_stream schedule out err_ ended)
      → Received out err_ ended
          (exec_stream schedule out err_ ended)
          (exec_stream_call j net c id req)
  unfolding exec_stream_call read_events
  exec_stream_call-Received scanned decodes =
      let events = exec_stream schedule out err_ ended in
      rw answered (
        rw scanned (
          rw (scan_lines-events j marshal events started decodes)
            (finish-Received out err_ ended events (exec_stream-Streamed schedule out err_ ended))))

  -- If the request is answered with a stream that the guest's agent wrote, each line decodes to the
  -- event that was written, but the body breaks off before the last event, then ExecStream returns an
  -- error: that of the reader if it reports one, and else that no exit event came. onEvent has been
  -- called with exactly the events that came, and the result has the output that they carry.
  pub exec_stream_call-CutOff :
      (es : List ExecEvent) (e : ExecEvent) (rest : List ExecEvent) (failed : Bool)
      → exec_stream schedule out err_ ended ≡ es ++ (e ∷ rest)
      → j.scan r.body ≡ (map marshal es, failed)
      → All (Decodes j marshal) es
      → CutOff es failed (exec_stream_call j net c id req)
  unfolding exec_stream_call read_events
  exec_stream_call-CutOff es e rest failed cut scanned decodes = rw answered (
      rw scanned (
        rw (scan_lines-events j marshal es started decodes)
          (finish-CutOff es failed (no_exit-cut schedule out err_ ended es e rest cut))))
