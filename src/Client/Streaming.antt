-- ===== src/Client/Streaming.antt =====
-- internal/client/client.go: ExecStream, and what it makes of the stream of the guest's agent.
use web_sandbox.Client.{CallError, Client, Codec, Net, Response, do_raw, sandboxes_path}
use web_sandbox.Guest.Stream.{ExecEvent, joined, of_type}
use web_sandbox.Guest.Exec.{ExecRequest, ExecResult}
use web_sandbox.Common.{
  All, Bool, List, Option, Result, String, [], append_assoc, append_nil, ap, arith, err, false,
  if◌then◌else◌, length, map, nat_eq, none, ok, refl, some, sym, true, ℕ, ◌++◌, ◌==◌, ◌∙◌, ◌∷◌, ◌≡◌,
  pos, Eq-String, Bool-cases, eq_iff, inl, inr, ◌||◌, filter, concat,
}

-- The variables of the loop, and the events that onEvent was called with, the latest last.
pub record Progress : Type 0 where
  pub stdout : List ℕ
  pub stderr : List ℕ
  pub res : ExecResult
  pub saw_exit : Bool
  pub seen : List ExecEvent

unfoldable pub on_event : ExecEvent → Progress → Progress
on_event ev p =
    let q = record p { seen = p.seen ++ (ev ∷ []) } in
    if ev.type == "stdout"
    then (record q { stdout = p.stdout ++ ev.data_ })
    else if ev.type == "stderr"
    then (record q { stderr = p.stderr ++ ev.data_ })
    else if ev.type == "exit"
    then (record q {
      res = record p.res {
        exit_code = ev.exit_code;
        timed_out = ev.timed_out;
        duration_ms = ev.duration_ms;
      };
      saw_exit = true;
    })
    else q

pub data StreamError : Type 0 where
  call : CallError → StreamError
  decode_event : StreamError
  read_stream : StreamError
  no_exit_event : StreamError

-- Go's (ExecResult, error), with the events that onEvent was called with.
pub record Returned : Type 0 where
  pub result : ExecResult
  pub error : Option StreamError
  pub seen : List ExecEvent

-- The loop over the lines; `err` has the variables at the line that could not be decoded.
unfoldable pub scan_lines : Codec → List (List ℕ) → Progress → Result Progress Progress
unfolding on_event
scan_lines j [] p = ok p
scan_lines j (l ∷ ls) p =
    let line = j.trim l in
    let skipped = scan_lines j ls p in
    if nat_eq (length line) 0
    then skipped
    else (elim (j.event line) [ none ↦ err p | some ev ↦ scan_lines j ls (on_event ev p) ])

abbrev pub zero_result : ExecResult
zero_result = record {
  stdout = [];
  stderr = [];
  exit_code = pos 0;
  timed_out = false;
  duration_ms = 0;
}

abbrev pub started : Progress
started = record { stdout = []; stderr = []; res = zero_result; saw_exit = false; seen = [] }

unfoldable pub finish : Bool → Result Progress Progress → Returned
finish failed (err p) = record { result = p.res; error = some decode_event; seen = p.seen }
finish failed (ok p) = record {
  result = record p.res { stdout = p.stdout; stderr = p.stderr };
  error = if failed then some read_stream else if p.saw_exit then none else some no_exit_event;
  seen = p.seen;
}

unfoldable pub read_events : Codec → String → Returned
unfolding scan_lines finish
read_events j body = let (lines, failed) = j.scan body in finish failed (scan_lines j lines started)

abbrev pub streamed : Codec → Result CallError Response → Returned
streamed j (err e) = record { result = zero_result; error = some (call e); seen = [] }
streamed j (ok r) = read_events j r.body

-- ExecStream
unfoldable pub exec_stream_call : Codec → Net → Client → String → ExecRequest → Returned
unfolding read_events
exec_stream_call j net c id req =
    streamed j (do_raw j net c "POST" (sandboxes_path id "/exec/stream") (some (j.exec_body req)))

-- The variables after some events.
unfoldable pub after_events : List ExecEvent → Progress → Progress
unfolding on_event
after_events [] p = p
after_events (e ∷ es) p = after_events es (on_event e p)

pub not_both : (t a b : String) → (a == b) ≡ false → (t == a) ≡ true → (t == b) ≡ false
not_both t a b n h = ground (arith, eq_iff t a, eq_iff t b, eq_iff a b)

on_event-fields :
    (e : ExecEvent) (p : Progress)
    → ((on_event e p).stdout ≡ p.stdout ++ (if e.type == "stdout" then e.data_ else []))
      × ((on_event e p).stderr ≡ p.stderr ++ (if e.type == "stderr" then e.data_ else []))
      × ((on_event e p).seen ≡ p.seen ++ (e ∷ []))
      × ((on_event e p).saw_exit ≡ (p.saw_exit || e.type == "exit"))
unfolding on_event
on_event-fields e p = elim (Bool-cases (e.type == "stdout")) [
  | inl out ↦
      rw (out, not_both e.type "stdout" "stderr" refl out, not_both e.type "stdout" "exit" refl out)
        (refl, sym (append_nil p.stderr), refl, ground arith)
  | inr not_out ↦ elim (Bool-cases (e.type == "stderr")) [
    | inl err_ ↦
        rw (not_out, err_, not_both e.type "stderr" "exit" refl err_)
          (sym (append_nil p.stdout), refl, refl, ground arith)
    | inr not_err ↦ elim (Bool-cases (e.type == "exit")) [
      | inl exit ↦
          rw (not_out, not_err, exit)
            (sym (append_nil p.stdout), sym (append_nil p.stderr), refl, ground arith)
      | inr other ↦
          rw (not_out, not_err, other)
            (sym (append_nil p.stdout), sym (append_nil p.stderr), refl, ground arith)
    ]
  ]
]

joined-of_type :
    (t : String) (e : ExecEvent) (es : List ExecEvent)
    → joined (of_type t (e ∷ es)) ≡ (if e.type == t then e.data_ else []) ++ joined (of_type t es)
unfolding filter concat
joined-of_type t e es = elim (Bool-cases (e.type == t)) [
  | inl hit ↦ rw hit refl
  | inr miss ↦ rw miss refl
]

-- The events so far, in the variables.
pub after_events-fields :
    (es : List ExecEvent) (p : Progress)
    → ((after_events es p).stdout ≡ p.stdout ++ joined (of_type "stdout" es))
      × ((after_events es p).stderr ≡ p.stderr ++ joined (of_type "stderr" es))
      × ((after_events es p).seen ≡ p.seen ++ es)
unfolding after_events filter concat
after_events-fields [] p =
    (sym (append_nil p.stdout), sym (append_nil p.stderr), sym (append_nil p.seen))
after_events-fields (e ∷ es) p =
    let one = on_event-fields e p in
    let rest = after_events-fields es (on_event e p) in
    (
      rest.0
          ∙ ap (λ xs. xs ++ joined (of_type "stdout" es)) one.0
          ∙ append_assoc p.stdout _ _
          ∙ ap (λ xs. p.stdout ++ xs) (sym (joined-of_type "stdout" e es)),
      rest.1
          ∙ ap (λ xs. xs ++ joined (of_type "stderr" es)) one.1
          ∙ append_assoc p.stderr _ _
          ∙ ap (λ xs. p.stderr ++ xs) (sym (joined-of_type "stderr" e es)),
      rest.2 ∙ ap (λ xs. xs ++ es) one.2 ∙ append_assoc p.seen _ _,
    )

pub after_events-exit :
    (es : List ExecEvent) (p : Progress)
    → of_type "exit" es ≡ []
    → (after_events es p).saw_exit ≡ p.saw_exit
unfolding after_events filter
after_events-exit [] p h = refl
after_events-exit (e ∷ es) p h = elim (Bool-cases (e.type == "exit")) [
  | inl exit ↦ absurd (ground arith)
  | inr other ↦
      after_events-exit es (on_event e p) (ground arith)
      ∙ ground (arith, (on_event-fields e p).3, other)
]

pub after_events-append :
    (es fs : List ExecEvent) (p : Progress)
    → after_events (es ++ fs) p ≡ after_events fs (after_events es p)
unfolding after_events
after_events-append [] fs p = refl
after_events-append (e ∷ es) fs p = after_events-append es fs (on_event e p)

-- What encoding/json gives back of an event: the line is not empty, and it decodes to the event.
abbrev pub Decodes : Codec → (ExecEvent → List ℕ) → ExecEvent → Type 0
Decodes j marshal e =
    (nat_eq (length (j.trim (marshal e))) 0 ≡ false) × (j.event (j.trim (marshal e)) ≡ some e)

pub scan_lines-events :
    (j : Codec) (marshal : ExecEvent → List ℕ) (es : List ExecEvent) (p : Progress)
    → All (Decodes j marshal) es
    → scan_lines j (map marshal es) p ≡ ok (after_events es p)
unfolding scan_lines after_events
scan_lines-events j marshal [] p h = refl
scan_lines-events j marshal (e ∷ es) p h =
    rw (h.0.0, h.0.1) (scan_lines-events j marshal es (on_event e p) h.1)
