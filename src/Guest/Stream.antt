-- ===== src/Guest/Stream.antt =====
-- cmd/sandboxd/main.go: handleExecStream. Two goroutines write the events of the two pipes in any
-- interleaving, under a mutex: a schedule says whose event is next.
use web_sandbox.Common.{
  List, All, Bool, Bool-cases, Option, String, [], ap, false, filter, if◌then◌else◌, inl, inr,
  length, nat_eq, none, refl, some, true, ℕ, ◌++◌, ◌==◌, ◌∙◌, ◌∷◌, ◌≡◌, append_nil, Eq-String, map,
  concat, arith, sym, ℤ, pos, negsuc,
}

-- agentapi.ExecEvent
pub record ExecEvent : Type 0 where
  pub type : String
  pub data_ : List ℕ
  pub exit_code : ℤ
  pub timed_out : Bool
  pub duration_ms : ℕ

-- A read of a pipe: the bytes that it gave, and whether it reported an error, such as the end.
pub record Read : Type 0 where
  pub bytes : List ℕ
  pub failed : Bool

abbrev output_event : String → List ℕ → ExecEvent
output_event type bytes = record {
  type = type;
  data_ = bytes;
  exit_code = pos 0;
  timed_out = false;
  duration_ms = 0;
}

-- The loop of `stream`: an event for each read that gave bytes, up to an error.
unfoldable pub stream : String → List Read → List ExecEvent
stream type [] = []
stream type (r ∷ rs) =
    let rest = stream type rs in
    let after = if r.failed then [] else rest in
    if nat_eq (length r.bytes) 0 then after else output_event type r.bytes ∷ after

-- What the mutex lets through: `true` in the schedule is an event of the first.
unfoldable pub interleave : List Bool → List ExecEvent → List ExecEvent → List ExecEvent
interleave [] xs ys = xs ++ ys
interleave (s ∷ ss) [] ys = ys
interleave (s ∷ ss) (x ∷ xs) [] = x ∷ xs
interleave (true ∷ ss) (x ∷ xs) (y ∷ ys) = x ∷ interleave ss xs (y ∷ ys)
interleave (false ∷ ss) (x ∷ xs) (y ∷ ys) = y ∷ interleave ss (x ∷ xs) ys

-- What cmd.Wait and the context report at the end.
pub record Ended : Type 0 where
  pub ok_ : Bool
  pub process_state : Option ℤ
  pub timed_out : Bool
  pub duration_ms : ℕ

unfoldable pub exit_code_of : Ended → ℤ
exit_code_of e =
    if e.ok_ then pos 0 else elim e.process_state [ none ↦ negsuc 0 | some code ↦ code ]

unfoldable pub exit_event : Ended → ExecEvent
unfolding exit_code_of
exit_event e = record {
  type = "exit";
  data_ = [];
  exit_code = exit_code_of e;
  timed_out = e.timed_out;
  duration_ms = e.duration_ms;
}

unfoldable pub exec_stream : List Bool → List Read → List Read → Ended → List ExecEvent
unfolding stream interleave exit_event
exec_stream schedule out err_ ended =
    interleave schedule (stream "stdout" out) (stream "stderr" err_) ++ (exit_event ended ∷ [])

-- The events of a type.
abbrev pub of_type : String → List ExecEvent → List ExecEvent
of_type t = filter (λ e. e.type == t)

filter-append {ℓ} :
    {A : Type ℓ} (p : A → Bool) (xs ys : List A) → filter p (xs ++ ys) ≡ filter p xs ++ filter p ys
unfolding filter
filter-append p [] ys = refl
filter-append p (x ∷ xs) ys = elim (Bool-cases (p x)) [
  | inl yes_ ↦ rw yes_ (ap (λ zs. x ∷ zs) (filter-append p xs ys))
  | inr no_ ↦ rw no_ (filter-append p xs ys)
]

-- Where every element of one list fails the test, the interleaving has the other's, in its order.
module _ (p : ExecEvent → Bool) where
  filter-none : (xs : List ExecEvent) → All (λ x. p x ≡ false) xs → filter p xs ≡ []
  unfolding filter
  filter-none [] h = refl
  filter-none (x ∷ xs) h = rw h.0 (filter-none xs h.1)

  filter-interleave_left :
      (ss : List Bool) (xs ys : List ExecEvent)
      → All (λ y. p y ≡ false) ys
      → filter p (interleave ss xs ys) ≡ filter p xs
  unfolding filter interleave
  filter-interleave_left [] xs ys h =
      filter-append p xs ys
      ∙ ap (λ zs. filter p xs ++ zs) (filter-none ys h)
      ∙ append_nil (filter p xs)
  filter-interleave_left (s ∷ ss) [] ys h = filter-none ys h
  filter-interleave_left (s ∷ ss) (x ∷ xs) [] h = refl
  filter-interleave_left (true ∷ ss) (x ∷ xs) (y ∷ ys) h = elim (Bool-cases (p x)) [
    | inl yes_ ↦ rw yes_ (ap (λ zs. x ∷ zs) (filter-interleave_left ss xs (y ∷ ys) h))
    | inr no_ ↦ rw no_ (filter-interleave_left ss xs (y ∷ ys) h)
  ]
  filter-interleave_left (false ∷ ss) (x ∷ xs) (y ∷ ys) h =
      rw h.0 (filter-interleave_left ss (x ∷ xs) ys h.1)

  filter-interleave_right :
      (ss : List Bool) (xs ys : List ExecEvent)
      → All (λ x. p x ≡ false) xs
      → filter p (interleave ss xs ys) ≡ filter p ys
  unfolding filter interleave
  filter-interleave_right [] xs ys h =
      filter-append p xs ys ∙ ap (λ zs. zs ++ filter p ys) (filter-none xs h)
  filter-interleave_right (s ∷ ss) [] ys h = refl
  filter-interleave_right (s ∷ ss) (x ∷ xs) [] h = filter-none (x ∷ xs) h
  filter-interleave_right (true ∷ ss) (x ∷ xs) (y ∷ ys) h =
      rw h.0 (filter-interleave_right ss xs (y ∷ ys) h.1)
  filter-interleave_right (false ∷ ss) (x ∷ xs) (y ∷ ys) h = elim (Bool-cases (p y)) [
    | inl yes_ ↦ rw yes_ (ap (λ zs. y ∷ zs) (filter-interleave_right ss (x ∷ xs) ys h))
    | inr no_ ↦ rw no_ (filter-interleave_right ss (x ∷ xs) ys h)
  ]

  filter-every : (xs : List ExecEvent) → All (λ x. p x ≡ true) xs → filter p xs ≡ xs
  unfolding filter
  filter-every [] h = refl
  filter-every (x ∷ xs) h = rw h.0 (ap (λ zs. x ∷ zs) (filter-every xs h.1))

-- What follows a read: nothing after an error.
abbrev unless_failed : Bool → List ExecEvent → List ExecEvent
unless_failed failed es = if failed then [] else es

All-unless_failed :
    (P : ExecEvent → Type 0) (b : Bool) (es : List ExecEvent)
    → All P es
    → All P (unless_failed b es)
All-unless_failed P true es h = tt
All-unless_failed P false es h = h

stream-types :
    (t type : String) (b : Bool) (rs : List Read)
    → (type == t) ≡ b
    → All (λ e. (e.type == t) ≡ b) (stream type rs)
unfolding stream
stream-types t type b [] h = tt
stream-types t type b (r ∷ rs) h = elim (Bool-cases (nat_eq (length r.bytes) 0)) [
  | inl empty ↦
      rw empty (All-unless_failed _ r.failed (stream type rs) (stream-types t type b rs h))
  | inr some_ ↦
      rw some_ (h, All-unless_failed _ r.failed (stream type rs) (stream-types t type b rs h))
]

-- The bytes that a pipe gave up to an error.
pub bytes_read : List Read → List ℕ
bytes_read [] = []
bytes_read (r ∷ rs) = r.bytes ++ (if r.failed then [] else bytes_read rs)

-- The output in some events, joined.
abbrev pub joined : List ExecEvent → List ℕ
joined es = concat (map (λ e. e.data_) es)

length-zero : (xs : List ℕ) → length xs ≡ 0 → xs ≡ []
length-zero [] h = refl
length-zero (x ∷ xs) h = absurd (omega arith)

joined-unless_failed :
    (b : Bool) (es : List ExecEvent) (xs : List ℕ)
    → joined es ≡ xs
    → joined (unless_failed b es) ≡ (if b then [] else xs)
unfolding concat
joined-unless_failed true es xs h = refl
joined-unless_failed false es xs h = h

joined-stream : (type : String) (rs : List Read) → joined (stream type rs) ≡ bytes_read rs
unfolding stream bytes_read concat
joined-stream type [] = refl
joined-stream type (r ∷ rs) = elim (Bool-cases (nat_eq (length r.bytes) 0)) [
  | inl empty ↦ rw empty (
      joined-unless_failed r.failed (stream type rs) (bytes_read rs) (joined-stream type rs)
      ∙ ap (λ ys. ys ++ (if r.failed then [] else bytes_read rs))
          (sym (length-zero r.bytes (ground arith))))
  | inr some_ ↦ rw some_ (
      ap (λ ys. r.bytes ++ ys)
        (joined-unless_failed r.failed (stream type rs) (bytes_read rs) (joined-stream type rs)))
]

-- A stream of events of which `before` come before the last.
pub record Streamed (out err_ : List Read) (ended : Ended) (events : List ExecEvent) : Type 0 where
  pub before : List ExecEvent
  pub last : events ≡ before ++ (exit_event ended ∷ [])
  pub no_exit : of_type "exit" before ≡ []
  pub stdout_ : joined (of_type "stdout" events) ≡ bytes_read out
  pub stderr_ : joined (of_type "stderr" events) ≡ bytes_read err_

-- However the two goroutines are scheduled, a stream ends with its one exit event, and what its stdout
-- events carry is, in order, all that the command wrote to standard output up to an error of the
-- pipe, and its stderr events what it wrote to standard error.
pub exec_stream-Streamed :
    (schedule : List Bool) (out err_ : List Read) (ended : Ended)
    → Streamed out err_ ended (exec_stream schedule out err_ ended)
unfolding exec_stream exit_event filter
exec_stream-Streamed schedule out err_ ended =
    let outs = stream "stdout" out in
    let errs = stream "stderr" err_ in
    let mixed = interleave schedule outs errs in
    record {
      before = mixed;
      last = refl;
      no_exit =
          filter-interleave_left (λ e. e.type == "exit") schedule outs errs
            (stream-types "exit" "stderr" false err_ refl)
          ∙ filter-none (λ e. e.type == "exit") outs (stream-types "exit" "stdout" false out refl);
      stdout_ =
          ap joined (
            filter-append (λ e. e.type == "stdout") mixed _
            ∙ append_nil _
            ∙ filter-interleave_left (λ e. e.type == "stdout") schedule outs errs
                (stream-types "stdout" "stderr" false err_ refl)
            ∙ filter-every (λ e. e.type == "stdout") outs
                (stream-types "stdout" "stdout" true out refl))
          ∙ joined-stream "stdout" out;
      stderr_ =
          ap joined (
            filter-append (λ e. e.type == "stderr") mixed _
            ∙ append_nil _
            ∙ filter-interleave_right (λ e. e.type == "stderr") schedule outs errs
                (stream-types "stderr" "stdout" false out refl)
            ∙ filter-every (λ e. e.type == "stderr") errs
                (stream-types "stderr" "stderr" true err_ refl))
          ∙ joined-stream "stderr" err_;
    }
