-- ===== src/Vm/Starting.antt =====
-- internal/vm/machine_linux.go: what StartClone has done when it returns, and what the agent in the
-- clone (cmd/sandboxd/thaw.go) then takes on.
use web_sandbox.Vm.{
  Vmm, CloneParams, Launch, RunOptions, RuntimeConfig, launched, configure, or_killed, killed_on,
  start_process, start_clone, apply_defaults, command_line,
}
use web_sandbox.Vm.Cloning.{
  clone_requests, SentSome, SentSome-nil, Sent, configure-Ends, IsAccepted,
}
use web_sandbox.Common.{
  Ends, Ends-bind, Ends-err, Ends-lift, Ends-mono, Ends-ok, EndsAt, List, Result, String, err,
  length, lift, none, ok, refl, some, sym, ℕ, ◌++◌, ◌+◌, ◌<◌, ◌∙◌, ◌≡◌,
}

launched-Ends :
    {Q : Unit {0} → Vmm → Type 0} {R : Vmm → Type 0} (words : List String) (s : Vmm)
    (r : Result String (Unit {0}))
    → Q tt (record s { running = some words })
    → R s
    → Ends Q (λ _ s'. R s') (launched words s r)
launched-Ends words s (ok u) q f = Ends-ok _ _ q
launched-Ends words s (err e) q f = Ends-err _ _ f

-- What failed has left no process, and the requests of a state in which `R` holds.
abbrev pub Killed : (Vmm → Type 0) → Vmm → Type 0
Killed R s' = (s'.running ≡ none) × ((t : Vmm) × R t × (t.requests ≡ s'.requests))

module _ (Q : Unit {0} → Vmm → Type 0) (R : Vmm → Type 0) where
  killed_on-at :
      (r : Result String (Unit {0})) (s : Vmm)
      → EndsAt Q (λ _ s'. R s') (r, s)
      → Ends Q (λ _ s'. Killed R s') (killed_on (r, s))
  killed_on-at (ok u) s h = Ends-ok _ _ h
  killed_on-at (err e) s h = Ends-err _ _ (refl, (s, h, refl))

-- A clone has started: the process runs with the options that were asked for or their defaults, and all
-- four requests were sent, in order, and accepted.
pub record Cloned (l : Launch) (opts : RunOptions) (c : CloneParams) (s : Vmm) (rt : RuntimeConfig)
    (s' : Vmm) : Type 0 where
  pub filled : RunOptions
  pub defaults_are : apply_defaults l opts ≡ ok filled
  pub process : s'.running ≡ some (command_line l filled)
  pub config : rt ≡ record { socket_path = filled.socket_path; vm_id = l.vm_id }
  pub requests_are : s'.requests ≡ s.requests ++ clone_requests c
  pub accepted : (k : ℕ) → k < 4 → IsAccepted (s.answers (length s.requests + k))

-- StartClone succeeds only if the process was started with the options asked for, or their defaults, and
-- the load of the snapshot, the change of the disk, the identity and the resume were sent in this order
-- and each was accepted; then the process runs. If it fails no process is left running, and what was sent
-- is the beginning of these four requests.
pub start_clone-Cloned :
    (l : Launch) (opts : RunOptions) (c : CloneParams) (s : Vmm)
    → s.running ≡ none
    → Ends
        (Cloned l opts c s)
        (λ _ s'. (s'.running ≡ none) × SentSome s (clone_requests c) s')
        (start_clone l opts c s)
unfolding start_clone start_process or_killed
start_clone-Cloned l opts c s idle = Ends-bind (lift (apply_defaults l opts)) _ s (
    Ends-lift (apply_defaults l opts) s
      (λ o filled.
        let words = command_line l o in
        let s₁ : Vmm = record s { running = some words } in
        Ends-bind (start_process l words) _ s (
          launched-Ends words s l.started
            (Ends-bind (or_killed (configure l c)) _ s₁ (
              Ends-mono _ _ _ _ _
                (killed_on-at (λ _ s'. Sent s₁ (clone_requests c) s')
                  (λ s'. SentSome s₁ (clone_requests c) s') (configure l c s₁).0
                  (configure l c s₁).1 (configure-Ends l c s₁).at)
                (λ _ _ h. Ends-ok _ _ (record {
                  filled = o;
                  defaults_are = filled;
                  process = h.running_is;
                  config = refl;
                  requests_are = h.requests_are;
                  accepted = h.accepted;
                }))
                (λ _ _ k. (
                  k.0,
                  record {
                    first = k.1.1.first;
                    rest = k.1.1.rest;
                    split = k.1.1.split;
                    requests_are = sym k.1.2 ∙ k.1.1.requests_are;
                  },
                ))))
            (idle, SentSome-nil s (clone_requests c))))
      (λ e _. (idle, SentSome-nil s (clone_requests c))))
