-- ===== src/Vm/Cloning.antt =====
-- internal/vm/machine_linux.go: which requests StartClone sends to the API of Firecracker.
use web_sandbox.Vm.{
  Vmm, ApiAnswer, unanswered, answered, ApiRequest, CloneParams, Launch, Call, and_sent, answer_of,
  with_error, wrapped, fc_api, load_request, drive_request, mmds_request, resume_request, wait_api,
  configure,
}
use web_sandbox.Common.{
  Bool-cases, Ends, Ends-lift, EndsAt, List, Result, String, [], ap, err, inl, inr, length,
  length-append, nat_eq, nat_eq_iff, ok, subst, sym, ℕ, ◌++◌, ◌+◌, ◌<◌, ◌∙◌, ◌∷◌, ◌≡◌, append_assoc,
  Bool, arith, false, ltb, true, Ends-bind, Ends-mono, lift, refl, append_nil, ◌>>◌,
}

-- What counts as success: a status below 400.
abbrev pub is_accepted : ApiAnswer → Bool
is_accepted (unanswered e) = false
is_accepted (answered status body) = ltb status 400

abbrev pub IsAccepted : ApiAnswer → Type 0
IsAccepted a = is_accepted a ≡ true

-- `rs` were sent after what `s₀` had sent, and all of them were accepted.
pub record Sent (s₀ : Vmm) (rs : List ApiRequest) (s : Vmm) : Type 0 where
  pub requests_are : s.requests ≡ s₀.requests ++ rs
  pub answers_are : s.answers ≡ s₀.answers
  pub running_is : s.running ≡ s₀.running
  pub accepted : (k : ℕ) → k < length rs → IsAccepted (s₀.answers (length s₀.requests + k))

-- The first of `rs` were sent.
pub record SentSome (s₀ : Vmm) (rs : List ApiRequest) (s : Vmm) : Type 0 where
  pub first : List ApiRequest
  pub rest : List ApiRequest
  pub split : rs ≡ first ++ rest
  pub requests_are : s.requests ≡ s₀.requests ++ first

Sent-and_sent :
    (s₀ s : Vmm) (rs : List ApiRequest) (r : ApiRequest)
    → Sent s₀ rs s
    → IsAccepted (s.answers (length s.requests))
    → Sent s₀ (rs ++ (r ∷ [])) (and_sent r s)
Sent-and_sent s₀ s rs r h a =
    let count : length s.requests ≡ length s₀.requests + length rs =
      ap length h.requests_are ∙ length-append s₀.requests rs in
    let newest : IsAccepted (s₀.answers (length s₀.requests + length rs)) =
      subst IsAccepted (ap (λ f. f (length s.requests)) h.answers_are ∙ ap s₀.answers count) a in
    record {
      requests_are = ap (λ q. q ++ (r ∷ [])) h.requests_are ∙ append_assoc s₀.requests rs (r ∷ []);
      answers_are = h.answers_are;
      running_is = h.running_is;
      accepted = λ k lt. elim (Bool-cases (nat_eq k (length rs))) [
        | inl same ↦
            subst (λ j. IsAccepted (s₀.answers (length s₀.requests + j)))
              (sym ((nat_eq_iff k (length rs)).0 same)) newest
        | inr apart ↦
            h.accepted k (ground (arith, length-append rs (r ∷ []), nat_eq_iff k (length rs)))
      ];
    }

answer_of-IsAccepted :
    (l : Launch) (r : ApiRequest) (a : ApiAnswer) (u : Unit {0})
    → answer_of l r a ≡ ok u
    → IsAccepted a
answer_of-IsAccepted l r (unanswered e) u h = cc
answer_of-IsAccepted l r (answered status body) u h = ground arith

module _ {A : Type 0} (Q : A → Vmm → Type 0) (R : Vmm → Type 0) (label : String) where
  with_error-at :
      (r : Result String A) (s : Vmm)
      → EndsAt Q (λ _ s'. R s') (r, s)
      → EndsAt Q (λ _ s'. R s') (with_error label r, s)
  with_error-at (ok a) s h = h
  with_error-at (err e) s h = h

  wrapped-Ends :
      (m : Call A) (s : Vmm)
      → Ends Q (λ _ s'. R s') (m s)
      → Ends Q (λ _ s'. R s') (wrapped label m s)
  unfolding wrapped
  wrapped-Ends m s h = record { at = with_error-at (m s).0 (m s).1 h.at }

-- A step of StartClone: the next of the requests is sent, and it is accepted or the step fails.
step-Ends :
    (l : Launch) (label : String) (s₀ s : Vmm) (rs rest : List ApiRequest) (r : ApiRequest)
    → Sent s₀ rs s
    → Ends
        (λ _ s'. Sent s₀ (rs ++ (r ∷ [])) s')
        (λ _ s'. SentSome s₀ (rs ++ (r ∷ rest)) s')
        (wrapped label (fc_api l r) s)
unfolding fc_api
step-Ends l label s₀ s rs rest r h = wrapped-Ends _ _ label (fc_api l r) s (
    Ends-lift _ _
      (λ u e.
        Sent-and_sent s₀ s rs r h (answer_of-IsAccepted l r (s.answers (length s.requests)) u e))
      (λ e f. record {
        first = rs ++ (r ∷ []);
        rest = rest;
        split = sym (append_assoc rs (r ∷ []) rest);
        requests_are =
            ap (λ q. q ++ (r ∷ [])) h.requests_are ∙ append_assoc s₀.requests rs (r ∷ []);
      }))

abbrev pub clone_requests : CloneParams → List ApiRequest
clone_requests c = load_request c ∷ drive_request c ∷ mmds_request c ∷ resume_request ∷ []

-- A step with the rest of the calls after it.
step_then-Ends :
    {Q : Unit {0} → Vmm → Type 0} (l : Launch) (label : String) (s₀ s : Vmm)
    (rs rest : List ApiRequest) (r : ApiRequest) (k : Call (Unit {0}))
    → Sent s₀ rs s
    → ((s' : Vmm)
        → Sent s₀ (rs ++ (r ∷ [])) s'
        → Ends Q (λ _ t. SentSome s₀ (rs ++ (r ∷ rest)) t) (k s'))
    → Ends Q (λ _ t. SentSome s₀ (rs ++ (r ∷ rest)) t) ((wrapped label (fc_api l r) >> k) s)
step_then-Ends l label s₀ s rs rest r k h next =
    Ends-bind (wrapped label (fc_api l r)) (λ _. k) s
      (Ends-mono _ _ _ _ _ (step-Ends l label s₀ s rs rest r h) (λ _ _ h'. next _ h') (λ _ _ f. f))

Sent-nil : (s : Vmm) → Sent s [] s
Sent-nil s = record {
  requests_are = sym (append_nil s.requests);
  answers_are = refl;
  running_is = refl;
  accepted = λ k lt. absurd (omega (arith, lt));
}

pub SentSome-nil : (s : Vmm) (rs : List ApiRequest) → SentSome s rs s
SentSome-nil s rs = record {
  first = [];
  rest = rs;
  split = refl;
  requests_are = sym (append_nil s.requests);
}

pub configure-Ends :
    (l : Launch) (c : CloneParams) (s : Vmm)
    → Ends
        (λ _ s'. Sent s (clone_requests c) s')
        (λ _ s'. SentSome s (clone_requests c) s')
        (configure l c s)
unfolding configure
configure-Ends l c s =
    let a = load_request c in
    let b = drive_request c in
    let d = mmds_request c in
    let resumed : Call (Unit {0}) = wrapped "resume" (fc_api l resume_request) in
    let informed : Call (Unit {0}) = wrapped "set mmds" (fc_api l d) >> resumed in
    let relocated : Call (Unit {0}) = wrapped "relocate rootfs" (fc_api l b) >> informed in
    let loaded : Call (Unit {0}) = wrapped "load snapshot" (fc_api l a) >> relocated in
    Ends-bind (wrapped "firecracker API never came up" (lift (wait_api l))) (λ _. loaded) s
      (wrapped-Ends _ _ "firecracker API never came up" (lift (wait_api l)) s (
        Ends-lift (wait_api l) s
          (λ u e.
            step_then-Ends l "load snapshot" s s [] (b ∷ d ∷ resume_request ∷ []) a relocated
              (Sent-nil s)
              (λ s₁ h₁.
                step_then-Ends l "relocate rootfs" s s₁ (a ∷ []) (d ∷ resume_request ∷ []) b
                  informed h₁
                  (λ s₂ h₂.
                    step_then-Ends l "set mmds" s s₂ (a ∷ b ∷ []) (resume_request ∷ []) d resumed h₂
                      (λ s₃ h₃. step-Ends l "resume" s s₃ (a ∷ b ∷ d ∷ []) [] resume_request h₃))))
          (λ x e. SentSome-nil s (clone_requests c))))
