-- ===== src/Server/Proxy.antt =====
-- internal/server/proxy.go: requests that are passed on to the agent in a guest, and the wait for it. The
-- guest's network is an argument.
use Prim.Native.String.{◌++◌ as str_append}
use web_sandbox.Common.Decimal.{itoa}
use web_sandbox.Registry.Ops.{get}
use web_sandbox.Registry.Types.{Sandbox}
use web_sandbox.Server.Timeouts.{Handler, or_status}
use mathlib.Core.Bool.{false≢true}
use web_sandbox.Common.{
  nat_eq_iff, sym, ap, ◌∙◌, Bool, List, Option, Result, String, err, false, if◌then◌else◌, lift,
  nat_eq, none, ok, pure, some, true, ℕ, ◌+◌, ◌==◌, ◌>>=◌, zero, suc, Eq-String, ◌≡◌, ◌≤◌, ◌<◌, ◌⊎◌,
  Bool-cases, arith, inl, inr, refl, ◌∙◌,
}

-- agentapi.Port
abbrev pub agent_port : ℕ
agent_port = 8_090

-- The part of a request that the proxy reads, and of a response that it copies.
pub record ProxyRequest : Type 0 where
  pub method : String
  pub query : String
  pub content_type : String
  pub body : String

pub record AgentRequest : Type 0 where
  pub method : String
  pub url : String
  pub content_type : String
  pub body : String

pub record AgentResponse : Type 0 where
  pub status : ℕ
  pub headers : List (String × String)
  pub body : String

abbrev pub agent_host : Sandbox → String
agent_host sb = str_append sb.guest_ip (str_append ":" (itoa agent_port))

unfoldable pub agent_request : String → Sandbox → ProxyRequest → AgentRequest
agent_request endpoint sb r =
    let url = str_append "http://" (str_append (agent_host sb) (str_append "/" endpoint)) in
    record {
      method = r.method;
      url = if r.query == "" then url else str_append url (str_append "?" r.query);
      content_type = r.content_type;
      body = r.body;
    }

unfoldable pub or_bad_gateway : Option AgentResponse → Result ℕ AgentResponse
or_bad_gateway none = err 502
or_bad_gateway (some a) = ok a

-- The response of the agent is copied: its status, its headers and its body.
unfoldable pub handle_agent_proxy :
    (AgentRequest → Option AgentResponse) → String → String → ProxyRequest → Handler AgentResponse
unfolding agent_request or_bad_gateway
handle_agent_proxy agent endpoint id r = do
  sb ← or_status 404 (get id)
  lift (or_bad_gateway (agent (agent_request endpoint sb r)))

-- handleShellProxy, up to the reverse proxy: the host and the path that it is pointed at, with the
-- query kept.
unfoldable pub handle_shell_proxy : String → ProxyRequest → Handler AgentRequest
handle_shell_proxy id r = do
  sb ← or_status 404 (get id)
  pure (record {
    method = r.method;
    url = str_append "http://" (
        str_append (agent_host sb)
          (str_append "/shell" (if r.query == "" then "" else str_append "?" r.query)));
    content_type = r.content_type;
    body = r.body;
  })

-- flushWriter.Write: the number that is written, and whether the writer is flushed.
unfoldable pub flush_write : ℕ × Bool → ℕ × Bool
flush_write (n, failed) = (n, if failed then false else true)

-- waitForAgent. `probe n` is the status of the `n`-th GET /health, if it is answered, and `expires n`
-- says whether the deadline has passed after it. `none` means that the fuel ran out.
unfoldable pub wait_from : (ℕ → Option ℕ) → (ℕ → Bool) → ℕ → ℕ → Option Bool
wait_from probe expires zero n = none
wait_from probe expires (suc fuel) n =
    let again = wait_from probe expires fuel (n + 1) in
    let waited = if expires n then some false else again in
    elim (probe n) [ none ↦ waited | some status ↦ if nat_eq status 200 then some true else waited ]

unfoldable pub wait_for_agent : (ℕ → Option ℕ) → (ℕ → Bool) → ℕ → Option Bool
unfolding wait_from
wait_for_agent probe expires fuel = wait_from probe expires fuel 0

abbrev pub is_ready : Option ℕ → Bool
is_ready none = false
is_ready (some status) = nat_eq status 200

wait_from-step :
    (probe : ℕ → Option ℕ) (expires : ℕ → Bool) (fuel n : ℕ)
    → wait_from probe expires (suc fuel) n ≡ (
        if is_ready (probe n)
        then some true
        else if expires n
        then some false
        else wait_from probe expires fuel (n + 1))
unfolding wait_from
wait_from-step probe expires fuel n = ground arith

-- The wait has ended at a probe: a probe that succeeded, or the last before the deadline, when no probe
-- up to it succeeded.
pub record WaitEnded (probe : ℕ → Option ℕ) (expires : ℕ → Bool) (first : ℕ) (ready : Bool)
    : Type 0 where
  pub last : ℕ
  pub after : first ≤ last
  pub verdict : is_ready (probe last) ≡ ready
  pub earlier : (m : ℕ) → first ≤ m → m < last → (is_ready (probe m) ≡ false) × (expires m ≡ false)
  pub in_time : (ready ≡ true) ⊎ (expires last ≡ true)

pub wait_from-WaitEnded :
    (probe : ℕ → Option ℕ) (expires : ℕ → Bool) (deadline fuel n : ℕ)
    → expires deadline ≡ true
    → n ≤ deadline
    → deadline < n + fuel
    → (ready : Bool) × (wait_from probe expires fuel n ≡ some ready)
      × WaitEnded probe expires n ready
wait_from-WaitEnded probe expires deadline zero n d le lt = absurd (omega arith)
wait_from-WaitEnded probe expires deadline (suc fuel) n d le lt =
    elim (Bool-cases (is_ready (probe n))) [
      | inl up ↦ (
        true,
        wait_from-step probe expires fuel n ∙ ground arith,
        record {
          last = n;
          after = omega arith;
          verdict = up;
          earlier = λ m a b. absurd (omega arith);
          in_time = inl refl;
        },
      )
      | inr down ↦ elim (Bool-cases (expires n)) [
        | inl over ↦ (
          false,
          wait_from-step probe expires fuel n ∙ ground arith,
          record {
            last = n;
            after = omega arith;
            verdict = down;
            earlier = λ m a b. absurd (omega arith);
            in_time = inr over;
          },
        )
        | inr time ↦
            let later : n + 1 ≤ deadline = elim (Bool-cases (nat_eq n deadline)) [
              | inl same ↦
                  let here : n ≡ deadline = (nat_eq_iff n deadline).0 same in
                  absurd (false≢true (sym time ∙ ap expires here ∙ d))
              | inr apart ↦ ground arith
            ] in
            let (ready, e, w) =
              wait_from-WaitEnded probe expires deadline fuel (n + 1) d later (omega arith) in
            (
              ready,
              wait_from-step probe expires fuel n ∙ ground (arith, e),
              record {
                last = w.last;
                after = omega (arith, w.after);
                verdict = w.verdict;
                earlier = λ m a b. elim (Bool-cases (nat_eq n m)) [
                  | inl same ↦
                      let here : n ≡ m = (nat_eq_iff n m).0 same in
                      (ap (λ k. is_ready (probe k)) (sym here) ∙ down, ap expires (sym here) ∙ time)
                  | inr apart ↦ w.earlier m (ground arith) b
                ];
                in_time = w.in_time;
              },
            )
      ]
    ]

-- If the deadline has passed after some probe and the fuel is more than that, waitForAgent returns: that
-- the agent is ready, if the last probe that it made was answered with 200, and else that it is not,
-- and then the deadline had passed. No earlier probe was answered with 200 or found the deadline past.
pub wait_for_agent-WaitEnded :
    (probe : ℕ → Option ℕ) (expires : ℕ → Bool) (deadline fuel : ℕ)
    → expires deadline ≡ true
    → deadline < fuel
    → (ready : Bool) × (wait_for_agent probe expires fuel ≡ some ready)
      × WaitEnded probe expires 0 ready
unfolding wait_for_agent
wait_for_agent-WaitEnded probe expires deadline fuel d lt =
    wait_from-WaitEnded probe expires deadline fuel 0 d (omega arith) (omega arith)
