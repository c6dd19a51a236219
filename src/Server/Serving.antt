-- ===== src/Server/Serving.antt =====
-- internal/server/server.go: Serve, as the sequence of what it starts and stops. What the listeners
-- answer and how it ends are arguments; the goroutines themselves are modelled elsewhere.
use Prim.Native.String.{◌++◌ as str_append}
use web_sandbox.Provisioner.Disks.{Paths}
use web_sandbox.Vm.{RunOptions}
use web_sandbox.Common.{
  ok, err, String, List, Result, [], ◌∷◌, ◌++◌, ◌==◌, if◌then◌else◌, Eq-String, ℕ, ap, false, refl,
  ◌∙◌, ◌≡◌, append_nil, Bool-cases, eq_iff, inl, inr, Eq, not,
}

-- provisioner.Network
pub record Network : Type 0 where
  pub bridge : String
  pub gateway_cidr : String
  pub guest_port : ℕ

-- server.Config, with the provisioner that it points to.
pub record ServerConfig : Type 0 where
  pub socket_path : String
  pub listen_addr : String
  pub api_token : String
  pub network : Network
  pub paths : Paths
  pub gateway_ip : String
  pub vm_template : RunOptions
  pub gateway_url : String
  pub gateway_token : String
  pub advertise_addr : String
  pub host_id : String

-- What Serve does.
pub data Step : Type 0 where
  reconciles : Step
  reaps : Step
  heartbeats : String → Step
  makes_dir : String → Step
  removes : String → Step
  listens_unix : String → Step
  restricts : String → Step
  serves_unix : Step
  listens_tcp : String → Step
  serves_tcp : String → Step
  shuts_down : Step
  tears_down : Step

-- What the select of Serve finds.
pub data Ending : Type 0 where
  cancelled : Ending
  closed : Ending
  broken_off : String → Ending

pub record Listeners : Type 0 where
  pub dir : String → String
  pub make_dir : String → Result String (Unit {0})
  pub listen_unix : String → Result String (Unit {0})
  pub listen_tcp : String → Result String (Unit {0})
  pub ending : Ending

abbrev pub ended : Ending → List Step → List Step × Result String (Unit {0})
ended cancelled done = (done ++ (shuts_down ∷ tears_down ∷ []), ok tt)
ended closed done = (done, ok tt)
ended (broken_off e) done = (done, err e)

abbrev pub with_tcp :
    Listeners
    → ServerConfig
    → List Step
    → Result String (Unit {0})
    → List Step × Result String (Unit {0})
with_tcp n c done (err e) =
    (done, err (str_append "listen tcp " (str_append c.listen_addr (str_append ": " e))))
with_tcp n c done (ok u) = ended n.ending (done ++ (serves_tcp c.api_token ∷ []))

-- The TCP listener, which is optional.
unfoldable pub serve_tcp :
    Listeners → ServerConfig → List Step → List Step × Result String (Unit {0})
serve_tcp n c done =
    if c.listen_addr == ""
    then ended n.ending done
    else if c.api_token == ""
    then (
      done,
      err "listen_addr is set but api_token is empty — refusing to serve TCP without auth",
    )
    else with_tcp n c (done ++ (listens_tcp c.listen_addr ∷ [])) (n.listen_tcp c.listen_addr)

abbrev pub with_unix :
    Listeners
    → ServerConfig
    → List Step
    → Result String (Unit {0})
    → List Step × Result String (Unit {0})
with_unix n c done (err e) = (done, err e)
with_unix n c done (ok u) = serve_tcp n c (done ++ (restricts c.socket_path ∷ serves_unix ∷ []))

abbrev pub with_dir :
    Listeners
    → ServerConfig
    → List Step
    → Result String (Unit {0})
    → List Step × Result String (Unit {0})
with_dir n c done (err e) = (done, err e)
with_dir n c done (ok u) =
    with_unix n c (done ++ (removes c.socket_path ∷ listens_unix c.socket_path ∷ []))
      (n.listen_unix c.socket_path)

unfoldable pub serve : Listeners → ServerConfig → List Step × Result String (Unit {0})
unfolding serve_tcp
serve n c =
    let begun : List Step =
      reconciles ∷ reaps ∷ (if c.gateway_url == "" then [] else heartbeats c.gateway_url ∷ []) in
    with_dir n c (begun ++ (makes_dir (n.dir c.socket_path) ∷ []))
      (n.make_dir (n.dir c.socket_path))

-- The tokens behind which TCP is served.
unfoldable pub tcp_tokens : List Step → List String
tcp_tokens [] = []
tcp_tokens (serves_tcp token ∷ ss) = token ∷ tcp_tokens ss
tcp_tokens (s ∷ ss) = tcp_tokens ss

-- What was done, and what is answered, on TCP: nothing without an address; nothing if it is refused; or
-- everything behind the token, which is not empty.
pub data Guarded (c : ServerConfig) (r : List Step × Result String (Unit {0})) : Type 0 where
  no_tcp : c.listen_addr ≡ "" → tcp_tokens r.0 ≡ [] → Guarded c r
  refused : (e : String) → r.1 ≡ err e → tcp_tokens r.0 ≡ [] → Guarded c r
  guarded : tcp_tokens r.0 ≡ c.api_token ∷ [] → (c.api_token == "") ≡ false → Guarded c r

tcp_tokens-append : (ss ts : List Step) → tcp_tokens (ss ++ ts) ≡ tcp_tokens ss ++ tcp_tokens ts
unfolding tcp_tokens
tcp_tokens-append [] ts = refl
tcp_tokens-append (reconciles ∷ ss) ts = tcp_tokens-append ss ts
tcp_tokens-append (reaps ∷ ss) ts = tcp_tokens-append ss ts
tcp_tokens-append (heartbeats url ∷ ss) ts = tcp_tokens-append ss ts
tcp_tokens-append (makes_dir p ∷ ss) ts = tcp_tokens-append ss ts
tcp_tokens-append (removes p ∷ ss) ts = tcp_tokens-append ss ts
tcp_tokens-append (listens_unix p ∷ ss) ts = tcp_tokens-append ss ts
tcp_tokens-append (restricts p ∷ ss) ts = tcp_tokens-append ss ts
tcp_tokens-append (serves_unix ∷ ss) ts = tcp_tokens-append ss ts
tcp_tokens-append (listens_tcp addr ∷ ss) ts = tcp_tokens-append ss ts
tcp_tokens-append (serves_tcp token ∷ ss) ts = ap (λ l. token ∷ l) (tcp_tokens-append ss ts)
tcp_tokens-append (shuts_down ∷ ss) ts = tcp_tokens-append ss ts
tcp_tokens-append (tears_down ∷ ss) ts = tcp_tokens-append ss ts

tcp_tokens-ended : (e : Ending) (done : List Step) → tcp_tokens (ended e done).0 ≡ tcp_tokens done
unfolding tcp_tokens
tcp_tokens-ended cancelled done = tcp_tokens-append done _ ∙ append_nil (tcp_tokens done)
tcp_tokens-ended closed done = refl
tcp_tokens-ended (broken_off e) done = refl

with_tcp-Guarded :
    (n : Listeners) (c : ServerConfig) (done : List Step) (r : Result String (Unit {0}))
    → tcp_tokens done ≡ []
    → (c.api_token == "") ≡ false
    → Guarded c (with_tcp n c done r)
unfolding tcp_tokens
with_tcp-Guarded n c done (err e) h k = refused _ refl h
with_tcp-Guarded n c done (ok u) h k =
    guarded
      (tcp_tokens-ended n.ending _ ∙ tcp_tokens-append done _ ∙ ap (λ l. l ++ (c.api_token ∷ [])) h)
      k

serve_tcp-Guarded :
    (n : Listeners) (c : ServerConfig) (done : List Step)
    → tcp_tokens done ≡ []
    → Guarded c (serve_tcp n c done)
unfolding serve_tcp tcp_tokens
serve_tcp-Guarded n c done h = elim (Bool-cases (c.listen_addr == "")) [
  | inl none_asked ↦
      rw none_asked
        (no_tcp ((eq_iff c.listen_addr "").0 none_asked) (tcp_tokens-ended n.ending done ∙ h))
  | inr asked ↦ elim (Bool-cases (c.api_token == "")) [
    | inl open_to_all ↦ rw (asked, open_to_all) (refused _ refl h)
    | inr has_token ↦
        rw (asked, has_token)
          (with_tcp-Guarded n c _ (n.listen_tcp c.listen_addr)
            (tcp_tokens-append done _ ∙ ap (λ l. l ++ []) h) has_token)
  ]
]

with_unix-Guarded :
    (n : Listeners) (c : ServerConfig) (done : List Step) (r : Result String (Unit {0}))
    → tcp_tokens done ≡ []
    → Guarded c (with_unix n c done r)
unfolding tcp_tokens
with_unix-Guarded n c done (err e) h = refused e refl h
with_unix-Guarded n c done (ok u) h =
    serve_tcp-Guarded n c _ (tcp_tokens-append done _ ∙ ap (λ l. l ++ []) h)

with_dir-Guarded :
    (n : Listeners) (c : ServerConfig) (done : List Step) (r : Result String (Unit {0}))
    → tcp_tokens done ≡ []
    → Guarded c (with_dir n c done r)
unfolding tcp_tokens
with_dir-Guarded n c done (err e) h = refused e refl h
with_dir-Guarded n c done (ok u) h =
    with_unix-Guarded n c _ (n.listen_unix c.socket_path)
      (tcp_tokens-append done _ ∙ ap (λ l. l ++ []) h)

begun_unserved :
    (url dir : String)
    → tcp_tokens (
        (reconciles ∷ reaps ∷ (if url == "" then [] else heartbeats url ∷ []))
        ++ (makes_dir dir ∷ []))
      ≡ []
unfolding tcp_tokens
begun_unserved url dir = elim (Bool-cases (url == "")) [ inl e ↦ rw e refl | inr e ↦ rw e refl ]

pub serve-Guarded : (n : Listeners) (c : ServerConfig) → Guarded c (serve n c)
unfolding serve
serve-Guarded n c =
    with_dir-Guarded n c _ (n.make_dir (n.dir c.socket_path))
      (begun_unserved c.gateway_url (n.dir c.socket_path))

-- bearerAuth of the TCP listener: the digests of the header and of the expected value are compared, and
-- the request is handed on or answered 401. The hash is a parameter.
unfoldable pub bearer_auth :
    {D A : Type 0} → ⦃e : Eq D⦄ → (String → D) → String → String → Result ℕ A → Result ℕ A
bearer_auth sha256 token header next =
    if not (sha256 (str_append "Bearer " token) == sha256 header) then err 401 else next
