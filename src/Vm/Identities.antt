-- ===== src/Vm/Identities.antt =====
-- internal/vm/machine_linux.go and cmd/sandboxd/thaw.go: the identity that StartClone puts into MMDS
-- and the agent in the clone takes on. MMDS answers with the fields that were put last.
use Prim.Native.String.{◌++◌ as str_append}
use web_sandbox.Provisioner.Commands.{IssuedUpTo}
use web_sandbox.Common.Decimal.{itoa_nonempty}
use web_sandbox.Guest.Thaw.{
  identity_steps, Identity, replied, Taken, Thaw, fetch_identity, identity_of, thaw_round,
  thaw_round-Taken,
}
use web_sandbox.Vm.{
  ApiRequest, CloneParams, Launch, RunOptions, RuntimeConfig, Value, Vmm, string, flag, object,
  objects, start_clone, load_request, drive_request, mmds_request, itoa,
}
use web_sandbox.Vm.Cloning.{clone_requests}
use web_sandbox.Vm.Starting.{start_clone-Cloned}
use web_sandbox.Common.{
  Ends-returned, List, Map, Option, String, [], ap, if◌then◌else◌, lookup, none, ok, refl, some, ℕ,
  ◌&&◌, ◌++◌, ◌==◌, ◌∙◌, ◌∷◌, ◌≡◌, ◌≢◌, Eq-String, inl, inr, subst,
}
use web_sandbox.Common.Decimal.{itoa_nonempty}

abbrev pub texts : List (String × Value) → Map String
texts [] = []
texts ((name, string v) ∷ body) = (name, v) ∷ texts body
texts ((name, flag b) ∷ body) = texts body
texts ((name, object o) ∷ body) = texts body
texts ((name, objects os) ∷ body) = texts body

-- What a PUT of /mmds replaces.
abbrev pub put_mmds : ApiRequest → Map String → Map String
put_mmds r d = if r.method == "PUT" && r.path == "/mmds" then texts r.body else d

-- What is in MMDS when these requests have been accepted.
abbrev pub mmds_after : Map String → List ApiRequest → Map String
mmds_after d [] = d
mmds_after d (r ∷ rs) = mmds_after (put_mmds r d) rs

mmds_after-append :
    (d : Map String) (rs ss : List ApiRequest)
    → mmds_after d (rs ++ ss) ≡ mmds_after (mmds_after d rs) ss
mmds_after-append d [] ss = refl
mmds_after-append d (r ∷ rs) ss = mmds_after-append (put_mmds r d) rs ss

-- The identity that a clone was asked to have.
abbrev pub clone_identity : CloneParams → Identity
clone_identity c = record {
  ip = c.guest_ip;
  mac = c.mac_address;
  gw = c.gateway_ip;
  prefix = itoa c.prefix;
  gen = c.gen;
}

mmds_after-clone_requests :
    (d : Map String) (c : CloneParams)
    → identity_of (mmds_after d (clone_requests c)) ≡ clone_identity c
unfolding identity_of lookup load_request drive_request mmds_request
mmds_after-clone_requests d c = refl

-- The commands that give the guest's interface the address, the MAC and the gateway of a clone.
abbrev pub commands_for : CloneParams → List (List String)
commands_for c =
    ("ip" ∷ "link" ∷ "set" ∷ "eth0" ∷ "down" ∷ [])
    ∷ ("ip" ∷ "addr" ∷ "flush" ∷ "dev" ∷ "eth0" ∷ [])
    ∷ ("ip" ∷ "link" ∷ "set" ∷ "eth0" ∷ "address" ∷ c.mac_address ∷ [])
    ∷ ("ip" ∷ "link" ∷ "set" ∷ "eth0" ∷ "up" ∷ [])
    ∷ ("ip"
        ∷ "addr"
        ∷ "add"
        ∷ str_append c.guest_ip (str_append "/" (itoa c.prefix))
        ∷ "dev"
        ∷ "eth0"
        ∷ [])
    ∷ ("ip" ∷ "route" ∷ "replace" ∷ "default" ∷ "via" ∷ c.gateway_ip ∷ [])
    ∷ []

-- The command that a round issues before and after them.
abbrev pub mmds_route : List String
mmds_route = "ip" ∷ "route" ∷ "add" ∷ "169.254.169.254/32" ∷ "dev" ∷ "eth0" ∷ []

-- What a round of the agent in the clone has done: all the commands were issued and the generation is the
-- one applied last, or one failed, no later one was issued, and the generation is as it was.
pub data TookOn (c : CloneParams) (t t' : Thaw) : Type 0 where
  took_on :
      t'.last_gen ≡ c.gen
      → t'.shell.issued
        ≡ (t.shell.issued ++ (mmds_route ∷ [])) ++ (commands_for c ++ (mmds_route ∷ []))
      → TookOn c t t'
  failed_at :
      (command : List String)
      → t'.last_gen ≡ t.last_gen
      → IssuedUpTo (commands_for c) (t.shell.issued ++ (mmds_route ∷ [])) command t'.shell
      → TookOn c t t'

clone_identity-commands : (c : CloneParams) → identity_steps (clone_identity c) ≡ commands_for c
unfolding identity_steps
clone_identity-commands c = rw (itoa_nonempty c.prefix) refl

Taken-TookOn :
    (c : CloneParams) (t t' : Thaw)
    → Taken (clone_identity c) t (t.shell.issued ++ (mmds_route ∷ [])) t'
    → TookOn c t t'
Taken-TookOn c t t' (inl (g, i)) = took_on g (
    i
    ∙ ap (λ cs. (t.shell.issued ++ (mmds_route ∷ [])) ++ (cs ++ (mmds_route ∷ [])))
        (clone_identity-commands c))
Taken-TookOn c t t' (inr (g, (x, i))) = failed_at x g (
    subst (λ cs. IssuedUpTo cs (t.shell.issued ++ (mmds_route ∷ [])) x t'.shell)
      (clone_identity-commands c) i)

-- When StartClone has succeeded and MMDS answers the agent in the clone with what was put into it last, a
-- round of the agent that has not applied this generation, which is not empty, takes on what StartClone
-- was given: it takes the interface down, flushes its addresses, sets the MAC, brings it up, adds the
-- address with the prefix and replaces the default route by one over the gateway, in this order, with the
-- route to MMDS before and after it, and the generation is the one applied last. Or one of these commands fails;
-- then no later one is issued and the generation stays, so that it is tried again.
pub start_clone-Taken :
    (l : Launch) (opts : RunOptions) (c : CloneParams) (s : Vmm) (rt : RuntimeConfig)
    (d : Map String) (status : ℕ) (token : Option (Map String)) (t : Thaw)
    → s.running ≡ none
    → (start_clone l opts c s).0 ≡ ok rt
    → c.gen ≢ ""
    → c.gen ≢ t.last_gen
    → let now = mmds_after d (start_clone l opts c s).1.requests in
      TookOn c t (thaw_round (fetch_identity (replied status token) (replied 200 (some now))) t)
unfolding fetch_identity
start_clone-Taken l opts c s rt d status token t idle started some_gen new_gen =
    let done =
      Ends-returned _ _ (start_clone l opts c s) rt (start_clone-Cloned l opts c s idle) started in
    let now = mmds_after d (start_clone l opts c s).1.requests in
    let put : identity_of now ≡ clone_identity c =
      ap (λ rs. identity_of (mmds_after d rs)) done.requests_are
      ∙ ap identity_of (mmds_after-append d s.requests (clone_requests c))
      ∙ mmds_after-clone_requests (mmds_after d s.requests) c in
    Taken-TookOn c t _ (rw put (thaw_round-Taken (clone_identity c) t some_gen new_gen))
