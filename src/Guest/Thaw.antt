-- ===== src/Guest/Thaw.antt =====
-- cmd/sandboxd/thaw.go: the loop by which a clone takes on its identity. What MMDS gives in each round
-- is an argument, `none` for an error.
use Prim.Native.String.{◌++◌ as str_append}
use web_sandbox.Provisioner.{Shell, Sh, run_all, run_each}
use web_sandbox.Provisioner.Commands.{run_each-issued, IssuedUpTo, run_all-Ends}
use web_sandbox.Common.{
  ◌++◌, All, List, Option, Result, String, [], ap, arith, eq_iff, err, if◌then◌else◌, none, ok,
  refl, some, sym, true, ◌==◌, ◌>>◌, ◌||◌, ◌∙◌, ◌∷◌, ◌≡◌, ◌⊎◌, append_nil, Eq-String, append_assoc,
  Ends, Ends-bind, Ends-mono, Ends-ok, EndsAt, false, inl, inr, subst, ◌≢◌, Map, lookup, nat_eq, ℕ,
}

-- cloneIdentity
pub record Identity : Type 0 where
  pub ip : String
  pub mac : String
  pub gw : String
  pub prefix : String
  pub gen : String

abbrev pub route_command : List String
route_command = "ip" ∷ "route" ∷ "add" ∷ "169.254.169.254/32" ∷ "dev" ∷ "eth0" ∷ []

unfoldable pub ensure_mmds_route : Shell → Shell
ensure_mmds_route = run_each (route_command ∷ [])

unfoldable pub identity_steps : Identity → List (List String)
identity_steps id =
    let prefix = if id.prefix == "" then "24" else id.prefix in
    ("ip" ∷ "link" ∷ "set" ∷ "eth0" ∷ "down" ∷ [])
    ∷ ("ip" ∷ "addr" ∷ "flush" ∷ "dev" ∷ "eth0" ∷ [])
    ∷ ("ip" ∷ "link" ∷ "set" ∷ "eth0" ∷ "address" ∷ id.mac ∷ [])
    ∷ ("ip" ∷ "link" ∷ "set" ∷ "eth0" ∷ "up" ∷ [])
    ∷ ("ip" ∷ "addr" ∷ "add" ∷ str_append id.ip (str_append "/" prefix) ∷ "dev" ∷ "eth0" ∷ [])
    ∷ ("ip" ∷ "route" ∷ "replace" ∷ "default" ∷ "via" ∷ id.gw ∷ [])
    ∷ []

unfoldable pub apply_identity : Identity → Sh (Unit {0})
unfolding identity_steps ensure_mmds_route
apply_identity id = do run_all (identity_steps id); λ s. (ok tt, ensure_mmds_route s)

-- The generation that was applied last, and the commands issued.
pub record Thaw : Type 0 where
  pub last_gen : String
  pub shell : Shell

-- `lastGen = id.Gen`, only where applyIdentity succeeded.
abbrev applied : Identity → String → Result (List String) (Unit {0}) × Shell → Thaw
applied id last (ok u, s) = record { last_gen = id.gen; shell = s }
applied id last (err c, s) = record { last_gen = last; shell = s }

-- What a request to MMDS is answered: the status, and the string fields of the body unless it cannot be
-- read.
pub data MmdsAnswer : Type 0 where
  unreached : MmdsAnswer
  replied : ℕ → Option (Map String) → MmdsAnswer

abbrev pub field : String → Map String → String
field name fields = elim (lookup name fields) [ none ↦ "" | some v ↦ v ]

-- json.Unmarshal into a cloneIdentity; absent fields stay empty.
unfoldable pub identity_of : Map String → Identity
identity_of fields = record {
  ip = field "ip" fields;
  mac = field "mac" fields;
  gw = field "gw" fields;
  prefix = field "prefix" fields;
  gen = field "gen" fields;
}

abbrev pub read_identity : MmdsAnswer → Option Identity
read_identity unreached = none
read_identity (replied status fields) =
    if nat_eq status 200
    then elim fields [ none ↦ none | some found ↦ some (identity_of found) ]
    else some (identity_of [])

-- From the answers to the request for a token and to the GET.
unfoldable pub fetch_identity : MmdsAnswer → MmdsAnswer → Option Identity
unfolding identity_of
fetch_identity unreached answer = none
fetch_identity (replied status token) answer = read_identity answer

-- One round of runThawAgent.
unfoldable pub thaw_round : Option Identity → Thaw → Thaw
unfolding ensure_mmds_route apply_identity
thaw_round none t = record t { shell = ensure_mmds_route t.shell }
thaw_round (some id) t =
    let s = ensure_mmds_route t.shell in
    if id.gen == "" || id.gen == t.last_gen
    then record t { shell = s }
    else applied id t.last_gen (apply_identity id s)

unfoldable pub thaw_rounds : List (Option Identity) → Thaw → Thaw
thaw_rounds [] t = t
thaw_rounds (r ∷ rs) t = thaw_rounds rs (thaw_round r t)

-- Nothing to take on: an error, no generation, or the one that was applied last.
abbrev pub IsSettled : String → Option Identity → Type 0
IsSettled last none = Unit
IsSettled last (some id) = (id.gen ≡ "") ⊎ (id.gen ≡ last)

settled_round :
    (r : Option Identity) (t : Thaw)
    → IsSettled t.last_gen r
    → thaw_round r t ≡ record t { shell = ensure_mmds_route t.shell }
unfolding thaw_round
settled_round none t h = refl
settled_round (some id) t h =
    let skip : (id.gen == "" || id.gen == t.last_gen) ≡ true =
      ground (arith, eq_iff id.gen "", eq_iff id.gen t.last_gen) in
    rw skip refl

ensure_mmds_route-issued :
    (s : Shell) → (ensure_mmds_route s).issued ≡ s.issued ++ (route_command ∷ [])
unfolding ensure_mmds_route
ensure_mmds_route-issued s = run_each-issued (route_command ∷ []) s

-- One route command for each round.
pub routes : List (Option Identity) → List (List String)
routes [] = []
routes (r ∷ rs) = route_command ∷ routes rs

-- A clone that has taken on a generation leaves its network alone for as long as MMDS gives this one, none
-- or an error: the rounds issue only the command for the route to MMDS, and the generation stays.
pub thaw_rounds_settled :
    (rs : List (Option Identity)) (t : Thaw)
    → All (IsSettled t.last_gen) rs
    → ((thaw_rounds rs t).last_gen ≡ t.last_gen)
      × ((thaw_rounds rs t).shell.issued ≡ t.shell.issued ++ routes rs)
unfolding thaw_rounds routes
thaw_rounds_settled [] t h = (refl, sym (append_nil t.shell.issued))
thaw_rounds_settled (r ∷ rs) t h =
    let t' : Thaw = record t { shell = ensure_mmds_route t.shell } in
    let step : thaw_round r t ≡ t' = settled_round r t h.0 in
    let (l, i) = thaw_rounds_settled rs t' h.1 in
    (
      ap (λ u. (thaw_rounds rs u).last_gen) step ∙ l,
      ap (λ u. (thaw_rounds rs u).shell.issued) step
          ∙ i
          ∙ ap (λ cs. cs ++ routes rs) (ensure_mmds_route-issued t.shell)
          ∙ append_assoc t.shell.issued (route_command ∷ []) (routes rs),
    )

apply_identity-Ends :
    (id : Identity) (s : Shell)
    → Ends
        (λ _ s'. s'.issued ≡ s.issued ++ (identity_steps id ++ (route_command ∷ [])))
        (IssuedUpTo (identity_steps id) s.issued)
        (apply_identity id s)
unfolding apply_identity
apply_identity-Ends id s = Ends-bind (run_all (identity_steps id)) _ s (
    Ends-mono _ _ _ _ (run_all (identity_steps id) s) (run_all-Ends (identity_steps id) s)
      (λ _ _ h. Ends-ok _ _ (
        ensure_mmds_route-issued _
        ∙ ap (λ cs. cs ++ (route_command ∷ [])) h
        ∙ append_assoc s.issued (identity_steps id) (route_command ∷ [])))
      (λ c _ h. h))

-- What a round with a new generation has done, where `start` is what was issued before its steps.
abbrev pub Taken : Identity → Thaw → List (List String) → Thaw → Type 0
Taken id t start t' =
    ((t'.last_gen ≡ id.gen)
      × (t'.shell.issued ≡ start ++ (identity_steps id ++ (route_command ∷ []))))
    ⊎ ((t'.last_gen ≡ t.last_gen)
        × ((c : List String) × IssuedUpTo (identity_steps id) start c t'.shell))

applied-Taken :
    (id : Identity) (t : Thaw) (start : List (List String)) (r : Result (List String) (Unit {0}))
    (s' : Shell)
    → EndsAt
        (λ _ s. s.issued ≡ start ++ (identity_steps id ++ (route_command ∷ [])))
        (IssuedUpTo (identity_steps id) start)
        (r, s')
    → Taken id t start (applied id t.last_gen (r, s'))
applied-Taken id t start (ok u) s' h = inl (refl, h)
applied-Taken id t start (err c) s' h = inr (refl, (c, h))

-- A round that is given a new generation takes its steps in order after the route to MMDS. If all of them
-- succeed the generation is the one applied last; if one fails no later one is issued and the
-- generation stays, so that the next round tries again.
pub thaw_round-Taken :
    (id : Identity) (t : Thaw)
    → id.gen ≢ ""
    → id.gen ≢ t.last_gen
    → Taken id t (t.shell.issued ++ (route_command ∷ [])) (thaw_round (some id) t)
unfolding thaw_round
thaw_round-Taken id t n m =
    let fresh : (id.gen == "" || id.gen == t.last_gen) ≡ false =
      ground (arith, eq_iff id.gen "", eq_iff id.gen t.last_gen) in
    let s : Shell = ensure_mmds_route t.shell in
    let e = apply_identity-Ends id s in
    rw fresh (
      subst (λ start. Taken id t start (applied id t.last_gen (apply_identity id s)))
        (ensure_mmds_route-issued t.shell)
        (applied-Taken id t s.issued (apply_identity id s).0 (apply_identity id s).1 e.at))
