-- ===== src/Provisioner/Commands.antt =====
-- internal/provisioner/provisioner.go: which commands are issued, in which order.
use mathlib.Core.Bool.{false≢true}
use Prim.Native.String.{◌++◌ as str_append}
use web_sandbox.Common.Decimal.{itoa}
use web_sandbox.Provisioner.{
  Shell, command, and_issued, run_all, run_each, added_rules, removed_rules, add_port_forward_to,
  remove_port_forward_to, with_verb, ensure_iptables_rule, add_if_missing,
}
use web_sandbox.Common.{
  ℕ, ◌++◌, Bool-cases, Ends, Ends-bind, Ends-err, Ends-mono, Ends-ok, List, String, [], ap, false,
  inl, inr, length, map, refl, sym, true, ◌∙◌, ◌∷◌, ◌≡◌, ◌⊎◌, append_nil, append_assoc, Bool, err,
  if◌then◌else◌, ok, subst, eq_iff, ◌==◌, ◌≢◌, Eq-String, arith,
}

-- After a success all the commands have been issued; after a failure those up to the first whose answer
-- was a failure.
abbrev pub AllIssued : List (List String) → List (List String) → Unit {0} → Shell → Type 0
AllIssued cs before u s = s.issued ≡ before ++ cs

abbrev pub IssuedUpTo : List (List String) → List (List String) → List String → Shell → Type 0
IssuedUpTo cs before c s =
    (first : List (List String)) × (rest : List (List String)) × (cs ≡ first ++ (c ∷ rest))
    × (s.issued ≡ before ++ (first ++ (c ∷ [])))
    × ((s.answers (length (before ++ first))).succeeds ≡ false)

pub command-Ends :
    {Q : String → Shell → Type 0} {R : List String → Shell → Type 0} (c : List String) (s : Shell)
    → ((out : String) → Q out (and_issued c s))
    → ((s.answers (length s.issued)).succeeds ≡ false → R c (and_issued c s))
    → Ends Q R (command c s)
unfolding command
command-Ends c s q r = elim (Bool-cases (s.answers (length s.issued)).succeeds) [
  | inl good ↦ rw good (Ends-ok _ _ (q _))
  | inr bad ↦ rw bad (Ends-err _ _ (r bad))
]

-- However the commands of a list answer, those that are issued are the list's, in its order: all of them
-- if the loop succeeds, and else those up to the first that failed, which is the error.
pub run_all-Ends :
    (cs : List (List String)) (s : Shell)
    → Ends (AllIssued cs s.issued) (IssuedUpTo cs s.issued) (run_all cs s)
unfolding run_all
run_all-Ends [] s = Ends-ok _ _ (sym (append_nil s.issued))
run_all-Ends (c ∷ cs) s =
    Ends-bind (command c) (λ _. run_all cs) s
      (command-Ends c s
        (λ out.
          Ends-mono _ _ _ _ (run_all cs (and_issued c s)) (run_all-Ends cs (and_issued c s))
            (λ _ _ h. h ∙ append_assoc s.issued (c ∷ []) cs)
            (λ failed _ h.
              let (first, rest, e, i, bad) = h in
              (
                c ∷ first,
                rest,
                ap (λ ds. c ∷ ds) e,
                i ∙ append_assoc s.issued (c ∷ []) (first ++ (failed ∷ [])),
                ap (λ l. ((run_all cs (and_issued c s)).1.answers (length l)).succeeds)
                      (sym (append_assoc s.issued (c ∷ []) first))
                    ∙ bad,
              )))
        (λ bad. (
          [],
          cs,
          refl,
          refl,
          ap (λ l. (s.answers (length l)).succeeds) (append_nil s.issued) ∙ bad,
        )))

pub run_each-issued :
    (cs : List (List String)) (s : Shell) → (run_each cs s).issued ≡ s.issued ++ cs
unfolding run_each command
run_each-issued [] s = sym (append_nil s.issued)
run_each-issued (c ∷ cs) s = run_each-issued cs (and_issued c s) ∙ append_assoc s.issued (c ∷ []) cs

-- The words of the rule for TCP connections to a host port that come in through a chain, after the verb
-- and the chain: those to an address of the host only, if one is given, go to the guest's port.
abbrev pub words_of : List String → ℕ → String → ℕ → List String
words_of addressed host_port guest_ip guest_port =
    "-p"
    ∷ "tcp"
    ∷ (addressed
        ++ ("--dport"
            ∷ itoa host_port
            ∷ "-j"
            ∷ "DNAT"
            ∷ "--to-destination"
            ∷ str_append guest_ip (str_append ":" (itoa guest_port))
            ∷ []))

-- For connections from outside, and for those from the host itself over the loopback address.
abbrev pub dnat_rules : String → ℕ → String → ℕ → List (List String)
dnat_rules verb host_port guest_ip guest_port =
    map (λ rule. "iptables" ∷ "-t" ∷ "nat" ∷ verb ∷ rule)
      (("PREROUTING" ∷ words_of [] host_port guest_ip guest_port)
        ∷ ("OUTPUT" ∷ words_of ("-d" ∷ "127.0.0.1" ∷ []) host_port guest_ip guest_port)
        ∷ [])

-- Forwarding a port issues the additions of its two DNAT rules in order, that in PREROUTING and that in
-- OUTPUT for 127.0.0.1, both to the guest's address and port, up to the first that fails. Undoing it
-- issues, whatever fails, exactly the deletions of these same two rules.
pub port_forward_to-Ends :
    (host_port guest_port : ℕ) (guest_ip : String) (s s' : Shell)
    → Ends
        (AllIssued (dnat_rules "-A" host_port guest_ip guest_port) s.issued)
        (IssuedUpTo (dnat_rules "-A" host_port guest_ip guest_port) s.issued)
        (add_port_forward_to host_port guest_ip guest_port s)
      × ((remove_port_forward_to host_port guest_ip guest_port s').issued
          ≡ s'.issued ++ dnat_rules "-D" host_port guest_ip guest_port)
unfolding add_port_forward_to remove_port_forward_to
port_forward_to-Ends host_port guest_port guest_ip s s' = (
  run_all-Ends (added_rules host_port guest_ip guest_port) s,
  run_each-issued (removed_rules host_port guest_ip guest_port) s',
)

add_if_missing-Ends :
    (rule : List String) (s : Shell) (found : Bool) (out : String)
    → let check = "iptables" ∷ with_verb "-C" rule in
      let add = "iptables" ∷ with_verb "-A" rule in
      Ends
        (λ _ s'.
          ((found ≡ true) × (s'.issued ≡ s.issued ++ (check ∷ [])))
          ⊎ ((found ≡ false) × (s'.issued ≡ s.issued ++ (check ∷ add ∷ []))))
        (λ c s'.
          (c ≡ add)
          × (s'.issued ≡ s.issued ++ (check ∷ add ∷ []))
          × ((s.answers (length (s.issued ++ (check ∷ [])))).succeeds ≡ false))
        (add_if_missing rule (if found then ok out else err check) (and_issued check s))
unfolding add_if_missing run_all
add_if_missing-Ends rule s true out = Ends-ok _ _ (inl (refl, refl))
add_if_missing-Ends rule s false out =
    Ends-bind (command ("iptables" ∷ with_verb "-A" rule)) (λ _. run_all []) _
      (command-Ends _ _ (λ o. Ends-ok _ _ (inr (refl, append_assoc s.issued _ _)))
        (λ bad. (refl, append_assoc s.issued _ _, bad)))

-- The words of a command about a rule: the verb stands after the table, where the rule starts with one,
-- and else first.
pub data IsAbout (verb : String) : List String → List String → Type 0 where
  in_table :
      (table chain : String) (rest : List String)
      → IsAbout verb ("-t" ∷ table ∷ chain ∷ rest) ("iptables" ∷ "-t" ∷ table ∷ verb ∷ chain ∷ rest)
  in_filter :
      (chain : String) (rest : List String)
      → chain ≢ "-t"
      → IsAbout verb (chain ∷ rest) ("iptables" ∷ verb ∷ chain ∷ rest)

-- A rule names a chain, after its table if it names one.
abbrev pub IsRule : List String → Type 0
IsRule [] = ⊥
IsRule (a ∷ []) = a ≢ "-t"
IsRule (a ∷ b ∷ []) = a ≢ "-t"
IsRule (a ∷ b ∷ c ∷ rest) = Unit {0}

with_verb-IsAbout :
    (verb : String) (rule : List String)
    → IsRule rule
    → IsAbout verb rule ("iptables" ∷ with_verb verb rule)
unfolding with_verb
with_verb-IsAbout verb [] n = absurd n
with_verb-IsAbout verb (a ∷ []) n = in_filter a [] n
with_verb-IsAbout verb (a ∷ b ∷ []) n =
    let bare : (a == "-t") ≡ false = ground (arith, eq_iff a "-t") in
    rw bare (in_filter a (b ∷ []) n)
with_verb-IsAbout verb (a ∷ b ∷ c ∷ rest) n = elim (Bool-cases (a == "-t")) [
  | inl tabled ↦ rw tabled (
      subst (λ t. IsAbout verb (t ∷ b ∷ c ∷ rest) ("iptables" ∷ t ∷ b ∷ verb ∷ c ∷ rest))
        (sym ((eq_iff a "-t").0 tabled)) (in_table b c rest))
  | inr bare ↦
      rw bare (in_filter a (b ∷ c ∷ rest) (λ e. false≢true (sym bare ∙ (eq_iff a "-t").1 e)))
]

-- A rule that names a chain is looked for with -C and, only if it was not found, appended with -A: with
-- the rule's own words, and the verb after its table, or first where it names none. It is an error
-- only if the addition fails, and then that of the addition.
pub ensure_iptables_rule-Ends :
    (rule : List String) (s : Shell)
    → IsRule rule
    → (check : List String) × (add : List String) × IsAbout "-C" rule check
      × IsAbout "-A" rule add
      × Ends
          (λ _ s'.
            (((s.answers (length s.issued)).succeeds ≡ true)
              × (s'.issued ≡ s.issued ++ (check ∷ [])))
            ⊎ (((s.answers (length s.issued)).succeeds ≡ false)
                × (s'.issued ≡ s.issued ++ (check ∷ add ∷ []))))
          (λ c s'.
            (c ≡ add)
            × (s'.issued ≡ s.issued ++ (check ∷ add ∷ []))
            × ((s.answers (length (s.issued ++ (check ∷ [])))).succeeds ≡ false))
          (ensure_iptables_rule rule s)
unfolding ensure_iptables_rule command
ensure_iptables_rule-Ends rule s n = (
  "iptables" ∷ with_verb "-C" rule,
  "iptables" ∷ with_verb "-A" rule,
  with_verb-IsAbout "-C" rule n,
  with_verb-IsAbout "-A" rule n,
  add_if_missing-Ends rule s _ _,
)
