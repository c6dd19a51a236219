-- ===== src/Tests/Host.antt =====
-- internal/provisioner, internal/config and cmd/sandboxd/thaw.go on small inputs.
use web_sandbox.Provisioner.{
  Shell, add_port_forward_to, remove_port_forward_to, ensure_iptables_rule,
}
use web_sandbox.Provisioner.Commands.{
  AllIssued, IssuedUpTo, dnat_rules, IsAbout, port_forward_to-Ends, ensure_iptables_rule-Ends,
}
use web_sandbox.Common.{
  ◌++◌, ◌++◌, Ends, List, String, [], false, nat_eq, not, true, ◌∷◌, ◌≡◌, ◌⊎◌, Eq-String, length,
}

-- The second command fails.
abbrev shell : Shell
shell = record { issued = []; answers = λ n. record { succeeds = not (nat_eq n 1); output = "" } }

abbrev two : List (List String)
two = ("a" ∷ []) ∷ ("b" ∷ []) ∷ []

port_forward_to-Ends_example :
    Ends
      (AllIssued (dnat_rules "-A" 5_200 "172.16.0.10" 3_000) [])
      (IssuedUpTo (dnat_rules "-A" 5_200 "172.16.0.10" 3_000) [])
      (add_port_forward_to 5_200 "172.16.0.10" 3_000 shell)
    × ((remove_port_forward_to 5_200 "172.16.0.10" 3_000 shell).issued
        ≡ [] ++ dnat_rules "-D" 5_200 "172.16.0.10" 3_000)
port_forward_to-Ends_example = port_forward_to-Ends 5_200 3_000 "172.16.0.10" shell shell

abbrev rule : List String
rule = "-t" ∷ "nat" ∷ "POSTROUTING" ∷ []

ensure_iptables_rule-Ends_example :
    (check : List String) × (add : List String) × IsAbout "-C" rule check
    × IsAbout "-A" rule add
    × Ends
        (λ _ s'.
          ((true ≡ true) × (s'.issued ≡ [] ++ (check ∷ [])))
          ⊎ ((true ≡ false) × (s'.issued ≡ [] ++ (check ∷ add ∷ []))))
        (λ c s'.
          (c ≡ add)
          × (s'.issued ≡ [] ++ (check ∷ add ∷ []))
          × ((shell.answers (length ([] ++ (check ∷ [])))).succeeds ≡ false))
        (ensure_iptables_rule rule shell)
ensure_iptables_rule-Ends_example = ensure_iptables_rule-Ends rule shell tt
