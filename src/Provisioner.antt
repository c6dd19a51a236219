-- ===== src/Provisioner.antt =====
-- internal/provisioner/provisioner.go: the commands that set up the host's network, taps, forwarded
-- ports and disk copies. What a command answers is an argument: a function from its number.
pub mod Commands
pub mod Disks
use Prim.Native.String.{◌++◌ as str_append}
use web_sandbox.Common.Decimal.{itoa}
use web_sandbox.Common.{
  ℕ, ◌++◌, Bool, Exec, List, Option, Result, String, [], err, fail, if◌then◌else◌, length, lift,
  none, ok, pure, some, ◌==◌, ◌>>=◌, ◌>>◌, ◌∷◌, ◌≡◌, Eq-String,
}

pub record Answer : Type 0 where
  pub succeeds : Bool
  pub output : String

-- A command is its words. The commands that have been issued, in order.
pub record Shell : Type 0 where
  pub issued : List (List String)
  pub answers : ℕ → Answer

-- A call ends with a value, or with the command that failed.
abbrev pub Sh : Type 0 → Type 0
Sh A = Exec Shell (List String) A

abbrev pub and_issued : List String → Shell → Shell
and_issued c s = record s { issued = s.issued ++ (c ∷ []) }

-- exec.Command(...).CombinedOutput()
unfoldable pub command : List String → Sh String
command c s =
    let a = s.answers (length s.issued) in
    (if a.succeeds then ok a.output else err c, and_issued c s)

-- The loops over commands, which end at the first that fails.
unfoldable pub run_all : List (List String) → Sh (Unit {0})
run_all [] = pure tt
run_all (c ∷ cs) = do command c; run_all cs

-- The loop that goes on.
unfoldable pub run_each : List (List String) → Shell → Shell
run_each [] s = s
run_each (c ∷ cs) s = run_each cs (command c s).1

abbrev pub added_rules : ℕ → String → ℕ → List (List String)
added_rules host_port guest_ip guest_port =
    let target = str_append guest_ip (str_append ":" (itoa guest_port)) in
    ("iptables"
      ∷ "-t"
      ∷ "nat"
      ∷ "-A"
      ∷ "PREROUTING"
      ∷ "-p"
      ∷ "tcp"
      ∷ "--dport"
      ∷ itoa host_port
      ∷ "-j"
      ∷ "DNAT"
      ∷ "--to-destination"
      ∷ target
      ∷ [])
    ∷ ("iptables"
        ∷ "-t"
        ∷ "nat"
        ∷ "-A"
        ∷ "OUTPUT"
        ∷ "-p"
        ∷ "tcp"
        ∷ "-d"
        ∷ "127.0.0.1"
        ∷ "--dport"
        ∷ itoa host_port
        ∷ "-j"
        ∷ "DNAT"
        ∷ "--to-destination"
        ∷ target
        ∷ [])
    ∷ []

unfoldable pub add_port_forward_to : ℕ → String → ℕ → Sh (Unit {0})
add_port_forward_to host_port guest_ip guest_port =
    run_all (added_rules host_port guest_ip guest_port)

abbrev pub removed_rules : ℕ → String → ℕ → List (List String)
removed_rules host_port guest_ip guest_port =
    let target = str_append guest_ip (str_append ":" (itoa guest_port)) in
    ("iptables"
      ∷ "-t"
      ∷ "nat"
      ∷ "-D"
      ∷ "PREROUTING"
      ∷ "-p"
      ∷ "tcp"
      ∷ "--dport"
      ∷ itoa host_port
      ∷ "-j"
      ∷ "DNAT"
      ∷ "--to-destination"
      ∷ target
      ∷ [])
    ∷ ("iptables"
        ∷ "-t"
        ∷ "nat"
        ∷ "-D"
        ∷ "OUTPUT"
        ∷ "-p"
        ∷ "tcp"
        ∷ "-d"
        ∷ "127.0.0.1"
        ∷ "--dport"
        ∷ itoa host_port
        ∷ "-j"
        ∷ "DNAT"
        ∷ "--to-destination"
        ∷ target
        ∷ [])
    ∷ []

unfoldable pub remove_port_forward_to : ℕ → String → ℕ → Shell → Shell
remove_port_forward_to host_port guest_ip guest_port =
    run_each (removed_rules host_port guest_ip guest_port)

unfoldable pub create_tap_unbridged : String → Sh (Unit {0})
create_tap_unbridged tap = run_all (
    ("ip" ∷ "tuntap" ∷ "add" ∷ "dev" ∷ tap ∷ "mode" ∷ "tap" ∷ [])
    ∷ ("ip" ∷ "link" ∷ "set" ∷ tap ∷ "up" ∷ [])
    ∷ [])

unfoldable pub attach_tap_to_bridge : String → String → Sh (Unit {0})
attach_tap_to_bridge bridge tap =
    run_all (("ip" ∷ "link" ∷ "set" ∷ tap ∷ "master" ∷ bridge ∷ []) ∷ [])

unfoldable pub create_tap : String → String → Sh (Unit {0})
create_tap bridge tap = do create_tap_unbridged tap; attach_tap_to_bridge bridge tap

unfoldable pub delete_tap : String → Sh (Unit {0})
delete_tap tap = run_all (("ip" ∷ "link" ∷ "delete" ∷ tap ∷ []) ∷ [])

-- The words of a rule with the verb after the table, if it names one.
unfoldable pub with_verb : String → List String → List String
with_verb verb [] = []
with_verb verb (a ∷ []) = verb ∷ a ∷ []
with_verb verb (a ∷ b ∷ rest) = if a == "-t" then a ∷ b ∷ verb ∷ rest else verb ∷ a ∷ b ∷ rest

-- The part of ensureIptablesRule after the check.
unfoldable pub add_if_missing : List String → Result (List String) String → Sh (Unit {0})
add_if_missing rule (ok out) s = (ok tt, s)
add_if_missing rule (err c) s = run_all (("iptables" ∷ with_verb "-A" rule) ∷ []) s

unfoldable pub ensure_iptables_rule : List String → Sh (Unit {0})
unfolding with_verb add_if_missing
ensure_iptables_rule rule s =
    let (r, s') = command ("iptables" ∷ with_verb "-C" rule) s in add_if_missing rule r s'

unfoldable pub ensure_rules : List (List String) → Sh (Unit {0})
ensure_rules [] = pure tt
ensure_rules (r ∷ rs) = do ensure_iptables_rule r; ensure_rules rs

-- The word after the first `dev` that is not the last.
unfoldable pub after_dev : List String → Option String
after_dev [] = none
after_dev (f ∷ []) = none
after_dev (f ∷ g ∷ rest) = let later = after_dev (g ∷ rest) in if f == "dev" then some g else later

-- defaultInterface; `fields` is strings.Fields.
unfoldable pub default_interface : (String → List String) → Sh String
default_interface fields = do
  out ← command ("ip" ∷ "route" ∷ "show" ∷ "default" ∷ [])
  lift (elim (after_dev (fields out)) [ none ↦ err [] | some iface ↦ ok iface ])

abbrev setup_commands : String → String → List (List String)
setup_commands gateway_cidr bridge =
    ("ip" ∷ "addr" ∷ "replace" ∷ gateway_cidr ∷ "dev" ∷ bridge ∷ [])
    ∷ ("ip" ∷ "link" ∷ "set" ∷ bridge ∷ "up" ∷ [])
    ∷ ("sysctl" ∷ "-w" ∷ "net.ipv4.ip_forward=1" ∷ [])
    ∷ ("sysctl" ∷ "-w" ∷ "net.ipv4.conf.all.route_localnet=1" ∷ [])
    ∷ []

abbrev nat_rules : String → String → String → List (List String)
nat_rules subnet host_iface bridge =
    ("-t" ∷ "nat" ∷ "POSTROUTING" ∷ "-s" ∷ subnet ∷ "-o" ∷ host_iface ∷ "-j" ∷ "MASQUERADE" ∷ [])
    ∷ ("-t" ∷ "nat" ∷ "POSTROUTING" ∷ "-o" ∷ bridge ∷ "-j" ∷ "MASQUERADE" ∷ [])
    ∷ ("FORWARD" ∷ "-i" ∷ bridge ∷ "-o" ∷ host_iface ∷ "-j" ∷ "ACCEPT" ∷ [])
    ∷ ("FORWARD" ∷ "-i" ∷ host_iface ∷ "-o" ∷ bridge ∷ "-m" ∷ "state" ∷ "--state"
        ∷ "RELATED,ESTABLISHED" ∷ "-j" ∷ "ACCEPT" ∷ [])
    ∷ ("FORWARD" ∷ "-i" ∷ bridge ∷ "-o" ∷ bridge ∷ "-j" ∷ "ACCEPT" ∷ [])
    ∷ []

-- `subnet` is what net.ParseCIDR gives of the gateway's address, and `has_bridge` whether the bridge is
-- there.
unfoldable pub ensure_network :
    (String → List String) → Option String → Bool → String → String → Sh (Unit {0})
ensure_network fields none has_bridge gateway_cidr bridge = fail []
ensure_network fields (some subnet) has_bridge gateway_cidr bridge = do
  run_all (
      if has_bridge
      then []
      else (("ip" ∷ "link" ∷ "add" ∷ "name" ∷ bridge ∷ "type" ∷ "bridge" ∷ []) ∷ []))
  run_all (setup_commands gateway_cidr bridge)
  host_iface ← default_interface fields
  ensure_rules (nat_rules subnet host_iface bridge)
