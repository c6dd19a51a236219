-- ===== src/Registry/Pools.antt =====
-- internal/registry/registry.go: Slots, pickFreeTap, pickFreeIP and pickFreePort. A set of used
-- resources (`map[string]bool`, `map[int]bool`) is the list of its members.
pub mod Choice
use Prim.Native.String.{◌++◌ as str_append}
use web_sandbox.Common.{
  ℕ, zero, suc, ◌+◌, ◌-◌, ◌%◌, ◌^◌, String, List, Option, none, some, Result, ok, err, ltb,
  if◌then◌else◌, contains, Eq-String, Eq-ℕ,
}
use web_sandbox.Common.Decimal.{itoa}
use web_sandbox.Registry.Types.{Pools}
use web_sandbox.Registry.Address.{ip_to_uint32, uint32_to_ip}

-- What a call of the registry reports. `engine` is any error of the database driver; `spins` stands
-- for a loop that has come round without an answer.
pub data Error : Type 0 where
  engine constraint not_found tap_exhausted ip_exhausted port_exhausted invalid_ip spins : Error
  tap_in_use ip_in_use : Error

abbrev pub u32_mod : ℕ
u32_mod = 2 ^ 32

smaller : ℕ → ℕ → ℕ
smaller c n = if ltb c n then c else n

-- `int(maxIP-minIP) + 1`, where the subtraction is of 32 bits.
unfoldable pub ip_range : Option ℕ → Option ℕ → Option ℕ
ip_range (some min_ip) (some max_ip) = some ((max_ip + u32_mod - min_ip) % u32_mod + 1)
ip_range _ _ = none

-- The fields are not negative, so the source's last test (`n < 0`) is the truncation of `-`.
unfoldable pub slots : Pools → ℕ
unfolding smaller ip_range
slots p =
    let n : ℕ = smaller (p.port_max + 1 - p.port_min) p.tap_max in
    elim (ip_range (ip_to_uint32 p.guest_ip_min) (ip_to_uint32 p.guest_ip_max)) [
      | none ↦ n
      | some c ↦ smaller c n
    ]

unfoldable pub tap_name : Pools → ℕ → String
tap_name p i = str_append p.tap_prefix (itoa i)

-- The loops: the rounds left, then the loop's variable.
unfoldable pub pick_tap_from : List String → Pools → ℕ → ℕ → Result Error String
pick_tap_from used p zero i = err tap_exhausted
pick_tap_from used p (suc rounds) i =
    let rest = pick_tap_from used p rounds (i + 1) in
    if contains used (tap_name p i) then rest else ok (tap_name p i)

unfoldable pub pick_free_tap : List String → Pools → Result Error String
unfolding pick_tap_from
pick_free_tap used p = pick_tap_from used p p.tap_max 0

unfoldable pub pick_port_from : List ℕ → ℕ → ℕ → Result Error ℕ
pick_port_from used zero port = err port_exhausted
pick_port_from used (suc rounds) port =
    let rest = pick_port_from used rounds (port + 1) in if contains used port then rest else ok port

unfoldable pub pick_free_port : List ℕ → Pools → Result Error ℕ
unfolding pick_port_from
pick_free_port used p = pick_port_from used (p.port_max + 1 - p.port_min) p.port_min

-- `for n := minIP; n <= maxIP; n++` over uint32: at the largest address `n++` wraps to 0.
unfoldable pub pick_ip_from : List String → ℕ → ℕ → ℕ → Result Error String
pick_ip_from used max_ip zero n = err spins
pick_ip_from used max_ip (suc fuel) n =
    let rest = pick_ip_from used max_ip fuel ((n + 1) % u32_mod) in
    if ltb max_ip n
    then err ip_exhausted
    else if contains used (uint32_to_ip n)
    then rest
    else ok (uint32_to_ip n)

-- After 2^32 rounds `n` has had every value.
unfoldable pub address_rounds : ℕ
address_rounds = suc u32_mod

-- The tests of the two parsed ends, and the loop.
unfoldable pub pick_ip_between : List String → Option ℕ → Option ℕ → Result Error String
pick_ip_between used (some min_ip) (some max_ip) = pick_ip_from used max_ip address_rounds min_ip
pick_ip_between used _ _ = err invalid_ip

unfoldable pub pick_free_ip : List String → Pools → Result Error String
unfolding pick_ip_between
pick_free_ip used p =
    pick_ip_between used (ip_to_uint32 p.guest_ip_min) (ip_to_uint32 p.guest_ip_max)
