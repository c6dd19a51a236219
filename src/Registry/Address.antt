-- ===== src/Registry/Address.antt =====
-- internal/registry/registry.go: uint32ToIP and ipToUint32. Of net.ParseIP the dotted form is
-- modelled; the spelling of an IPv4 address in IPv6 (`::ffff:1.2.3.4`) is refused here.
pub mod RoundTrip
use Prim.Native.Char.{code}
use Prim.Native.String.{◌++◌}
use web_sandbox.Common.{
  ℕ, suc, ◌+◌, ◌-◌, ◌*◌, ◌/◌, ◌%◌, ◌^◌, String, Bool, ◌&&◌, Option, none, some, List, [], ◌∷◌, leb,
  ltb, nat_eq, if◌then◌else◌, length,
}
use web_sandbox.Common.Decimal.{itoa}

-- `byte(n >> k)` is `n / 2 ^ k % 256`.
unfoldable pub uint32_to_ip : ℕ → String
uint32_to_ip n =
    itoa (n / 2 ^ 24 % 256)
    ++ ("."
        ++ (itoa (n / 2 ^ 16 % 256)
            ++ ("." ++ (itoa (n / 2 ^ 8 % 256) ++ ("." ++ itoa (n % 256))))))

-- The state of the scan of a dotted address: the fields read so far, the value and the number of
-- digits of the field at hand.
pub record Scan : Type 0 where
  pub fields : List ℕ
  pub val : ℕ
  pub dig_len : ℕ

is_digit : ℕ → Bool
is_digit c = leb 48 c && leb c 57

-- A digit: no field has a leading zero or passes 255.
unfoldable pub scan_digit : ℕ → Scan → Option Scan
scan_digit d s =
    if nat_eq s.dig_len 1 && nat_eq s.val 0
    then none
    else if ltb 255 (s.val * 10 + d)
    then none
    else some (record { fields = s.fields; val = s.val * 10 + d; dig_len = s.dig_len + 1 })

-- A dot: no field is empty, and there are four.
unfoldable pub scan_dot : Scan → Option Scan
scan_dot s =
    if nat_eq s.dig_len 0
    then none
    else if nat_eq (length s.fields) 3
    then none
    else some (record { fields = s.val ∷ s.fields; val = 0; dig_len = 0 })

scan_char : ℕ → Scan → Option Scan
unfolding scan_digit scan_dot is_digit
scan_char c s =
    if is_digit c then scan_digit (c - 48) s else if nat_eq c 46 then scan_dot s else none

-- The end: the last field is not empty, and is the fourth.
unfoldable pub scan_end : Scan → Option (List ℕ)
scan_end s =
    if nat_eq s.dig_len 0
    then none
    else if nat_eq (length s.fields) 3
    then some (s.val ∷ s.fields)
    else none

-- The fields of a dotted address, the last first.
unfoldable pub scan_fields : String → Scan → Option (List ℕ)
unfolding scan_char scan_end
scan_fields String.[] s = scan_end s
scan_fields (String.◌∷◌ c rest) s = elim (scan_char (code c) s) [
  | none ↦ none
  | some s' ↦ scan_fields rest s'
]

abbrev start : Scan
start = record { fields = []; val = 0; dig_len = 0 }

-- ip[0]<<24 | ip[1]<<16 | ip[2]<<8 | ip[3]; the bytes do not overlap, so the sum is the same.
unfoldable pub pack_fields : List ℕ → Option ℕ
pack_fields (d ∷ c ∷ b ∷ a ∷ []) = some (a * 2 ^ 24 + b * 2 ^ 16 + c * 2 ^ 8 + d)
pack_fields _ = none

unfoldable pub ip_to_uint32 : String → Option ℕ
unfolding scan_fields pack_fields
ip_to_uint32 s = elim (scan_fields s start) [ none ↦ none | some fields ↦ pack_fields fields ]
