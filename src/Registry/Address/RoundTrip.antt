-- ===== src/Registry/Address/RoundTrip.antt =====
-- An address that uint32ToIP prints is read back by ipToUint32.
use Prim.Native.String.{◌++◌}
use text.Mathlib.TextLemmas.{cons-append, nil-append, append-nil}
use web_sandbox.Common.{
  ℕ, zero, suc, ◌+◌, ◌*◌, ◌/◌, ◌%◌, ◌^◌, ◌≤◌, ◌<◌, ◌≡◌, refl, sym, ap, ◌∙◌, String, false, true,
  false, true, ◌&&◌, some, List, [], ◌∷◌, ltb, nat_eq, length, arith, Bool-cases, inl, inr,
}
use web_sandbox.Common.Decimal.{itoa, digit, digits_onto, code-digit}
use web_sandbox.Registry.Address.{
  uint32_to_ip, ip_to_uint32, Scan, scan_fields, scan_char, scan_digit, scan_dot, scan_end,
  is_digit, start,
}

abbrev after_field : List ℕ → ℕ → ℕ → Scan
after_field fs v k = record { fields = fs; val = v; dig_len = k }

-- A digit that keeps the field below 256 and does not follow a leading zero is taken.
scan_fields-digit :
    (d v w k : ℕ) (fs : List ℕ) (rest : String)
    → d < 10
    → v * 10 + d ≡ w
    → w < 256
    → (nat_eq k 1 && nat_eq v 0) ≡ false
    → scan_fields (String.◌∷◌ (digit d) rest) (after_field fs v k)
      ≡ scan_fields rest (after_field fs w (k + 1))
unfolding scan_fields scan_char scan_digit is_digit
scan_fields-digit d v w k fs rest h e b z = ground (arith, code-digit d h)

-- What reading a byte's decimal text leaves: the value, and at least one digit.
abbrev ReadsTo : String → String → List ℕ → ℕ → Type 0
ReadsTo s rest fs n =
    (k : ℕ) × (0 < k) × (scan_fields s (after_field fs 0 0) ≡ scan_fields rest (after_field fs n k))

ReadsTo-digit :
    (s rest : String) (fs : List ℕ) (n : ℕ)
    → 10 ≤ n
    → n < 256
    → ReadsTo s (String.◌∷◌ (digit (n % 10)) rest) fs (n / 10)
    → ReadsTo s rest fs n
ReadsTo-digit s rest fs n h b (k, pos, e) = (
  k + 1,
  omega arith,
  e ∙ scan_fields-digit (n % 10) (n / 10) n k fs rest (omega arith) (omega arith) b (ground arith),
)

digits_onto-ReadsTo :
    (fuel n : ℕ) (fs : List ℕ) (rest : String)
    → n < fuel
    → n < 256
    → ReadsTo (digits_onto fuel n rest) rest fs n
unfolding digits_onto
digits_onto-ReadsTo zero n fs rest h b = absurd (omega arith)
digits_onto-ReadsTo (suc fuel) n fs rest h b = elim (Bool-cases (ltb n 10)) [
  | inl small ↦
      rw small
        (1, omega arith, scan_fields-digit n 0 n 0 fs rest (ground arith) (omega arith) b refl)
  | inr large ↦ rw large (
      ReadsTo-digit _ rest fs n (ground arith) b (
        digits_onto-ReadsTo fuel (n / 10) fs (String.◌∷◌ (digit (n % 10)) rest) (ground arith)
          (omega arith)))
]

digits_onto-append :
    (fuel n : ℕ) (s t : String) → digits_onto fuel n s ++ t ≡ digits_onto fuel n (s ++ t)
unfolding digits_onto
digits_onto-append zero n s t = refl
digits_onto-append (suc fuel) n s t = elim (Bool-cases (ltb n 10)) [
  | inl small ↦ rw small (cons-append (digit n) s t)
  | inr large ↦ rw large (
      digits_onto-append fuel (n / 10) (String.◌∷◌ (digit (n % 10)) s) t
      ∙ ap (digits_onto fuel (n / 10)) (cons-append (digit (n % 10)) s t))
]

itoa-ReadsTo : (n : ℕ) (fs : List ℕ) (rest : String) → n < 256 → ReadsTo (itoa n ++ rest) rest fs n
unfolding itoa
itoa-ReadsTo n fs rest b =
    rw (digits_onto-append (suc n) n "" rest, nil-append rest)
      (digits_onto-ReadsTo (suc n) n fs rest (omega arith) b)

scan_fields-dot :
    (n k : ℕ) (fs : List ℕ) (rest : String)
    → 0 < k
    → nat_eq (length fs) 3 ≡ false
    → scan_fields ("." ++ rest) (after_field fs n k) ≡ scan_fields rest (after_field (n ∷ fs) 0 0)
unfolding scan_fields scan_char scan_dot is_digit
scan_fields-dot n k fs rest pos room = rw (cons-append "." "" rest, nil-append rest) (ground arith)

scan_fields-nil :
    (n k : ℕ) (fs : List ℕ)
    → 0 < k
    → nat_eq (length fs) 3 ≡ true
    → scan_fields "" (after_field fs n k) ≡ some (n ∷ fs)
unfolding scan_fields scan_end
scan_fields-nil n k fs pos full = ground arith

-- A byte and a dot, before the fourth field.
scan_fields-byte_dot :
    (n : ℕ) (fs : List ℕ) (rest : String)
    → n < 256
    → nat_eq (length fs) 3 ≡ false
    → scan_fields (itoa n ++ ("." ++ rest)) (after_field fs 0 0)
      ≡ scan_fields rest (after_field (n ∷ fs) 0 0)
scan_fields-byte_dot n fs rest b room =
    let (k, pos, e) = itoa-ReadsTo n fs ("." ++ rest) b in e ∙ scan_fields-dot n k fs rest pos room

scan_fields-byte_end :
    (n : ℕ) (fs : List ℕ)
    → n < 256
    → nat_eq (length fs) 3 ≡ true
    → scan_fields (itoa n) (after_field fs 0 0) ≡ some (n ∷ fs)
scan_fields-byte_end n fs b full =
    let (k, pos, e) = itoa-ReadsTo n fs "" b in
    ap (λ s. scan_fields s (after_field fs 0 0)) (sym (append-nil (itoa n)))
    ∙ e
    ∙ scan_fields-nil n k fs pos full

-- The four bytes, the last first.
bytes : ℕ → List ℕ
bytes n = n % 256 ∷ n / 2 ^ 8 % 256 ∷ n / 2 ^ 16 % 256 ∷ n / 2 ^ 24 % 256 ∷ []

scan_fields-uint32_to_ip : (n : ℕ) → scan_fields (uint32_to_ip n) start ≡ some (bytes n)
unfolding uint32_to_ip bytes
scan_fields-uint32_to_ip n =
    scan_fields-byte_dot (n / 2 ^ 24 % 256) [] _ (omega arith) refl
    ∙ scan_fields-byte_dot (n / 2 ^ 16 % 256) (n / 2 ^ 24 % 256 ∷ []) _ (omega arith) refl
    ∙ scan_fields-byte_dot (n / 2 ^ 8 % 256) (n / 2 ^ 16 % 256 ∷ n / 2 ^ 24 % 256 ∷ []) _
        (omega arith) refl
    ∙ scan_fields-byte_end (n % 256) (n / 2 ^ 8 % 256 ∷ n / 2 ^ 16 % 256 ∷ n / 2 ^ 24 % 256 ∷ [])
        (omega arith) refl

-- An address that uint32ToIP prints is read back by ipToUint32, for every 32-bit number.
pub ip_to_uint32-uint32_to_ip : (n : ℕ) → n < 2 ^ 32 → ip_to_uint32 (uint32_to_ip n) ≡ some n
unfolding ip_to_uint32 bytes
ip_to_uint32-uint32_to_ip n h =
    rw (scan_fields-uint32_to_ip n, ip_to_uint32) (ap some (omega arith))

-- So two 32-bit numbers are not printed alike.
pub uint32_to_ip-injective :
    (m n : ℕ) → m < 2 ^ 32 → n < 2 ^ 32 → uint32_to_ip m ≡ uint32_to_ip n → m ≡ n
uint32_to_ip-injective m n hm hn e =
    cc (ip_to_uint32-uint32_to_ip m hm, ip_to_uint32-uint32_to_ip n hn)
