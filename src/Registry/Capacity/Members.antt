-- ===== src/Registry/Capacity/Members.antt =====
-- The elements of the pools, as lists.
use native.Mathlib.Decide.{ℕ_discrete}
use web_sandbox.Registry.Types.{Pools}
use web_sandbox.Registry.Pools.{
  pick_ip_from, pick_free_ip, pick_free_port, pick_free_tap, tap_name, u32_mod, tap_exhausted,
  port_exhausted, address_rounds, pick_ip_between, ip_range,
}
use web_sandbox.Common.{
  Bool-cases, Eq, List, Option, String, [], ap, arith, beq_refl, contains, inl, inr, length, ltb,
  none, ok, refl, some, suc, true, zero, ℕ, ◌%◌, ◌+◌, ◌-◌, ◌<◌, ◌∷◌, ◌≡◌, ◌≤◌, Eq-String, Eq-ℕ,
}
use web_sandbox.Registry.Pools.Choice.{
  FirstFree-member, pick_free_port-FirstFree, pick_free_tap-FirstFree, port_end,
}
use web_sandbox.Registry.Address.{ip_to_uint32, uint32_to_ip}

module _ {A : Type 0} (name : ℕ → A) where
  pub names_from : ℕ → ℕ → List A
  names_from lo zero = []
  names_from lo (suc n) = name lo ∷ names_from (lo + 1) n

  pub length-names_from : (lo n : ℕ) → length (names_from lo n) ≡ n
  unfolding names_from
  length-names_from lo zero = refl
  length-names_from lo (suc n) = ap suc (length-names_from (lo + 1) n)

  pub contains-names_from :
      ⦃e : Eq A⦄ (lo n i : ℕ) → lo ≤ i → i < lo + n → contains (names_from lo n) (name i) ≡ true
  unfolding names_from contains
  contains-names_from lo zero i l h = absurd (omega arith)
  contains-names_from ⦃e⦄ lo (suc n) i l h = elim (ℕ_discrete lo i) [
    | yes here ↦ rw (ap name here, beq_refl (name i)) refl
    | no later ↦ ground (arith, contains-names_from (lo + 1) n i (omega arith) (omega arith))
  ]

pub tap_names : Pools → List String
tap_names p = names_from (tap_name p) 0 p.tap_max

names_between : Option ℕ → Option ℕ → List String
names_between (some lo) (some hi) = names_from uint32_to_ip lo (hi + 1 - lo)
names_between _ _ = []

pub ip_names : Pools → List String
ip_names p = names_between (ip_to_uint32 p.guest_ip_min) (ip_to_uint32 p.guest_ip_max)

pub port_names : Pools → List ℕ
port_names p = names_from (λ q. q) p.port_min (p.port_max + 1 - p.port_min)

-- The last address of the pool is not 255.255.255.255, where the loop's variable would wrap.
abbrev pub EndsBelowTop : Pools → Type 0
EndsBelowTop p = (hi : ℕ) → ip_to_uint32 p.guest_ip_max ≡ some hi → hi + 1 < u32_mod

pub pick_free_tap-contains :
    (used : List String) (p : Pools) (tap : String)
    → pick_free_tap used p ≡ ok tap
    → contains (tap_names p) tap ≡ true
unfolding tap_names
pick_free_tap-contains used p tap e =
    let (i, l, h, same) =
      FirstFree-member (contains used) (tap_name p) 0 p.tap_max tap_exhausted (pick_free_tap used p)
        tap (pick_free_tap-FirstFree used p) e in
    rw same (contains-names_from (tap_name p) 0 p.tap_max i l (omega arith))

pub pick_free_port-contains :
    (used : List ℕ) (p : Pools) (port : ℕ)
    → pick_free_port used p ≡ ok port
    → contains (port_names p) port ≡ true
unfolding port_names
pick_free_port-contains used p port e =
    let (i, l, h, same) =
      FirstFree-member (contains used) (λ q. q) p.port_min (port_end p) port_exhausted
        (pick_free_port used p) port (pick_free_port-FirstFree used p) e in
    rw same (contains-names_from (λ q. q) p.port_min _ i l h)

pick_ip_from-member :
    (used : List String) (max_ip fuel n : ℕ) (ip : String)
    → max_ip + 1 < u32_mod
    → pick_ip_from used max_ip fuel n ≡ ok ip
    → (i : ℕ) × (n ≤ i) × (i < max_ip + 1) × (ip ≡ uint32_to_ip i)
unfolding pick_ip_from
pick_ip_from-member used max_ip zero n ip top e = cc
pick_ip_from-member used max_ip (suc fuel) n ip top e = elim (Bool-cases (ltb max_ip n)) [
  | inl past ↦ absurd (ground arith)
  | inr within ↦ elim (Bool-cases (contains used (uint32_to_ip n))) [
    | inl taken ↦
        let next : (n + 1) % u32_mod ≡ n + 1 = ground arith in
        let (i, l, h, same) =
          pick_ip_from-member used max_ip fuel (n + 1) ip top (rw (within, taken, next) at e) in
        (i, omega arith, h, same)
    | inr free ↦ (n, omega arith, ground arith, ground arith)
  ]
]

pick_ip_between-contains :
    (used : List String) (lo hi : Option ℕ) (ip : String)
    → ((h : ℕ) → hi ≡ some h → h + 1 < u32_mod)
    → pick_ip_between used lo hi ≡ ok ip
    → contains (names_between lo hi) ip ≡ true
unfolding pick_ip_between names_between
pick_ip_between-contains used (some lo) (some hi) ip top e =
    let (i, l, h, same) = pick_ip_from-member used hi address_rounds lo ip (top hi refl) e in
    rw same (contains-names_from uint32_to_ip lo (hi + 1 - lo) i l (omega arith))
pick_ip_between-contains used (some lo) none ip top e = cc
pick_ip_between-contains used none hi ip top e = cc

pub pick_free_ip-contains :
    (used : List String) (p : Pools) (ip : String)
    → EndsBelowTop p
    → pick_free_ip used p ≡ ok ip
    → contains (ip_names p) ip ≡ true
unfolding pick_free_ip ip_names
pick_free_ip-contains used p ip top e = pick_ip_between-contains used _ _ ip top e

pub length-tap_names : (p : Pools) → length (tap_names p) ≡ p.tap_max
unfolding tap_names
length-tap_names p = length-names_from (tap_name p) 0 p.tap_max

pub length-port_names : (p : Pools) → length (port_names p) ≡ p.port_max + 1 - p.port_min
unfolding port_names
length-port_names p = length-names_from (λ q. q) p.port_min (p.port_max + 1 - p.port_min)

-- The count of Slots is the length of the range, or more where the range is empty.
le-ip_range :
    (lo hi : Option ℕ) (n c : ℕ)
    → ((h : ℕ) → hi ≡ some h → h + 1 < u32_mod)
    → n ≤ length (names_between lo hi)
    → ip_range lo hi ≡ some c
    → n ≤ c
unfolding names_between ip_range
le-ip_range (some lo) (some hi) n c top h e =
    ground (arith, top hi refl, length-names_from uint32_to_ip lo (hi + 1 - lo))
le-ip_range (some lo) none n c top h e = cc
le-ip_range none hi n c top h e = cc

pub length-ip_names :
    (p : Pools) (n c : ℕ)
    → EndsBelowTop p
    → n ≤ length (ip_names p)
    → ip_range (ip_to_uint32 p.guest_ip_min) (ip_to_uint32 p.guest_ip_max) ≡ some c
    → n ≤ c
unfolding ip_names
length-ip_names p n c top h e = le-ip_range _ _ n c top h e
