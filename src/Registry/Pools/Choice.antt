-- ===== src/Registry/Pools/Choice.antt =====
-- What the pickFree functions choose: the first free element of the pool, and an error exactly when
-- every element is used.
use web_sandbox.Common.{
  ℕ, ◌+◌, ◌≤◌, ◌<◌, ◌≡◌, Bool, true, false, Result, ok, err, arith, inl, inr, ◌⊎◌, List, String,
  contains, suc, some, Bool-cases, Eq-String, ltb, refl, zero, ◌%◌, ◌-◌, Eq-ℕ,
}
use web_sandbox.Registry.Pools.{
  Error, pick_tap_from, pick_port_from, pick_ip_from, pick_free_tap, Pools, pick_free_port,
  pick_free_ip, tap_name, port_exhausted, u32_mod, ip_to_uint32, tap_exhausted, uint32_to_ip,
  ip_exhausted, address_rounds,
}

-- `r` is the answer of a search of the elements `name lo`, …, `name (hi - 1)` for one that is not
-- used: the first such, or `full` if there is none.
abbrev pub FirstFree : {A : Type 0} → (A → Bool) → (ℕ → A) → ℕ → ℕ → Error → Result Error A → Type 0
FirstFree {A} used name lo hi full r =
    ((i : ℕ) × (lo ≤ i)
      × (i < hi)
      × (r ≡ ok (name i))
      × (used (name i) ≡ false)
      × ((j : ℕ) → lo ≤ j → j < i → used (name j) ≡ true))
    ⊎ ((r ≡ err full) × ((j : ℕ) → lo ≤ j → j < hi → used (name j) ≡ true))

module _ {A : Type 0} (used : A → Bool) (name : ℕ → A) (hi : ℕ) (full : Error) where
  FirstFree-here :
      (lo : ℕ) (r : Result Error A)
      → lo < hi
      → used (name lo) ≡ false
      → r ≡ ok (name lo)
      → FirstFree used name lo hi full r
  FirstFree-here lo r h free e = inl (lo, omega arith, h, e, free, λ j a b. absurd (omega arith))

  FirstFree-later :
      (lo : ℕ) (r : Result Error A)
      → used (name lo) ≡ true
      → FirstFree used name (lo + 1) hi full r
      → FirstFree used name lo hi full r
  FirstFree-later lo r taken (inl (i, a, b, e, free, below)) =
      inl (i, omega arith, b, e, free, λ j c d. grind (arith, below j))
  FirstFree-later lo r taken (inr (e, below)) = inr (e, λ j c d. grind (arith, below j))

pick_tap_from-FirstFree :
    (used : List String) (p : Pools) (rounds i hi : ℕ)
    → i + rounds ≡ hi
    → FirstFree (contains used) (tap_name p) i hi tap_exhausted (pick_tap_from used p rounds i)
unfolding pick_tap_from
pick_tap_from-FirstFree used p zero i hi e = inr (refl, λ j a b. absurd (omega arith))
pick_tap_from-FirstFree used p (suc rounds) i hi e =
    elim (Bool-cases (contains used (tap_name p i))) [
      | inl taken ↦ rw taken (
          FirstFree-later (contains used) (tap_name p) hi tap_exhausted i _ taken
            (pick_tap_from-FirstFree used p rounds (i + 1) hi (omega arith)))
      | inr free ↦
          rw free (
            FirstFree-here (contains used) (tap_name p) hi tap_exhausted i _ (omega arith) free
              refl)
    ]

pick_port_from-FirstFree :
    (used : List ℕ) (rounds port hi : ℕ)
    → port + rounds ≡ hi
    → FirstFree (contains used) (λ q. q) port hi port_exhausted (pick_port_from used rounds port)
unfolding pick_port_from
pick_port_from-FirstFree used zero port hi e = inr (refl, λ j a b. absurd (omega arith))
pick_port_from-FirstFree used (suc rounds) port hi e = elim (Bool-cases (contains used port)) [
  | inl taken ↦ rw taken (
      FirstFree-later (contains used) (λ q. q) hi port_exhausted port _ taken
        (pick_port_from-FirstFree used rounds (port + 1) hi (omega arith)))
  | inr free ↦
      rw free
        (FirstFree-here (contains used) (λ q. q) hi port_exhausted port _ (omega arith) free refl)
]

pick_ip_from-FirstFree :
    (used : List String) (max_ip fuel n : ℕ)
    → max_ip + 1 < u32_mod
    → n ≤ max_ip + 1
    → max_ip + 1 < n + fuel
    → FirstFree
        (contains used)
        uint32_to_ip
        n
        (max_ip + 1)
        ip_exhausted
        (pick_ip_from used max_ip fuel n)
unfolding pick_ip_from
pick_ip_from-FirstFree used max_ip zero n top h f = absurd (omega arith)
pick_ip_from-FirstFree used max_ip (suc fuel) n top h f = elim (Bool-cases (ltb max_ip n)) [
  | inl past ↦ rw past (inr (refl, λ j a b. absurd (ground arith)))
  | inr within ↦ elim (Bool-cases (contains used (uint32_to_ip n))) [
    | inl taken ↦
        let next : (n + 1) % u32_mod ≡ n + 1 = ground arith in
        rw (within, taken, next)
          (FirstFree-later (contains used) uint32_to_ip (max_ip + 1) ip_exhausted n _ taken
            (pick_ip_from-FirstFree used max_ip fuel (n + 1) top (ground arith) (omega arith)))
    | inr free ↦
        rw (within, free)
          (FirstFree-here (contains used) uint32_to_ip (max_ip + 1) ip_exhausted n _ (ground arith)
            free refl)
  ]
]

-- pickFreeTap returns the first name of the pool that is not used, and fails exactly when all are.
pub pick_free_tap-FirstFree :
    (used : List String) (p : Pools)
    → FirstFree (contains used) (tap_name p) 0 p.tap_max tap_exhausted (pick_free_tap used p)
unfolding pick_free_tap
pick_free_tap-FirstFree used p = pick_tap_from-FirstFree used p p.tap_max 0 p.tap_max (omega arith)

-- The end of a range of ports as the loop has it: an empty range ends where it begins.
abbrev pub port_end : Pools → ℕ
port_end p = p.port_min + (p.port_max + 1 - p.port_min)

-- pickFreePort returns the least port of the range that is not used, and fails exactly when all are.
pub pick_free_port-FirstFree :
    (used : List ℕ) (p : Pools)
    → FirstFree
        (contains used)
        (λ q. q)
        p.port_min
        (port_end p)
        port_exhausted
        (pick_free_port used p)
unfolding pick_free_port
pick_free_port-FirstFree used p =
    pick_port_from-FirstFree used (p.port_max + 1 - p.port_min) p.port_min (port_end p) refl

-- pickFreeIP ends within its rounds and returns the first address of the pool that is not used, and
-- fails exactly when all are, for a pool whose ends are addresses, the lower at most
-- one past the upper, and the upper not the largest address.
pub pick_free_ip-FirstFree :
    (used : List String) (p : Pools) (min_ip max_ip : ℕ)
    → ip_to_uint32 p.guest_ip_min ≡ some min_ip
    → ip_to_uint32 p.guest_ip_max ≡ some max_ip
    → min_ip ≤ max_ip + 1
    → max_ip + 1 < u32_mod
    → FirstFree (contains used) uint32_to_ip min_ip (max_ip + 1) ip_exhausted (pick_free_ip used p)
unfolding pick_free_ip
pick_free_ip-FirstFree used p min_ip max_ip lo hi h top =
    rw (lo, hi, pick_free_ip)
      (pick_ip_from-FirstFree used max_ip address_rounds min_ip top h
        (unfold address_rounds in omega arith))

module _ {A : Type 0} (used : A → Bool) (name : ℕ → A) (lo hi : ℕ) (full : Error) where
  -- What a search returns is not used.
  pub FirstFree-unused :
      (r : Result Error A) (a : A) → FirstFree used name lo hi full r → r ≡ ok a → used a ≡ false
  FirstFree-unused r a (inl (i, l, h, e, free, below)) ok_a = cc
  FirstFree-unused r a (inr (e, below)) ok_a = cc

  -- It is an element of the pool.
  pub FirstFree-member :
      (r : Result Error A) (a : A)
      → FirstFree used name lo hi full r
      → r ≡ ok a
      → (i : ℕ) × (lo ≤ i) × (i < hi) × (a ≡ name i)
  FirstFree-member r a (inl (i, l, h, e, free, below)) ok_a = (i, l, h, cc)
  FirstFree-member r a (inr (e, below)) ok_a = cc
