-- ===== src/Gateway/Placement.antt =====
-- Where pickHost places a sandbox.
use web_sandbox.Gateway.State.{Host, Gateway, passes_over, pick_from, free, better, pick_host}
use mathlib.Core.Bool.{false≢true}
use web_sandbox.Common.{
  Bool-cases, Map, [], arith, false, inl, inr, ltb, refl, some, ℕ, ◌-◌, ◌<◌, ◌∷◌, ◌≡◌, ◌≤◌, ◌⊎◌,
  Option, none, sym, ◌∙◌, String, true,
}

-- A host that can take a sandbox: seen within the time limit, with a free slot.
abbrev pub CanTake : ℕ → ℕ → Host → Type 0
CanTake ttl now h = (now - h.last_seen ≤ ttl) × (0 < free h)

-- Every host of the table has the property.
abbrev pub AllHosts : (Host → Type 0) → Map Host → Type 0
AllHosts P [] = Unit
AllHosts P ((k, h) ∷ hs) = P h × AllHosts P hs

-- `h` is a host of the table.
abbrev pub IsHost : Host → Map Host → Type 0
IsHost h [] = ⊥
IsHost h ((k, x) ∷ hs) = (h ≡ x) ⊎ IsHost h hs

-- No host that can take a sandbox has more free slots than `h`.
abbrev pub IsBest : ℕ → ℕ → Host → Map Host → Type 0
IsBest ttl now h = AllHosts (λ x. CanTake ttl now x → free x ≤ free h)

passes_over_iff : (ttl now : ℕ) (h : Host) → passes_over ttl now h ≡ false → CanTake ttl now h
unfolding passes_over
passes_over_iff ttl now h e = ground arith

passes_over-not : (ttl now : ℕ) (h : Host) → CanTake ttl now h → passes_over ttl now h ≡ false
unfolding passes_over
passes_over-not ttl now h e = ground arith

over_absurd : (ttl now : ℕ) (h : Host) → CanTake ttl now h → passes_over ttl now h ≡ true → ⊥
over_absurd ttl now h can over = false≢true (sym (passes_over-not ttl now h can) ∙ over)

-- One turn of the loop keeps the best host so far, or replaces it by one with more free slots.
better-some :
    (ttl now : ℕ) (best x : Host)
    → CanTake ttl now best
    → (h : Host) × (better ttl now (some best) x ≡ some h)
      × CanTake ttl now h
      × ((h ≡ best) ⊎ (h ≡ x))
      × (free best ≤ free h)
      × (CanTake ttl now x → free x ≤ free h)
unfolding better
better-some ttl now best x c = elim (Bool-cases (passes_over ttl now x)) [
  | inl over ↦
      (best, rw over refl, c, inl refl, omega arith, λ can. absurd (over_absurd ttl now x can over))
  | inr takes ↦ elim (Bool-cases (ltb (free best) (free x))) [
    | inl more ↦ (
      x,
      rw (takes, more) refl,
      passes_over_iff ttl now x takes,
      inr refl,
      ground arith,
      λ can. omega arith,
    )
    | inr less ↦ (best, rw (takes, less) refl, c, inl refl, omega arith, λ can. ground arith)
  ]
]

-- The loop from a best host so far ends with one that is at least as good.
pick_from-some :
    (ttl now : ℕ) (best : Host) (hs : Map Host)
    → CanTake ttl now best
    → (h : Host) × (pick_from ttl now (some best) hs ≡ some h)
      × CanTake ttl now h
      × ((h ≡ best) ⊎ IsHost h hs)
      × (free best ≤ free h)
      × IsBest ttl now h hs
unfolding pick_from
pick_from-some ttl now best [] c = (best, refl, c, inl refl, omega arith, tt)
pick_from-some ttl now best ((k, x) ∷ hs) c =
    let (y, step, cy, from, up, over) = better-some ttl now best x c in
    let (h, e, ch, m, le, b) = pick_from-some ttl now y hs cy in
    (
      h,
      rw step e,
      ch,
      elim m [
        | inl a ↦ elim from [ inl f ↦ inl (a ∙ f) | inr f ↦ inr (inl (a ∙ f)) ]
        | inr a ↦ inr (inr a)
      ],
      omega arith,
      ((λ can. omega (arith, over can)), b),
    )

-- What pick_host promises of a table of hosts.
pub data Picked (ttl now : ℕ) (hosts : Map Host) : Option Host → Type 0 where
  best :
      (h : Host)
      → IsHost h hosts
      → CanTake ttl now h
      → IsBest ttl now h hosts
      → Picked ttl now hosts (some h)
  nobody : AllHosts (λ x. ¬ CanTake ttl now x) hosts → Picked ttl now hosts none

Picked-skip :
    (ttl now : ℕ) (k : String) (x : Host) (hs : Map Host)
    → ¬ CanTake ttl now x
    → (r : Option Host) → Picked ttl now hs r
    → Picked ttl now ((k, x) ∷ hs) r
Picked-skip ttl now k x hs n _ (best h m c b) = best h (inr m) c ((λ can. absurd (n can)), b)
Picked-skip ttl now k x hs n _ (nobody a) = nobody (n, a)

pick_from-Picked :
    (ttl now : ℕ) (hosts : Map Host) → Picked ttl now hosts (pick_from ttl now none hosts)
unfolding pick_from better
pick_from-Picked ttl now [] = nobody tt
pick_from-Picked ttl now ((k, x) ∷ hs) = elim (Bool-cases (passes_over ttl now x)) [
  | inl over ↦ rw over (
      Picked-skip ttl now k x hs (λ can. over_absurd ttl now x can over) (pick_from ttl now none hs)
        (pick_from-Picked ttl now hs))
  | inr takes ↦
      let (h, e, ch, m, le, b) = pick_from-some ttl now x hs (passes_over_iff ttl now x takes) in
      rw (takes, e) (best h m ch ((λ can. le), b))
]

-- pick_host finds a host of the table that was seen within the time limit and has a free slot, and
-- no such host has more free slots than it; it finds none only where no host of the table is seen
-- within the time limit and has a free slot. This holds in whichever order the map is visited.
pub pick_host-Picked : (now : ℕ) (g : Gateway) → Picked g.ttl now g.hosts (pick_host now g)
unfolding pick_host
pick_host-Picked now g = pick_from-Picked g.ttl now g.hosts
