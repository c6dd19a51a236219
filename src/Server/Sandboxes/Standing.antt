-- ===== src/Server/Sandboxes/Standing.antt =====
-- internal/server: what a sandbox holds is its own, so that the calls for one sandbox spare the others.
use web_sandbox.Registry.Engine.{find_sandbox, is_running}
use web_sandbox.Registry.Types.{SandboxRow, Sandbox}
use web_sandbox.Server.Host.{
  Settings, output, prerouting, process, tap, disk, pause, artifacts, Held, Host, holds, Eq-Held,
}
use web_sandbox.Server.Sandboxes.Possessions.{Matches, possessions}
use web_sandbox.Server.Sandboxes.Tracking.{owns}
use mathlib.Core.Bool.{false≢true}
use web_sandbox.Common.{
  Bool-cases, Distinct, List, String, [], ap, arith, contains, contains-count, eq_iff, false,
  filter, find, inl, inr, map, some, true, ◌==◌, ◌∙◌, ◌∷◌, ◌≡◌, Eq-String, refl, subst, sym,
  Distinct-head, Distinct-tail,
}

pub fresh_head : (a : String) (xs : List String) → Distinct (a ∷ xs) → contains xs a ≡ false
fresh_head a xs d = contains-count a xs (Distinct-head a xs d)

module _ (f : SandboxRow → String) where
  contains-found :
      (id : String) (r : SandboxRow) (rs : List SandboxRow)
      → find (λ q. q.id == id) rs ≡ some r
      → is_running r ≡ true
      → contains (map f (filter is_running rs)) (f r) ≡ true
  unfolding find filter contains
  contains-found id r [] h run = cc
  contains-found id r (q ∷ rs) h run = elim (Bool-cases (q.id == id)) [
    | inl hit ↦
        let same : q ≡ r = ground arith in
        let runs : is_running q ≡ true = ap is_running same ∙ run in
        rw runs (ground (arith, eq_iff (f q) (f r), ap f same))
    | inr miss ↦ ground (arith, contains-found id r rs)
  ]

  running_cons :
      (p : SandboxRow) (rs : List SandboxRow)
      → is_running p ≡ true
      → map f (filter is_running (p ∷ rs)) ≡ f p ∷ map f (filter is_running rs)
  unfolding filter
  running_cons p rs run = rw run refl

  running_tail :
      (p : SandboxRow) (rs : List SandboxRow)
      → Distinct (map f (filter is_running (p ∷ rs)))
      → Distinct (map f (filter is_running rs))
  unfolding filter
  running_tail p rs d = elim (Bool-cases (is_running p)) [
    | inl runs ↦ Distinct-tail (f p) _ (subst Distinct (running_cons p rs runs) d)
    | inr stops ↦ subst Distinct (rw stops refl) d
  ]

  differ :
      (p q : SandboxRow) (rs : List SandboxRow)
      → is_running p ≡ true
      → contains (map f (filter is_running rs)) (f q) ≡ true
      → Distinct (map f (filter is_running (p ∷ rs)))
      → (f p == f q) ≡ false
  differ p q rs runs has d =
      let fresh : contains (map f (filter is_running rs)) (f p) ≡ false =
        fresh_head (f p) _ (subst Distinct (running_cons p rs runs) d) in
      elim (Bool-cases (f p == f q)) [
        | inl same ↦
            let e : f p ≡ f q = (eq_iff (f p) (f q)).0 same in
            absurd (false≢true (sym fresh ∙ ap (contains (map f (filter is_running rs))) e ∙ has))
        | inr other ↦ other
      ]

  -- Two running rows under different ids differ in what is distinct among the running rows.
  pub found_apart :
      (id other : String) (r q : SandboxRow) (rs : List SandboxRow)
      → (other == id) ≡ false
      → find (λ p. p.id == id) rs ≡ some r
      → find (λ p. p.id == other) rs ≡ some q
      → is_running r ≡ true
      → is_running q ≡ true
      → Distinct (map f (filter is_running rs))
      → (f r == f q) ≡ false
  unfolding find
  found_apart id other r q [] n h k a b d = cc
  found_apart id other r q (p ∷ rs) n h k a b d = elim (Bool-cases (p.id == id)) [
    | inl hit ↦
        let miss : (p.id == other) ≡ false =
          ground (arith, eq_iff p.id id, eq_iff p.id other, eq_iff other id) in
        let same : p ≡ r = ground arith in
        let later : find (λ x. x.id == other) rs ≡ some q = ground arith in
        subst (λ x. (f x == f q) ≡ false) same
          (differ p q rs (ap is_running same ∙ a) (contains-found other q rs later b) d)
    | inr miss ↦ elim (Bool-cases (p.id == other)) [
      | inl hit' ↦
          let same : p ≡ q = ground arith in
          let later : find (λ x. x.id == id) rs ≡ some r = ground arith in
          let apart_q : (f p == f r) ≡ false =
            differ p r rs (ap is_running same ∙ b) (contains-found id r rs later a) d in
          ground (arith, eq_iff (f r) (f q), eq_iff (f p) (f r), ap f same)
      | inr miss' ↦
          found_apart id other r q rs n (ground arith) (ground arith) a b (running_tail p rs d)
    ]
  ]

-- The row of a sandbox is there, and it holds `xs`.
pub record Standing (id : String) (sb : Sandbox) (xs : List Held) (s : Host) : Type 0 where
  pub row : SandboxRow
  pub found : find_sandbox id s.conn.db ≡ some row
  pub named : Matches sb row
  pub has : (h : Held) → contains xs h ≡ true → holds h s ≡ true

abbrev pub IsOwned : String → Sandbox → List Held → Type 0
IsOwned id sb xs = (h : Held) → contains xs h ≡ true → owns id sb h ≡ true

pub possessions-IsOwned :
    (cfg : Settings) (id : String) (sb : Sandbox) → IsOwned id sb (possessions cfg id sb)
unfolding contains
possessions-IsOwned cfg id sb (disk p) k =
    ground (arith, eq_iff sb.rootfs_path p, eq_iff p sb.rootfs_path)
possessions-IsOwned cfg id sb (tap t) k =
    ground (arith, eq_iff sb.tap_device t, eq_iff t sb.tap_device)
possessions-IsOwned cfg id sb (prerouting p i g) k =
    ground (arith, eq_iff sb.guest_ip i, eq_iff i sb.guest_ip)
possessions-IsOwned cfg id sb (output p i g) k =
    ground (arith, eq_iff sb.guest_ip i, eq_iff i sb.guest_ip)
possessions-IsOwned cfg id sb (process i) k = ground (arith, eq_iff i id, eq_iff id i)
possessions-IsOwned cfg id sb (pause i) k = ground arith
possessions-IsOwned cfg id sb (artifacts i) k = ground arith

-- What belongs to one of two sandboxes that share no name does not belong to the other.
pub owned_apart :
    (id other : String) (sb sb' : Sandbox) (h : Held)
    → (other == id) ≡ false
    → (sb'.rootfs_path == sb.rootfs_path) ≡ false
    → (sb'.tap_device == sb.tap_device) ≡ false
    → (sb'.guest_ip == sb.guest_ip) ≡ false
    → owns other sb' h ≡ true
    → owns id sb h ≡ false
owned_apart id other sb sb' (disk p) n a b c k = ground (
  arith,
  eq_iff p sb'.rootfs_path,
  eq_iff p sb.rootfs_path,
  eq_iff sb'.rootfs_path sb.rootfs_path,
)
owned_apart id other sb sb' (tap t) n a b c k =
    ground
      (arith, eq_iff t sb'.tap_device, eq_iff t sb.tap_device, eq_iff sb'.tap_device sb.tap_device)
owned_apart id other sb sb' (prerouting p i g) n a b c k =
    ground (arith, eq_iff i sb'.guest_ip, eq_iff i sb.guest_ip, eq_iff sb'.guest_ip sb.guest_ip)
owned_apart id other sb sb' (output p i g) n a b c k =
    ground (arith, eq_iff i sb'.guest_ip, eq_iff i sb.guest_ip, eq_iff sb'.guest_ip sb.guest_ip)
owned_apart id other sb sb' (process i) n a b c k =
    ground (arith, eq_iff i id, eq_iff i other, eq_iff other id)
owned_apart id other sb sb' (pause i) n a b c k = ground arith
owned_apart id other sb sb' (artifacts i) n a b c k = ground arith
