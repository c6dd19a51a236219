-- ===== src/Gateway/Pruning.antt =====
-- internal/gateway/gateway.go: what a round of the prune loop leaves.
use web_sandbox.Gateway.State.{Host, Gateway, is_stale, dropped, prune_from, prune}
use web_sandbox.Gateway.Routing.{IsRouted, remove-IsKeyed}
use web_sandbox.Common.{
  Bool, Bool-cases, IsMap, Map, Option, String, [], arith, eq_iff, false, if◌then◌else◌, inl, inr,
  keep_unless, lookup, lookup-remove, lookup-remove_where, none, refl, remove_where-IsMap, some,
  true, ℕ, ◌&&◌, ◌==◌, ◌||◌, ◌∙◌, ◌∷◌, ◌≡◌, remove-IsMap, Eq-String,
}

keep_unless-false : (o : Option String) → o ≡ keep_unless (λ hid. false) o
keep_unless-false none = refl
keep_unless-false (some x) = refl

keep_unless-or :
    (j : String) (p : String → Bool) (o : Option String)
    → keep_unless p (keep_unless (λ hid. hid == j) o)
      ≡ keep_unless (λ hid. (j == hid && true) || p hid) o
keep_unless-or j p none = refl
keep_unless-or j p (some x) = ground (arith, eq_iff x j, eq_iff j x)

keep_unless-none :
    (j : String) (p : String → Bool) (o : Option String)
    → keep_unless p o ≡ keep_unless (λ hid. (j == hid && false) || p hid) o
keep_unless-none j p none = refl
keep_unless-none j p (some x) = ground arith

-- A round of the prune loop removes the stale hosts and the routes to them.
module _ (now : ℕ) where
  -- Whether the id is that of a stale host.
  pub is_gone : ℕ → String → Map Host → Bool
  is_gone ttl k [] = false
  is_gone ttl k ((j, h) ∷ hs) = (j == k && is_stale ttl now h) || is_gone ttl k hs

  prune_from-nil : (g : Gateway) → prune_from now [] g ≡ g
  unfolding prune_from
  prune_from-nil g = refl

  prune_from-cons :
      (k : String) (h : Host) (hs : Map Host) (g : Gateway)
      → prune_from now ((k, h) ∷ hs) g
        ≡ prune_from now hs (if is_stale g.ttl now h then dropped k g else g)
  unfolding prune_from
  prune_from-cons k h hs g = refl

  lookup-prune_from-hosts :
      (hs : Map Host) (g : Gateway) (k : String)
      → lookup k (prune_from now hs g).hosts
        ≡ (if is_gone g.ttl k hs then none else lookup k g.hosts)
  unfolding is_gone
  lookup-prune_from-hosts [] g k = rw (prune_from-nil g) refl
  lookup-prune_from-hosts ((j, h) ∷ hs) g k = elim (Bool-cases (is_stale g.ttl now h)) [
    | inl stale ↦
        rw
          (
            prune_from-cons j h hs g,
            stale,
            lookup-prune_from-hosts hs (dropped j g) k,
            lookup-remove j k g.hosts,
          )
          (ground arith)
    | inr fresh ↦
        rw (prune_from-cons j h hs g, fresh, lookup-prune_from-hosts hs g k) (ground arith)
  ]

  lookup-prune_from-route :
      (hs : Map Host) (g : Gateway) (sid : String)
      → IsMap g.route
      → lookup sid (prune_from now hs g).route
        ≡ keep_unless (λ hid. is_gone g.ttl hid hs) (lookup sid g.route)
  unfolding is_gone
  lookup-prune_from-route [] g sid m =
      rw (prune_from-nil g) (keep_unless-false (lookup sid g.route))
  lookup-prune_from-route ((j, h) ∷ hs) g sid m = elim (Bool-cases (is_stale g.ttl now h)) [
    | inl stale ↦
        rw
          (
            prune_from-cons j h hs g,
            stale,
            lookup-prune_from-route hs (dropped j g) sid
                (remove_where-IsMap (λ hid. hid == j) g.route m),
            lookup-remove_where (λ hid. hid == j) sid g.route m,
          )
          (keep_unless-or j (λ hid. is_gone g.ttl hid hs) (lookup sid g.route))
    | inr fresh ↦
        rw (prune_from-cons j h hs g, fresh, lookup-prune_from-route hs g sid m)
          (keep_unless-none j (λ hid. is_gone g.ttl hid hs) (lookup sid g.route))
  ]

  prune_from-IsRouted : (hs : Map Host) (g : Gateway) → IsRouted g → IsRouted (prune_from now hs g)
  prune_from-IsRouted [] g h = rw (prune_from-nil g) h
  prune_from-IsRouted ((k, x) ∷ hs) g h = elim (Bool-cases (is_stale g.ttl now x)) [
    | inl stale ↦
        rw (prune_from-cons k x hs g, stale)
          (prune_from-IsRouted hs (dropped k g) (record {
            hosts = remove-IsMap k g.hosts h.hosts;
            route = remove_where-IsMap (λ hid. hid == k) g.route h.route;
            keyed = remove-IsKeyed k g.hosts h.keyed;
          }))
    | inr fresh ↦ rw (prune_from-cons k x hs g, fresh) (prune_from-IsRouted hs g h)
  ]

is_gone-missing :
    (now ttl : ℕ) (k : String) (hs : Map Host) → lookup k hs ≡ none → is_gone now ttl k hs ≡ false
unfolding is_gone lookup
is_gone-missing now ttl k [] e = refl
is_gone-missing now ttl k ((j, h) ∷ hs) e = ground (arith, is_gone-missing now ttl k hs)

-- Whether an id is that of a stale host of the table.
abbrev pub names_stale : ℕ → ℕ → Option Host → Bool
names_stale ttl now none = false
names_stale ttl now (some h) = is_stale ttl now h

is_gone-names_stale :
    (now ttl : ℕ) (k : String) (hs : Map Host)
    → IsMap hs
    → is_gone now ttl k hs ≡ names_stale ttl now (lookup k hs)
unfolding is_gone lookup
is_gone-names_stale now ttl k [] m = refl
is_gone-names_stale now ttl k ((j, h) ∷ hs) m =
    ground (arith, eq_iff j k, is_gone-names_stale now ttl k hs m.1, is_gone-missing now ttl k hs)

keep_unless-names_stale :
    (ttl now : ℕ) (o : Option Host)
    → (if names_stale ttl now o then none else o) ≡ keep_unless (is_stale ttl now) o
keep_unless-names_stale ttl now none = refl
keep_unless-names_stale ttl now (some h) = refl

keep_unless-ext :
    (p q : String → Bool) (o : Option String)
    → ((x : String) → p x ≡ q x)
    → keep_unless p o ≡ keep_unless q o
keep_unless-ext p q none e = refl
keep_unless-ext p q (some x) e = rw (e x) refl

-- In a gateway with well-formed tables, after a round of the prune loop the stale hosts are gone and the others as they were, in whichever
-- order the map is visited.
pub lookup-prune-hosts :
    (now : ℕ) (g : Gateway) (k : String)
    → IsRouted g
    → lookup k (prune now g).hosts ≡ keep_unless (is_stale g.ttl now) (lookup k g.hosts)
unfolding prune
lookup-prune-hosts now g k r =
    lookup-prune_from-hosts now g.hosts g k
    ∙ rw (is_gone-names_stale now g.ttl k g.hosts r.hosts)
        (keep_unless-names_stale g.ttl now (lookup k g.hosts))

-- In a gateway with well-formed tables, after a round of the prune loop a sandbox has the route that it had, unless that was to a stale host:
-- then it has none.
pub lookup-prune-route :
    (now : ℕ) (g : Gateway) (sid : String)
    → IsRouted g
    → lookup sid (prune now g).route
      ≡ keep_unless (λ hid. names_stale g.ttl now (lookup hid g.hosts)) (lookup sid g.route)
unfolding prune
lookup-prune-route now g sid r =
    lookup-prune_from-route now g.hosts g sid r.route
    ∙ keep_unless-ext _ _ (lookup sid g.route)
        (λ hid. is_gone-names_stale now g.ttl hid g.hosts r.hosts)

pub prune-IsRouted : (now : ℕ) (g : Gateway) → IsRouted g → IsRouted (prune now g)
unfolding prune
prune-IsRouted now g r = prune_from-IsRouted now g.hosts g r
