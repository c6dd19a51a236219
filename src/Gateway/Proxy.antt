-- ===== src/Gateway/Proxy.antt =====
-- internal/gateway/gateway.go: where a request for a sandbox is passed on to.
use Prim.Native.String.{◌++◌ as str_append}
use web_sandbox.Gateway.State.{Host, Gateway}
use web_sandbox.Gateway.Routing.{IsRouted, lookup-IsKeyed}
use web_sandbox.Gateway.Handlers.{Forwarded, or_empty, owner, forward, handle_proxy_by_id}
use web_sandbox.Common.{
  Bool-cases, Option, Result, String, arith, eq_iff, err, inl, inr, lookup, none, ok, refl, some, ℕ,
  ◌==◌, ◌≡◌, ◌≢◌, Eq-String, subst, sym,
}

-- The header is that of the host's own token: none where the host has no token.
abbrev pub IsOwnToken : Host → Option String → Type 0
IsOwnToken h none = h.token ≡ ""
IsOwnToken h (some a) = (h.token ≢ "") × (a ≡ str_append "Bearer " h.token)

pub data Proxied (sid : String) (g : Gateway) : Result ℕ Forwarded → Type 0 where
  unrouted : lookup sid g.route ≡ none → Proxied sid g (err 404)
  pruned :
      (hid : String)
      → lookup sid g.route ≡ some hid
      → lookup hid g.hosts ≡ none
      → Proxied sid g (err 404)
  passed :
      (f : Forwarded)
      → lookup sid g.route ≡ some f.host.id
      → lookup f.host.id g.hosts ≡ some f.host
      → IsOwnToken f.host f.authorization
      → Proxied sid g (ok f)

forward-IsOwnToken : (h : Host) → IsOwnToken h (forward h).authorization
unfolding forward
forward-IsOwnToken h = elim (Bool-cases (h.token == "")) [
  | inl e ↦ rw e ((eq_iff h.token "").0 e)
  | inr e ↦ rw e ((λ p. ground (arith, eq_iff h.token "")), refl)
]

Proxied-at :
    (sid : String) (g : Gateway) (r : Option String) (o : Option Host)
    → IsRouted g
    → lookup sid g.route ≡ r
    → lookup (or_empty r) g.hosts ≡ o
    → Proxied sid g (elim o [ none ↦ err 404 | some h ↦ ok (forward h) ])
unfolding forward
Proxied-at sid g none none k e f = unrouted e
Proxied-at sid g none (some h) k e f = absurd ((lookup-IsKeyed "" g.hosts h k.keyed f).1 refl)
Proxied-at sid g (some hid) none k e f = pruned hid e f
Proxied-at sid g (some hid) (some h) k e f =
    let own = (lookup-IsKeyed hid g.hosts h k.keyed f).0 in
    passed (forward h) (subst (λ i. lookup sid g.route ≡ some i) (sym own) e)
      (subst (λ i. lookup i g.hosts ≡ some h) (sym own) f) (forward-IsOwnToken h)

-- In a gateway with well-formed tables, a request for a sandbox is passed on exactly when the sandbox has a route to a known host: to that
-- host, with that host's own token or none for authorization. Otherwise it is answered 404.
pub handle_proxy_by_id-Proxied :
    (sid : String) (g : Gateway) → IsRouted g → Proxied sid g (handle_proxy_by_id sid g)
unfolding handle_proxy_by_id owner
handle_proxy_by_id-Proxied sid g k = Proxied-at sid g (lookup sid g.route) _ k refl refl
