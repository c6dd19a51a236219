-- ===== src/Gateway/Routing.antt =====
-- internal/gateway/gateway.go: what the routes and hosts are after a heartbeat, a create and a prune.
use web_sandbox.Gateway.State.{
  Host, Heartbeat, Gateway, or_unknown, updated_host, add_routes, upsert, charge, record_created,
}
use web_sandbox.Common.{
  Bool-cases, IsMap, List, Map, Option-cases, String, [], arith, contains, if◌then◌else◌, inl, inr,
  keep_unless, lookup, lookup-put, lookup-remove_where, put, put-IsMap, refl, remove, remove_where,
  remove_where-IsMap, some, ℕ, ◌==◌, ◌∷◌, ◌≡◌, ◌≢◌, Eq-String, Option, eq_iff, none, ◌+◌, sym,
}

-- The tables are maps, a host is kept under its own id, and that is never the empty text.
abbrev pub IsKeyed : Map Host → Type 0
IsKeyed [] = Unit
IsKeyed ((k, h) ∷ hs) = (h.id ≡ k) × (k ≢ "") × IsKeyed hs

pub record IsRouted (g : Gateway) : Type 0 where
  pub hosts : IsMap g.hosts
  pub route : IsMap g.route
  pub keyed : IsKeyed g.hosts

pub remove-IsKeyed : (k : String) (hs : Map Host) → IsKeyed hs → IsKeyed (remove k hs)
unfolding remove
remove-IsKeyed k [] h = tt
remove-IsKeyed k ((j, x) ∷ hs) h = elim (Bool-cases (j == k)) [
  | inl gone ↦ rw gone (remove-IsKeyed k hs h.2)
  | inr kept ↦ rw kept (h.0, h.1, remove-IsKeyed k hs h.2)
]

put-IsKeyed :
    (k : String) (x : Host) (hs : Map Host) → x.id ≡ k → k ≢ "" → IsKeyed hs → IsKeyed (put k x hs)
unfolding put
put-IsKeyed k x hs e n h = (e, n, remove-IsKeyed k hs h)

-- A host that is found under an id has that id, and it is not empty.
pub lookup-IsKeyed :
    (k : String) (hs : Map Host) (x : Host)
    → IsKeyed hs
    → lookup k hs ≡ some x
    → (x.id ≡ k) × (k ≢ "")
unfolding lookup
lookup-IsKeyed k [] x h e = cc
lookup-IsKeyed k ((j, y) ∷ hs) x h e = elim (Bool-cases (j == k)) [
  | inl hit ↦
      let same : j ≡ k = (eq_iff j k).0 hit in
      let found : y ≡ x = ground arith in (cc, λ empty. h.1 cc)
  | inr miss ↦ lookup-IsKeyed k hs x h.2 (ground arith)
]

add_routes-IsMap :
    (hid : String) (sids : List String) (m : Map String) → IsMap m → IsMap (add_routes hid sids m)
unfolding add_routes
add_routes-IsMap hid [] m h = h
add_routes-IsMap hid (sid ∷ sids) m h =
    add_routes-IsMap hid sids (put sid hid m) (put-IsMap sid hid m h)

lookup-add_routes :
    (hid : String) (sids : List String) (m : Map String) (j : String)
    → lookup j (add_routes hid sids m) ≡ (if contains sids j then some hid else lookup j m)
unfolding add_routes contains
lookup-add_routes hid [] m j = refl
lookup-add_routes hid (sid ∷ sids) m j =
    ground (arith, lookup-add_routes hid sids (put sid hid m) j, lookup-put sid j hid m)

-- After a heartbeat a sandbox that it lists is routed to its host; of the other routes, those to that
-- host are gone and the rest are as before.
pub lookup-upsert-route :
    (now : ℕ) (hb : Heartbeat) (g : Gateway) (sid : String)
    → IsMap g.route
    → lookup sid (upsert now hb g).route ≡ (
        if contains hb.sandbox_ids sid
        then some hb.host_id
        else keep_unless (λ hid. hid == hb.host_id) (lookup sid g.route))
unfolding upsert
lookup-upsert-route now hb g sid m =
    rw
      (
        lookup-add_routes hb.host_id hb.sandbox_ids
            (remove_where (λ hid. hid == hb.host_id) g.route) sid,
        lookup-remove_where (λ hid. hid == hb.host_id) sid g.route m,
      )
      refl

pub lookup-upsert-hosts :
    (now : ℕ) (hb : Heartbeat) (g : Gateway) (hid : String)
    → lookup hid (upsert now hb g).hosts ≡ (
        if hb.host_id == hid
        then some (updated_host now hb (or_unknown hb.host_id (lookup hb.host_id g.hosts)))
        else lookup hid g.hosts)
unfolding upsert
lookup-upsert-hosts now hb g hid =
    lookup-put hb.host_id hid
      (updated_host now hb (or_unknown hb.host_id (lookup hb.host_id g.hosts))) g.hosts

pub or_unknown_id :
    (hid : String) (hs : Map Host) → IsKeyed hs → (or_unknown hid (lookup hid hs)).id ≡ hid
or_unknown_id hid hs h = elim (Option-cases (lookup hid hs)) [
  | inl e ↦ rw e refl
  | inr (x, e) ↦ rw e (lookup-IsKeyed hid hs x h e).0
]

pub upsert-IsRouted :
    (now : ℕ) (hb : Heartbeat) (g : Gateway)
    → hb.host_id ≢ ""
    → IsRouted g
    → IsRouted (upsert now hb g)
unfolding upsert
upsert-IsRouted now hb g n h = record {
  hosts = put-IsMap hb.host_id _ g.hosts h.hosts;
  route =
      add_routes-IsMap hb.host_id hb.sandbox_ids _
        (remove_where-IsMap (λ hid. hid == hb.host_id) g.route h.route);
  keyed = put-IsKeyed hb.host_id _ g.hosts (or_unknown_id hb.host_id g.hosts h.keyed) n h.keyed;
}

-- The host, with one more slot in use.
abbrev pub charged : Host → Host
charged h = record h { slots_used = h.slots_used + 1 }

abbrev pub charged_option : Option Host → Option Host
charged_option none = none
charged_option (some h) = some (charged h)

lookup-charge_at :
    (hid k : String) (hs : Map Host) (o : Option Host)
    → lookup hid hs ≡ o
    → lookup k (charge hid o hs) ≡ (if hid == k then charged_option (lookup k hs) else lookup k hs)
unfolding charge
lookup-charge_at hid k hs none e = elim (Bool-cases (hid == k)) [
  | inl same ↦ rw (same, sym ((eq_iff hid k).0 same), e) refl
  | inr other ↦ rw other refl
]
lookup-charge_at hid k hs (some x) e = elim (Bool-cases (hid == k)) [
  | inl same ↦ rw (lookup-put hid k (charged x) hs, same, sym ((eq_iff hid k).0 same), e) refl
  | inr other ↦ rw (lookup-put hid k (charged x) hs, other) refl
]

lookup-charge :
    (hid k : String) (hs : Map Host)
    → lookup k (charge hid (lookup hid hs) hs)
      ≡ (if hid == k then charged_option (lookup k hs) else lookup k hs)
lookup-charge hid k hs = lookup-charge_at hid k hs (lookup hid hs) refl

-- A create routes the sandbox to its host, and changes no other route.
pub lookup-record_created-route :
    (hid sid : String) (g : Gateway) (j : String)
    → lookup j (record_created hid sid g).route ≡ (if sid == j then some hid else lookup j g.route)
unfolding record_created
lookup-record_created-route hid sid g j = lookup-put sid j hid g.route

pub lookup-record_created-hosts :
    (hid sid : String) (g : Gateway) (k : String)
    → lookup k (record_created hid sid g).hosts
      ≡ (if hid == k then charged_option (lookup k g.hosts) else lookup k g.hosts)
unfolding record_created
lookup-record_created-hosts hid sid g k = lookup-charge hid k g.hosts

pub record_created-IsRouted :
    (hid sid : String) (g : Gateway) → IsRouted g → IsRouted (record_created hid sid g)
unfolding record_created charge
record_created-IsRouted hid sid g h = elim (Option-cases (lookup hid g.hosts)) [
  | inl e ↦
      rw e (record { hosts = h.hosts; route = put-IsMap sid hid g.route h.route; keyed = h.keyed })
  | inr (x, e) ↦ rw e (record {
    hosts = put-IsMap hid _ g.hosts h.hosts;
    route = put-IsMap sid hid g.route h.route;
    keyed =
        put-IsKeyed hid _ g.hosts (lookup-IsKeyed hid g.hosts x h.keyed e).0
          (lookup-IsKeyed hid g.hosts x h.keyed e).1 h.keyed;
  })
]
