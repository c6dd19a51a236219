-- ===== src/Gateway/Recovery.antt =====
-- internal/gateway/gateway.go and internal/server/heartbeat.go: a gateway that has lost its tables has
-- the routes again when every host has sent a heartbeat.
use web_sandbox.Gateway.State.{Heartbeat, Gateway, upsert}
use web_sandbox.Gateway.Routing.{IsRouted, lookup-upsert-route, upsert-IsRouted}
use web_sandbox.Gateway.Handlers.{handle_register, no_content}
use web_sandbox.Common.{
  All, List, String, [], arith, contains, eq_iff, false, lookup, map, some, ℕ, ◌++◌, ◌∷◌, ◌≡◌, ◌≢◌,
  Eq-String, Distinct, contains-count, inl, inr, refl, sym, true, ◌∙◌, ◌⊎◌, contains-append,
  Distinct-apart, Distinct-head, Distinct-right, Distinct-tail, ap,
}

-- Each heartbeat is handled when it comes, at a time of its own.
pub register_all : List (ℕ × Heartbeat) → Gateway → Gateway
register_all [] g = g
register_all ((now, hb) ∷ hbs) g = register_all hbs (handle_register now (some hb) g).1

abbrev pub IsValid : Heartbeat → Type 0
IsValid hb = (hb.host_id ≢ "") × (hb.addr ≢ "")

abbrev host_id_of : ℕ × Heartbeat → String
host_id_of (now, hb) = hb.host_id

abbrev pub reporting_ids : List (ℕ × Heartbeat) → List String
reporting_ids hbs = map host_id_of hbs

abbrev pub listed_ids : List (ℕ × Heartbeat) → List String
listed_ids [] = []
listed_ids ((now, hb) ∷ hbs) = hb.sandbox_ids ++ listed_ids hbs

handle_register-valid :
    (now : ℕ) (hb : Heartbeat) (g : Gateway)
    → IsValid hb
    → handle_register now (some hb) g ≡ (no_content, upsert now hb g)
unfolding handle_register
handle_register-valid now hb g v = ground (arith, eq_iff hb.host_id "", eq_iff hb.addr "")

register_all-cons :
    (now : ℕ) (hb : Heartbeat) (hbs : List (ℕ × Heartbeat)) (g : Gateway)
    → IsValid hb
    → register_all ((now, hb) ∷ hbs) g ≡ register_all hbs (upsert now hb g)
unfolding register_all
register_all-cons now hb hbs g v = ap (λ p. register_all hbs p.1) (handle_register-valid now hb g v)

-- A route survives the heartbeats of other hosts about other sandboxes.
register_all-keeps :
    (hbs : List (ℕ × Heartbeat)) (g : Gateway) (sid hid : String)
    → IsRouted g
    → All (λ e. IsValid e.1) hbs
    → contains (listed_ids hbs) sid ≡ false
    → contains (reporting_ids hbs) hid ≡ false
    → lookup sid g.route ≡ some hid
    → lookup sid (register_all hbs g).route ≡ some hid
unfolding register_all contains
register_all-keeps [] g sid hid r v ns nh e = e
register_all-keeps ((now, hb) ∷ hbs) g sid hid r v ns nh e =
    let absent : contains hb.sandbox_ids sid ≡ false =
      ground (arith, contains-append sid hb.sandbox_ids (listed_ids hbs)) in
    let later : contains (listed_ids hbs) sid ≡ false =
      ground (arith, contains-append sid hb.sandbox_ids (listed_ids hbs)) in
    rw (register_all-cons now hb hbs g v.0) (
      register_all-keeps hbs (upsert now hb g) sid hid (upsert-IsRouted now hb g v.0.0 r) v.1 later
        (ground arith)
        (lookup-upsert-route now hb g sid r.route
          ∙ rw (absent, e) (ground (arith, eq_iff hid hb.host_id, eq_iff hb.host_id hid))))

-- A heartbeat of the host lists the sandbox.
abbrev pub IsListed : String → String → List (ℕ × Heartbeat) → Type 0
IsListed sid hid [] = ⊥
IsListed sid hid ((now, hb) ∷ hbs) =
    ((contains hb.sandbox_ids sid ≡ true) × (hb.host_id ≡ hid)) ⊎ IsListed sid hid hbs

-- When hosts with different ids have sent valid heartbeats to a gateway with well-formed tables, and no
-- sandbox is listed twice, each listed sandbox is routed to the host that listed it, whatever routes
-- there were and in whichever order the heartbeats come.
pub register_all-rebuilds :
    (hbs : List (ℕ × Heartbeat)) (g : Gateway) (sid hid : String)
    → IsRouted g
    → All (λ e. IsValid e.1) hbs
    → Distinct (listed_ids hbs)
    → Distinct (reporting_ids hbs)
    → IsListed sid hid hbs
    → lookup sid (register_all hbs g).route ≡ some hid
unfolding register_all
register_all-rebuilds [] g sid hid r v ds dh m = absurd m
register_all-rebuilds ((now, hb) ∷ hbs) g sid hid r v ds dh (inl (m, e)) =
    rw (register_all-cons now hb hbs g v.0, sym e)
      (register_all-keeps hbs (upsert now hb g) sid hb.host_id (upsert-IsRouted now hb g v.0.0 r)
        v.1 (Distinct-apart sid hb.sandbox_ids (listed_ids hbs) ds m)
        (contains-count hb.host_id (reporting_ids hbs)
          (Distinct-head hb.host_id (reporting_ids hbs) dh))
        (lookup-upsert-route now hb g sid r.route ∙ rw m refl))
register_all-rebuilds ((now, hb) ∷ hbs) g sid hid r v ds dh (inr m) =
    rw (register_all-cons now hb hbs g v.0) (
      register_all-rebuilds hbs (upsert now hb g) sid hid (upsert-IsRouted now hb g v.0.0 r) v.1
        (Distinct-right hb.sandbox_ids (listed_ids hbs) ds)
        (Distinct-tail hb.host_id (reporting_ids hbs) dh) m)
