-- ===== src/Gateway/Steps.antt =====
-- internal/gateway/gateway.go: the gateway's histories. Each handler and the prune loop change the
-- tables under the lock, so a history is a sequence of such changes; between a create's pickHost and
-- its end any others may come.
use web_sandbox.Registry.Types.{Sandbox}
use web_sandbox.Gateway.State.{
  Host, Heartbeat, Gateway, new, updated_host, or_unknown, upsert, pick_host, prune, record_created,
}
use web_sandbox.Gateway.Handlers.{
  Reply, failed, no_content, created, handle_register, finish_create, create_on, handle_create,
}
use web_sandbox.Gateway.Recovery.{IsValid}
use web_sandbox.Gateway.Placement.{
  AllHosts, CanTake, IsBest, IsHost, Picked, best, nobody, pick_host-Picked,
}
use web_sandbox.Common.{
  Bool-cases, Option, String, contains, if◌then◌else◌, inl, inr, keep_unless, lookup, none, some, ℕ,
  beq_refl, ◌∙◌, ◌==◌, ◌||◌, ◌≡◌, Bool, arith, eq_iff, false, refl, true, Eq-String,
}
use web_sandbox.Gateway.Routing.{
  IsRouted, or_unknown_id, lookup-upsert-hosts, lookup-upsert-route, record_created-IsRouted,
  upsert-IsRouted, charged_option, lookup-record_created-hosts, lookup-record_created-route,
}
use web_sandbox.Gateway.Pruning.{prune-IsRouted}

pub data Step : Gateway → Gateway → Type 0 where
  registers : (now : ℕ) (hb : Option Heartbeat) (g : Gateway) → Step g (handle_register now hb g).1
  prunes : (now : ℕ) (g : Gateway) → Step g (prune now g)
  answers :
      (h : Host) (response : Option Sandbox) (g : Gateway) → Step g (finish_create h response g).1

pub data Steps : Gateway → Gateway → Type 0 where
  done : (g : Gateway) → Steps g g
  and_then : (a b c : Gateway) → Step a b → Steps b c → Steps a c

-- An entry that says of a host what its heartbeat says, and when it was heard.
pub record IsReported (now : ℕ) (hb : Heartbeat) (h : Host) : Type 0 where
  pub id : h.id ≡ hb.host_id
  pub addr : h.addr ≡ hb.addr
  pub token : h.token ≡ hb.token
  pub slots_total : h.slots_total ≡ hb.slots_total
  pub slots_used : h.slots_used ≡ hb.slots_used
  pub last_seen : h.last_seen ≡ now

-- What a heartbeat does: it is refused, or the host is updated and its routes are replaced.
pub data Registered (now : ℕ) (g : Gateway) : Option Heartbeat → Reply × Gateway → Type 0 where
  undecoded : Registered now g none (failed 400, g)
  refused : (hb : Heartbeat) → ¬ IsValid hb → Registered now g (some hb) (failed 400, g)
  taken :
      (hb : Heartbeat) (g' : Gateway)
      → IsValid hb
      → ((h : Host) × (lookup hb.host_id g'.hosts ≡ some h) × IsReported now hb h)
      → ((hid : String) → (hb.host_id == hid) ≡ false → lookup hid g'.hosts ≡ lookup hid g.hosts)
      → ((sid : String)
          → lookup sid g'.route ≡ (
              if contains hb.sandbox_ids sid
              then some hb.host_id
              else keep_unless (λ hid. hid == hb.host_id) (lookup sid g.route)))
      → IsRouted g'
      → Registered now g (some hb) (no_content, g')

invalid : (hb : Heartbeat) → IsValid hb → (hb.host_id == "" || hb.addr == "") ≡ true → ⊥
invalid hb v bad = ground (arith, eq_iff hb.host_id "", eq_iff hb.addr "")

is_valid : (hb : Heartbeat) → (hb.host_id == "" || hb.addr == "") ≡ false → IsValid hb
is_valid hb good =
    ((λ e. ground (arith, eq_iff hb.host_id "")), λ e. ground (arith, eq_iff hb.addr ""))

upsert-IsReported :
    (now : ℕ) (hb : Heartbeat) (g : Gateway)
    → IsRouted g
    → (h : Host) × (lookup hb.host_id (upsert now hb g).hosts ≡ some h) × IsReported now hb h
upsert-IsReported now hb g r = (
  updated_host now hb (or_unknown hb.host_id (lookup hb.host_id g.hosts)),
  lookup-upsert-hosts now hb g hb.host_id ∙ rw (beq_refl hb.host_id) refl,
  record {
    id = or_unknown_id hb.host_id g.hosts r.keyed;
    addr = refl;
    token = refl;
    slots_total = refl;
    slots_used = refl;
    last_seen = refl;
  },
)

upsert-others :
    (now : ℕ) (hb : Heartbeat) (g : Gateway) (hid : String)
    → (hb.host_id == hid) ≡ false
    → lookup hid (upsert now hb g).hosts ≡ lookup hid g.hosts
upsert-others now hb g hid n = lookup-upsert-hosts now hb g hid ∙ rw n refl

-- In a gateway with well-formed tables, a heartbeat without a host id or an address is refused and changes
-- nothing. Any other is taken: the entry of its host has the id, the address, the token and the slots
-- that it reports and was seen now, the sandboxes that it lists are routed to the host and no others
-- are, and no other host's entry changes.
pub handle_register-Registered :
    (now : ℕ) (hb : Option Heartbeat) (g : Gateway)
    → IsRouted g
    → Registered now g hb (handle_register now hb g)
unfolding handle_register
handle_register-Registered now none g r = undecoded
handle_register-Registered now (some hb) g r =
    elim (Bool-cases (hb.host_id == "" || hb.addr == "")) [
      | inl bad ↦ rw bad (refused hb (λ v. invalid hb v bad))
      | inr good ↦
          let valid = is_valid hb good in
          rw good (
            taken hb (upsert now hb g) valid (upsert-IsReported now hb g r) (upsert-others now hb g)
              (λ sid. lookup-upsert-route now hb g sid r.route)
              (upsert-IsRouted now hb g valid.0 r))
    ]

finish_create-IsRouted :
    (h : Host) (response : Option Sandbox) (g : Gateway)
    → IsRouted g
    → IsRouted (finish_create h response g).1
unfolding finish_create
finish_create-IsRouted h none g r = r
finish_create-IsRouted h (some sb) g r = record_created-IsRouted h.id sb.id g r

Registered-IsRouted :
    (now : ℕ) (g : Gateway) (hb : Option Heartbeat) (q : Reply × Gateway)
    → IsRouted g
    → Registered now g hb q
    → IsRouted q.1
Registered-IsRouted now g hb q r undecoded = r
Registered-IsRouted now g hb q r (refused x n) = r
Registered-IsRouted now g hb q r (taken x g' v h hs rs r') = r'

Step-IsRouted : (a b : Gateway) → Step a b → IsRouted a → IsRouted b
Step-IsRouted a b (registers now hb g) r =
    Registered-IsRouted now g hb (handle_register now hb g) r
      (handle_register-Registered now hb g r)
Step-IsRouted a b (prunes now g) r = prune-IsRouted now g r
Step-IsRouted a b (answers h response g) r = finish_create-IsRouted h response g r

pub Steps-IsRouted : (a b : Gateway) → Steps a b → IsRouted a → IsRouted b
Steps-IsRouted a b (done g) r = r
Steps-IsRouted a b (and_then x y z s ss) r = Steps-IsRouted y z ss (Step-IsRouted x y s r)

-- In every history of a gateway that starts with empty tables, however heartbeats, prunes and the ends
-- of creates follow one another: no sandbox has two routes, no host two entries, and each host is
-- kept under its own id, which is not empty.
pub new-Steps-IsRouted :
    (token : String) (ttl : ℕ) (g : Gateway) → Steps (new token ttl) g → IsRouted g
unfolding new
new-Steps-IsRouted token ttl g s =
    Steps-IsRouted (new token ttl) g s (record { hosts = tt; route = tt; keyed = tt })

-- What a create does. `g` is the gateway at pickHost, `g'` the one when the host has answered.
pub data CreatedOn (now : ℕ) (decoded : Bool) (respond : Host → Option Sandbox) (g g' : Gateway)
    : Reply × Gateway → Type 0 where
  undecodable : decoded ≡ false → CreatedOn now decoded respond g g' (failed 400, g)
  no_host :
      decoded ≡ true
      → AllHosts (λ x. ¬ CanTake g.ttl now x) g.hosts
      → CreatedOn now decoded respond g g' (failed 503, g)
  no_answer :
      (h : Host)
      → decoded ≡ true
      → IsHost h g.hosts
      → CanTake g.ttl now h
      → IsBest g.ttl now h g.hosts
      → respond h ≡ none
      → CreatedOn now decoded respond g g' (failed 502, g')
  placed :
      (h : Host) (sb : Sandbox) (g'' : Gateway)
      → decoded ≡ true
      → IsHost h g.hosts
      → CanTake g.ttl now h
      → IsBest g.ttl now h g.hosts
      → respond h ≡ some sb
      → ((sid : String)
          → lookup sid g''.route ≡ (if sb.id == sid then some h.id else lookup sid g'.route))
      → ((hid : String)
          → lookup hid g''.hosts
            ≡ (if h.id == hid then charged_option (lookup hid g'.hosts) else lookup hid g'.hosts))
      → CreatedOn now decoded respond g g' (created sb, g'')

finish_create-CreatedOn :
    (now : ℕ) (respond : Host → Option Sandbox) (g g' : Gateway) (h : Host) (o : Option Sandbox)
    → IsHost h g.hosts
    → CanTake g.ttl now h
    → IsBest g.ttl now h g.hosts
    → respond h ≡ o
    → CreatedOn now true respond g g' (finish_create h o g')
unfolding finish_create
finish_create-CreatedOn now respond g g' h none m c b e = no_answer h refl m c b e
finish_create-CreatedOn now respond g g' h (some sb) m c b e =
    placed h sb (record_created h.id sb.id g') refl m c b e
      (lookup-record_created-route h.id sb.id g') (lookup-record_created-hosts h.id sb.id g')

create_on-CreatedOn :
    (now : ℕ) (respond : Host → Option Sandbox) (meanwhile : Gateway → Gateway) (g : Gateway)
    (o : Option Host)
    → Picked g.ttl now g.hosts o
    → CreatedOn now true respond g (meanwhile g) (create_on o respond meanwhile g)
unfolding create_on
create_on-CreatedOn now respond meanwhile g _ (best h m c b) =
    finish_create-CreatedOn now respond g (meanwhile g) h (respond h) m c b refl
create_on-CreatedOn now respond meanwhile g _ (nobody a) = no_host refl a

-- A create is refused with 400 where the body cannot be decoded, and only there; with 503 where it can and
-- no host can take a sandbox. Otherwise it goes to a host of the table that can, with the most free
-- slots; when that host answers with a sandbox, the sandbox is routed to it and it has one more slot
-- in use, if it is still known, and nothing else changes; when it does not, nothing changes.
pub handle_create-CreatedOn :
    (now : ℕ) (decoded : Bool) (respond : Host → Option Sandbox) (meanwhile : Gateway → Gateway)
    (g : Gateway)
    → CreatedOn now decoded respond g (meanwhile g) (handle_create now decoded respond meanwhile g)
unfolding handle_create
handle_create-CreatedOn now true respond meanwhile g =
    create_on-CreatedOn now respond meanwhile g (pick_host now g) (pick_host-Picked now g)
handle_create-CreatedOn now false respond meanwhile g = undecodable refl
