-- ===== src/Gateway/Handlers.antt =====
-- internal/gateway/gateway.go: the handlers. What a host answers is an argument.
use Prim.Native.String.{◌++◌ as str_append, compare}
use text.Mathlib.Text.{is_lt}
use web_sandbox.Registry.Types.{Sandbox}
use web_sandbox.Gateway.State.{
  Host, Heartbeat, Gateway, is_stale, pick_host, record_created, upsert, free,
}
use web_sandbox.Common.{
  ◌++◌, Bool, Eq, List, Map, Option, Result, String, [], err, if◌then◌else◌, lookup, ltb, none, not,
  ok, some, sort_by, ℕ, ◌-◌, ◌/◌, ◌==◌, ◌||◌, ◌∷◌, Eq-String,
}

-- The status and body of a response.
pub data Reply : Type 0 where
  failed : ℕ → Reply
  no_content : Reply
  created : Sandbox → Reply
  listed : List Sandbox → Reply

unfoldable pub handle_register : ℕ → Option Heartbeat → Gateway → Reply × Gateway
handle_register now none g = (failed 400, g)
handle_register now (some hb) g =
    if hb.host_id == "" || hb.addr == "" then (failed 400, g) else (no_content, upsert now hb g)

-- The end of handleCreate, when the host has answered. The other requests that the gateway has
-- served since pickHost are the difference between two states.
unfoldable pub finish_create : Host → Option Sandbox → Gateway → Reply × Gateway
finish_create h none g = (failed 502, g)
finish_create h (some sb) g = (created sb, record_created h.id sb.id g)

unfoldable pub create_on :
    Option Host → (Host → Option Sandbox) → (Gateway → Gateway) → Gateway → Reply × Gateway
unfolding finish_create
create_on none respond meanwhile g = (failed 503, g)
create_on (some h) respond meanwhile g = finish_create h (respond h) (meanwhile g)

-- `decoded` says whether the body is absent or could be decoded; `respond` is the host's answer to the
-- create request; `meanwhile` is what other requests do to the tables until it comes.
unfoldable pub handle_create :
    ℕ → Bool → (Host → Option Sandbox) → (Gateway → Gateway) → Gateway → Reply × Gateway
unfolding create_on
handle_create now decoded respond meanwhile g =
    if decoded then create_on (pick_host now g) respond meanwhile g else (failed 400, g)

unfoldable pub live_hosts : ℕ → ℕ → Map Host → List Host
live_hosts ttl now [] = []
live_hosts ttl now ((k, h) ∷ hs) =
    let rest = live_hosts ttl now hs in if is_stale ttl now h then rest else h ∷ rest

-- A host that does not answer is left out.
abbrev answered : Option (List Sandbox) → List Sandbox
answered none = []
answered (some sbs) = sbs

unfoldable pub gather : (Host → Option (List Sandbox)) → List Host → List Sandbox
gather list_of [] = []
gather list_of (h ∷ hs) = answered (list_of h) ++ gather list_of hs

unfoldable pub handle_list : ℕ → (Host → Option (List Sandbox)) → Gateway → Reply
handle_list now list_of g =
    listed (
      sort_by (λ s t. ltb t.created_at s.created_at)
        (gather list_of (live_hosts g.ttl now g.hosts)))

-- A request that is passed on to a host: where to, and with which Authorization header.
pub record Forwarded : Type 0 where
  pub host : Host
  pub authorization : Option String

-- The owner of an id: `g.route[id]` is "" where there is no entry.
abbrev pub or_empty : Option String → String
or_empty none = ""
or_empty (some hid) = hid

unfoldable pub owner : String → Gateway → Option Host
owner id g = lookup (or_empty (lookup id g.route)) g.hosts

unfoldable pub forward : Host → Forwarded
forward h = record {
  host = h;
  authorization = if h.token == "" then none else some (str_append "Bearer " h.token);
}

-- handleProxyByID: 404, or the request to pass on. The client's own Authorization header is replaced
-- or deleted.
unfoldable pub handle_proxy_by_id : String → Gateway → Result ℕ Forwarded
handle_proxy_by_id id g = elim (owner id g) [ none ↦ err 404 | some h ↦ ok (forward h) ]

pub record HostView : Type 0 where
  pub id : String
  pub addr : String
  pub slots_total : ℕ
  pub slots_used : ℕ
  pub free_slots : ℕ
  pub alive : Bool
  pub last_seen_ms : ℕ

abbrev view : ℕ → ℕ → Host → HostView
view ttl now h = record {
  id = h.id;
  addr = h.addr;
  slots_total = h.slots_total;
  slots_used = h.slots_used;
  free_slots = free h;
  alive = not (is_stale ttl now h);
  last_seen_ms = (now - h.last_seen) / 1_000_000;
}

text_lt : String → String → Bool
text_lt s t = is_lt (compare s t)

views : ℕ → ℕ → Map Host → List HostView
views ttl now [] = []
views ttl now ((k, h) ∷ hs) = view ttl now h ∷ views ttl now hs

unfoldable pub handle_hosts : ℕ → Gateway → List HostView
unfolding views text_lt
handle_hosts now g = sort_by (λ v w. text_lt v.id w.id) (views g.ttl now g.hosts)

-- bearerAuth: the digests of the header and of the expected value are compared. The hash is a
-- parameter.
unfoldable pub admits : {D : Type 0} ⦃e : Eq D⦄ → (String → D) → String → String → Bool
admits sha256 token header = sha256 (str_append "Bearer " token) == sha256 header
