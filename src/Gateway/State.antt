-- ===== src/Gateway/State.antt =====
-- internal/gateway/gateway.go: the gateway's tables, and the parts of its handlers that hold the lock.
-- internal/cluster/cluster.go: the heartbeat. A slot count is not negative, and the clock does not
-- run backwards past a host's last heartbeat.
use web_sandbox.Common.{
  ℕ, Bool, List, Map, Option, String, [], if◌then◌else◌, leb, lookup, ltb, none, put, remove,
  remove_where, some, ◌+◌, ◌-◌, ◌==◌, ◌||◌, ◌∷◌, Eq-String,
}

pub record Host : Type 0 where
  pub id : String
  pub addr : String
  pub token : String
  pub slots_total : ℕ
  pub slots_used : ℕ
  pub last_seen : ℕ

pub record Heartbeat : Type 0 where
  pub host_id : String
  pub addr : String
  pub token : String
  pub slots_total : ℕ
  pub slots_used : ℕ
  pub sandbox_ids : List String

pub record Gateway : Type 0 where
  pub token : String
  pub ttl : ℕ
  pub hosts : Map Host
  pub route : Map String

unfoldable pub new : String → ℕ → Gateway
new token ttl = record { token = token; ttl = ttl; hosts = []; route = [] }

unfoldable pub free : Host → ℕ
free h = if leb h.slots_total h.slots_used then 0 else h.slots_total - h.slots_used

-- time.Since(h.lastSeen) > g.ttl
unfoldable pub is_stale : ℕ → ℕ → Host → Bool
is_stale ttl now h = ltb ttl (now - h.last_seen)

-- &host{id: hb.HostID}: the other fields are zero values.
abbrev pub unknown_host : String → Host
unknown_host id = record {
  id = id;
  addr = "";
  token = "";
  slots_total = 0;
  slots_used = 0;
  last_seen = 0;
}

abbrev pub or_unknown : String → Option Host → Host
or_unknown id none = unknown_host id
or_unknown id (some h) = h

abbrev pub updated_host : ℕ → Heartbeat → Host → Host
updated_host now hb h = record h {
  addr = hb.addr;
  token = hb.token;
  slots_total = hb.slots_total;
  slots_used = hb.slots_used;
  last_seen = now;
}

-- The loop that adds a host's current routes.
unfoldable pub add_routes : String → List String → Map String → Map String
add_routes hid [] route = route
add_routes hid (sid ∷ sids) route = add_routes hid sids (put sid hid route)

-- handleRegister, under the lock.
unfoldable pub upsert : ℕ → Heartbeat → Gateway → Gateway
upsert now hb g = record g {
  hosts =
      put hb.host_id (updated_host now hb (or_unknown hb.host_id (lookup hb.host_id g.hosts)))
        g.hosts;
  route = add_routes hb.host_id hb.sandbox_ids (remove_where (λ hid. hid == hb.host_id) g.route);
}

-- A host that pickHost passes over: stale, or full.
unfoldable pub passes_over : ℕ → ℕ → Host → Bool
unfolding is_stale free
passes_over ttl now h = is_stale ttl now h || leb (free h) 0

-- The body of the loop of pickHost, given the best host so far.
unfoldable pub better : ℕ → ℕ → Option Host → Host → Option Host
better ttl now none h = if passes_over ttl now h then none else some h
better ttl now (some best) h =
    if passes_over ttl now h
    then some best
    else if ltb (free best) (free h)
    then some h
    else some best

unfoldable pub pick_from : ℕ → ℕ → Option Host → Map Host → Option Host
pick_from ttl now best [] = best
pick_from ttl now best ((k, h) ∷ hs) = pick_from ttl now (better ttl now best h) hs

unfoldable pub pick_host : ℕ → Gateway → Option Host
pick_host now g = pick_from g.ttl now none g.hosts

-- hh.slotsUsed++, if the host is still there.
unfoldable pub charge : String → Option Host → Map Host → Map Host
charge hid none hosts = hosts
charge hid (some h) hosts = put hid (record h { slots_used = h.slots_used + 1 }) hosts

-- handleCreate, under the lock: the route of the new sandbox, and the slot it takes.
unfoldable pub record_created : String → String → Gateway → Gateway
record_created hid sid g = record g {
  route = put sid hid g.route;
  hosts = charge hid (lookup hid g.hosts) g.hosts;
}

-- The body of the if in pruneLoop.
abbrev pub dropped : String → Gateway → Gateway
dropped id g = record g {
  hosts = remove id g.hosts;
  route = remove_where (λ hid. hid == id) g.route;
}

-- One round of pruneLoop: the entries of `hosts` are visited one by one.
unfoldable pub prune_from : ℕ → Map Host → Gateway → Gateway
prune_from now [] g = g
prune_from now ((id, h) ∷ hs) g =
    prune_from now hs (if is_stale g.ttl now h then dropped id g else g)

unfoldable pub prune : ℕ → Gateway → Gateway
prune now g = prune_from now g.hosts g
