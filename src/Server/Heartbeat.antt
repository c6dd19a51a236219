-- ===== src/Server/Heartbeat.antt =====
-- internal/server/heartbeat.go: what a host reports to the gateway.
use web_sandbox.Registry.Types.{Sandbox, SandboxRow, Pools, scan_sandbox}
use web_sandbox.Registry.Pools.{slots}
use web_sandbox.Registry.Engine.{Db, Conn, Sql, is_running, running_rows}
use web_sandbox.Registry.Engine.Rules.{query-Ends}
use web_sandbox.Registry.Ops.{list, newest_first}
use web_sandbox.Registry.Ops.Outcomes.{Ignored}
use web_sandbox.Registry.Invariant.{IsConsistent}
use web_sandbox.Registry.Capacity.{EndsBelowTop, IsPooled, Allowed, after_calls-le-slots}
use web_sandbox.Registry.History.{Call, after_calls, after_calls-IsConsistent}
use web_sandbox.Gateway.State.{Heartbeat}
use web_sandbox.Common.{
  Ends, All, Distinct, Distinct-filter, Ends-bind, Ends-ok, List, String, [], ap, arith, count,
  count-sort_by, if◌then◌else◌, length, length-sort_by, ltb, map, pure, refl, ◌==◌, ◌>>=◌, ◌∙◌, ◌∷◌,
  ◌≡◌, ◌≤◌, length-map, Eq-String,
}

-- The part of Config that a heartbeat is made of.
pub record Config : Type 0 where
  pub listen_addr : String
  pub api_token : String
  pub advertise_addr : String
  pub host_id : String

unfoldable pub advertise : Config → String
advertise cfg = if cfg.advertise_addr == "" then cfg.listen_addr else cfg.advertise_addr

-- `hostname` is what os.Hostname gives.
unfoldable pub identity : String → Config → String
unfolding advertise
identity hostname cfg =
    let id = if cfg.host_id == "" then hostname else cfg.host_id in
    if id == "" then advertise cfg else id

unfoldable pub heartbeat_of : String → Config → Pools → List Sandbox → Heartbeat
heartbeat_of hostname cfg pools running = record {
  host_id = identity hostname cfg;
  addr = advertise cfg;
  token = cfg.api_token;
  slots_total = slots pools;
  slots_used = length running;
  sandbox_ids = map (λ sb. sb.id) running;
}

-- sendHeartbeat, up to the request that it posts.
unfoldable pub send_heartbeat : String → Config → Pools → Sql Heartbeat
unfolding heartbeat_of
send_heartbeat hostname cfg pools = do
  running ← list
  pure (heartbeat_of hostname cfg pools running)

pub map-scan_sandbox :
    (rs : List SandboxRow) → map (λ sb. sb.id) (map scan_sandbox rs) ≡ map (λ r. r.id) rs
unfolding scan_sandbox
map-scan_sandbox [] = refl
map-scan_sandbox (r ∷ rs) = ap (λ ids. r.id ∷ ids) (map-scan_sandbox rs)

-- A report of the running sandboxes in the tables, within the capacity that it states.
pub record IsReport (db : Db) (hb : Heartbeat) : Type 0 where
  pub once : Distinct hb.sandbox_ids
  pub complete :
      (id : String) → count id hb.sandbox_ids ≡ count id (map (λ r. r.id) (running_rows db))
  pub counted : hb.slots_used ≡ length (running_rows db)
  pub within : hb.slots_used ≤ hb.slots_total

heartbeat_of-IsReport :
    (hostname : String) (cfg : Config) (pools : Pools) (db : Db)
    → IsConsistent db
    → length (running_rows db) ≤ slots pools
    → IsReport db
        (heartbeat_of hostname cfg pools (map scan_sandbox (newest_first (running_rows db))))
unfolding heartbeat_of
heartbeat_of-IsReport hostname cfg pools db v h =
    let rows = running_rows db in
    let same : (id : String)
        → count id (map (λ sb. sb.id) (map scan_sandbox (newest_first rows)))
          ≡ count id (map (λ r. r.id) rows) =
      λ id.
        ap (count id) (map-scan_sandbox (newest_first rows))
        ∙ count-sort_by (λ r s. ltb s.created_at r.created_at) (λ r. r.id) id rows in
    let long : length (map scan_sandbox (newest_first rows)) ≡ length rows =
      length-map scan_sandbox (newest_first rows)
      ∙ length-sort_by (λ r s. ltb s.created_at r.created_at) rows in
    record {
      once = λ id.
          omega (arith, same id, Distinct-filter (λ r. r.id) is_running db.sandboxes v.ids id);
      complete = same;
      counted = long;
      within = omega (arith, long);
    }

-- Whatever the history of a registry whose tables began consistent and within the pools, a heartbeat
-- that it sends lists each running sandbox once and no other id, and says that no more slots are used
-- than there are; if each restore asks for a tap and an address of the pools and the last address of
-- the pool is not 255.255.255.255.
pub send_heartbeat-IsReport :
    (hostname : String) (cfg : Config) (pools : Pools) (ks : List Call) (c : Conn)
    → IsConsistent c.db
    → IsPooled pools c.db
    → EndsBelowTop pools
    → All (Allowed pools) ks
    → let c' = after_calls pools ks c in
      Ends (λ hb _. IsReport c'.db hb) Ignored (send_heartbeat hostname cfg pools c')
unfolding send_heartbeat list
send_heartbeat-IsReport hostname cfg pools ks c v p top a =
    let c' : Conn = after_calls pools ks c in
    Ends-bind list _ c' (
      query-Ends c' tt _ (
        Ends-ok _ _ (
          heartbeat_of-IsReport hostname cfg pools c'.db (after_calls-IsConsistent pools ks c v)
            (after_calls-le-slots pools ks c v p top a).0)))
