-- ===== src/Tests/Server.antt =====
-- internal/server on the default pools.
use web_sandbox.Registry.Ops.Outcomes.{Ignored}
use web_sandbox.Registry.Capacity.{empty_db-IsPooled}
use web_sandbox.Registry.Invariant.{IsConsistent, empty_db-IsConsistent}
use web_sandbox.Server.Heartbeat.{Config, send_heartbeat, IsReport, send_heartbeat-IsReport}
use web_sandbox.Server.Timeouts.{TimeoutSet, NotSet, handle_set_timeout, handle_set_timeout-Ends}
use web_sandbox.Server.Ports.{handle_expose_port}
use web_sandbox.Server.Ports.Exposing.{Exposed, NotExposed, handle_expose_port-Exposed}
use web_sandbox.Tests.Registry.{
  default_pools, empty_conn, history, used_conn, used_conn-IsConsistent, default_pools-EndsBelowTop,
}
use web_sandbox.Common.{ℕ, Ends, some, true, ◌≡◌, pos}

abbrev config : Config
config = record {
  listen_addr = "10.0.0.1:8080";
  api_token = "t";
  advertise_addr = "";
  host_id = "";
}

send_heartbeat-IsReport_example :
    Ends
      (λ hb _. IsReport used_conn.db hb)
      Ignored
      (send_heartbeat "h1" config default_pools used_conn)
send_heartbeat-IsReport_example =
    send_heartbeat-IsReport "h1" config default_pools history empty_conn empty_db-IsConsistent
      (empty_db-IsPooled default_pools) default_pools-EndsBelowTop (tt, (tt, (tt, (tt, tt))))

handle_set_timeout-Ends_example :
    Ends
      (λ sb c'. (n : ℕ) × (some (pos 5) ≡ some (pos n)) × TimeoutSet 9 n "b" used_conn.db sb c'.db)
      (λ status c'. NotSet 9 (some (pos 5)) "b" used_conn status c')
      (handle_set_timeout 9 (some (pos 5)) "b" used_conn)
handle_set_timeout-Ends_example = handle_set_timeout-Ends 9 (some (pos 5)) "b" used_conn

handle_expose_port-Exposed_example :
    Ends
      (λ pm c'.
        IsConsistent c'.db
        × ((p : ℕ) × (some (pos 8_080) ≡ some (pos p))
            × Exposed 3_000 (λ port ip p. true) p "b" used_conn.db pm c'.db))
      (λ status c'. IsConsistent c'.db × NotExposed "b" (some (pos 8_080)) used_conn.db c')
      (handle_expose_port 3_000 (λ port ip p. true) default_pools "b" (some (pos 8_080)) used_conn)
handle_expose_port-Exposed_example =
    handle_expose_port-Exposed 3_000 (λ port ip p. true) default_pools "b" (some (pos 8_080))
      used_conn used_conn-IsConsistent
