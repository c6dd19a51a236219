-- ===== src/Server.antt =====
-- internal/server: the HTTP API of a host.
pub mod Serving
pub mod Heartbeat
pub mod Timeouts
pub mod Ports
pub mod Host
pub mod Sandboxes
pub mod Snapshots
pub mod Proxy
pub mod Reaping
