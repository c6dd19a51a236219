-- ===== src/Gateway.antt =====
-- internal/gateway/gateway.go and internal/cluster/cluster.go: the control plane of several hosts.
pub mod State
pub mod Handlers
pub mod Placement
pub mod Routing
pub mod Pruning
pub mod Recovery
pub mod Proxy
pub mod Steps
