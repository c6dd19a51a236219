-- ===== src/Guest.antt =====
-- cmd/sandboxd/main.go and internal/agentapi/agentapi.go: the agent in the guest.
pub mod Output
pub mod Exec
pub mod Stream
pub mod Files
pub mod Thaw
