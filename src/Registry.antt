-- ===== src/Registry.antt =====
-- internal/registry/registry.go: the SQLite registry of sandboxes, port mappings and snapshots.
pub mod Types
pub mod Address
pub mod Pools
pub mod Engine
pub mod Ops
pub mod Invariant
pub mod History
pub mod Lifecycle
pub mod Capacity
