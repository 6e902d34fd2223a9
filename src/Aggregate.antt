-- ===== src/Aggregate.antt =====
-- Event-sourced aggregates (pkg/eventstore/aggregate.go and aggregates.go).
pub mod Base
pub mod Repository
pub mod Payment
pub mod Wallet
pub mod Replay
pub mod Versions
pub mod Conflicts
pub mod Snapshots
pub mod Lifecycle
