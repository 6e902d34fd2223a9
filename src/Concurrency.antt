-- ===== src/Concurrency.antt =====
-- Concurrency control of wallets and event routing (pkg/eventstore/concurrency_control.go).
pub mod Partition
pub mod Routing
pub mod Balances
pub mod Steps
pub mod Optimistic
pub mod LockTable
pub mod OneLock
pub mod Locks
pub mod Exclusion
pub mod Orphans
