-- ===== src/EventStore.antt =====
-- The event store of pkg/eventstore: the data (eventstore.go) and its in-memory implementation
-- (memory_store.go).
pub mod Event
pub mod Memory
pub mod Log
pub mod Append
pub mod Batch
pub mod Atomic
pub mod Reads
pub mod Feed
