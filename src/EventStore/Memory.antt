-- ===== src/EventStore/Memory.antt =====
-- pkg/eventstore/memory_store.go: the in-memory event store, operation by operation. Each method
-- holds the store's mutex for its whole body, so a method is one step.
mod Defs
mod Query
unfoldable pub use Defs.*
unfoldable pub use Query.*
