-- ===== src/Recovery/Compensation.antt =====
-- pkg/eventstore/error_handling.go: CompensationManager. The wallet service, the event bus, the
-- encodings, the uuids, the clock and the contexts are parameters; the event store is the in-memory
-- one.
mod Plan
mod Manager
unfoldable pub use Plan.*
unfoldable pub use Manager.*
