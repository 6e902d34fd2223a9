-- ===== src/Saga.antt =====
-- The saga orchestrator (internal/saga) and its repository (pkg/database).
pub mod Model
pub mod Orchestrator
pub mod Outcome
pub mod Retries
pub mod Sql
pub mod Stored
pub mod Roundtrip
