-- ===== src/Recovery.antt =====
-- Retries, the dead letter queue and compensation (pkg/eventstore/error_handling.go).
pub mod Substring
pub mod Retry
pub mod Rounds
pub mod DeadLetters
pub mod Queue
pub mod Held
pub mod Retried
pub mod Compensation
pub mod Compensated
pub mod Kept
pub mod Failing
