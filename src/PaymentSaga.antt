-- ===== src/PaymentSaga.antt =====
-- The event-sourced payment saga (pkg/eventstore/payment_saga.go).
pub mod Operations
pub mod History
