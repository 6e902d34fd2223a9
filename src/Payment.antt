-- ===== src/Payment.antt =====
-- The payment service (internal/services/payment) and its repository (pkg/database).
pub mod Entity
pub mod Service
pub mod Sql
pub mod Money
pub mod Settlement
pub mod Status
