-- ===== src/Gateway.antt =====
-- The gateway service (internal/services/gateway/service.go).
pub mod Breaker
pub mod Circuit
pub mod Service
pub mod Outcomes
