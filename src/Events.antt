-- ===== src/Events.antt =====
-- The domain events of internal/events and the Kafka publisher that they go through.
pub mod Types
pub mod Publisher
pub mod Delivery
