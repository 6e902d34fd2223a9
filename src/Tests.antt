-- ===== src/Tests.antt =====
-- Concrete inputs at which the theorems apply.
mod Wallets
mod Payments
mod Sagas
mod Stores
mod Breakers
mod Publishing
mod Aggregates
mod Recoveries
mod Histories
mod Concurrents
