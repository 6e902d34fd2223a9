-- ===== src/Wallet.antt =====
-- The wallet service (internal/services/wallet) and its repository (pkg/database).
pub mod Entity
pub mod Service
pub mod Sql
pub mod Ledger
pub mod Effects
pub mod Sequences
