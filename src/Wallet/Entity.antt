-- ===== src/Wallet/Entity.antt =====
-- internal/services/wallet/service.go: wallets, transactions and the repository's interface. The
-- two texts that a transaction's description is printed as are kept by what is printed.
use draftea_payment.Prelude.{ℕ, String, Int64, Option, Result, List}

pub record Wallet : Type 0 where
  pub id : ℕ
  pub user_id : ℕ
  pub balance : Int64
  pub currency : String
  pub created_at : ℕ
  pub updated_at : ℕ
  pub version : Int64

pub data TransactionType : Type 0 where
  debit credit : TransactionType

pub data TransactionStatus : Type 0 where
  pending completed failed reversed : TransactionStatus

pub data Description : Type 0 where
  deduction : ℕ → Description
  refund : ℕ → String → Description

pub record Transaction : Type 0 where
  pub id : ℕ
  pub wallet_id : ℕ
  pub payment_id : ℕ
  pub transaction_type : TransactionType
  pub amount : Int64
  pub currency : String
  pub status : TransactionStatus
  pub description : Description
  pub created_at : ℕ
  pub correlation_id : ℕ

pub data RepoError : Type 0 where
  no_rows query_failed check_violated lock_failed : RepoError

-- The interface Repository, over a store of type `S`.
pub record Repository (S : Type 0) : Type 0 where
  pub get_wallet_by_user_id : ℕ → String → S → S × Result RepoError Wallet
  pub update_balance : ℕ → ℕ → Int64 → Int64 → S → S × Option RepoError
  pub create_transaction : Transaction → S → S × Option RepoError
  pub get_transactions_by_wallet : ℕ → S → S × Result RepoError (List Transaction)
