-- ===== src/Wallet/Service.antt =====
-- internal/services/wallet/service.go: the service, over any repository. Each operation returns the
-- store, the events handed to the publisher (whose answer is ignored or only logged) and the error.
use draftea_payment.Prelude.{
  ℕ, ◌+◌, String, Int64, Option, none, some, List, [], ◌∷◌, if◌then◌else◌, Result, ok, err, add64,
  sub64, lt64,
}
use draftea_payment.Events.Types.{
  EventType, BaseEvent, DomainEvent, bare, deducted, refunded, text, int, uid, Metadata,
}
use draftea_payment.Wallet.Entity.{
  Wallet, Transaction, TransactionType, debit, credit, pending, Description, deduction, refund,
  RepoError, Repository,
}

pub data WalletError : Type 0 where
  get_failed : RepoError → WalletError
  insufficient : Int64 → Int64 → WalletError
  insufficient_balance : WalletError
  create_failed : RepoError → WalletError
  update_failed : RepoError → WalletError

-- The first of the uuids that a call makes, and the clock.
pub record Mint : Type 0 where
  pub first_uuid : ℕ
  pub now : ℕ

abbrev pub base_event : ℕ → EventType → Wallet → ℕ → ℕ → Metadata → BaseEvent
base_event id kind w now correlation meta = record {
  id = id;
  event_type = kind;
  aggregate_id = w.id;
  version = add64 w.version 1;
  timestamp = now;
  correlation_id = correlation;
  metadata = meta;
}

abbrev pub new_transaction :
    Mint → Wallet → TransactionType → Int64 → String → ℕ → Description → Transaction
new_transaction m w kind amount currency payment what = record {
  id = m.first_uuid;
  wallet_id = w.id;
  payment_id = payment;
  transaction_type = kind;
  amount = amount;
  currency = currency;
  status = pending;
  description = what;
  created_at = m.now;
  correlation_id = m.first_uuid + 1;
}

module _ {S : Type 0} (repo : Repository S) where
  -- The two writes that DeductBalance and RefundBalance share: the transaction, then the balance
  -- under the version that was read.
  unfoldable pub write_balance : Mint → Wallet → Transaction → Int64 → S → S × Option WalletError
  write_balance m w txn new_balance s =
      let (s', created) = repo.create_transaction txn s in
      let (s'', updated) = repo.update_balance m.now w.id new_balance w.version s' in
      elim created [
        | some x ↦ (s', some (create_failed x))
        | none ↦ elim updated [ some x ↦ (s'', some (update_failed x)) | none ↦ (s'', none) ]
      ]

module _ {S : Type 0} (repo : Repository S) (R : Type 0) where
  -- ValidateBalance
  unfoldable pub validate_balance :
      Mint → ℕ → Int64 → String → S → S × List (DomainEvent R) × Option WalletError
  validate_balance m user amount currency s =
      let (s', r) = repo.get_wallet_by_user_id user currency s in
      elim r [
        | err x ↦ (s', [], some (get_failed x))
        | ok w ↦
            if lt64 w.balance amount
            then (
              s',
              bare (
                    base_event m.first_uuid EventType.wallet_insufficient w m.now 0 (
                      ("user_id", uid user)
                      ∷ ("required", int amount)
                      ∷ ("available", int w.balance)
                      ∷ ("currency", text currency)
                      ∷ []))
                  ∷ [],
              some (insufficient amount w.balance),
            )
            else (
              s',
              bare (
                    base_event m.first_uuid EventType.wallet_validated w m.now 0 (
                      ("user_id", uid user)
                      ∷ ("amount", int amount)
                      ∷ ("currency", text currency)
                      ∷ []))
                  ∷ [],
              none,
            )
      ]

  -- DeductBalance below its read of the wallet `w`.
  unfoldable pub deduct_from :
      Mint → Wallet → ℕ → Int64 → String → ℕ → S → S × List (DomainEvent R) × Option WalletError
  deduct_from m w user amount currency payment s =
      let new_balance = sub64 w.balance amount in
      let txn = new_transaction m w debit amount currency payment (deduction payment) in
      let (s', r) = write_balance repo m w txn new_balance s in
      let event : DomainEvent R = deducted (record {
        base =
            base_event (m.first_uuid + 2) EventType.wallet_deducted w m.now (m.first_uuid + 1) [];
        user_id = user;
        amount = amount;
        currency = currency;
        previous_balance = w.balance;
        new_balance = new_balance;
        payment_id = payment;
      }) in
      if lt64 w.balance amount
      then (s, [], some insufficient_balance)
      else elim r [ some x ↦ (s', [], some x) | none ↦ (s', event ∷ [], none) ]

  -- DeductBalance
  unfoldable pub deduct_balance :
      Mint → ℕ → Int64 → String → ℕ → S → S × List (DomainEvent R) × Option WalletError
  deduct_balance m user amount currency payment s =
      let (s', r) = repo.get_wallet_by_user_id user currency s in
      elim r [
        | err x ↦ (s', [], some (get_failed x))
        | ok w ↦ deduct_from m w user amount currency payment s'
      ]

  -- RefundBalance below its read of the wallet `w`.
  unfoldable pub refund_to :
      Mint
      → Wallet
      → ℕ
      → Int64
      → String
      → ℕ
      → String
      → S
      → S × List (DomainEvent R) × Option WalletError
  refund_to m w user amount currency payment reason s =
      let new_balance = add64 w.balance amount in
      let txn = new_transaction m w credit amount currency payment (refund payment reason) in
      let (s', r) = write_balance repo m w txn new_balance s in
      let event : DomainEvent R = refunded (record {
        base =
            base_event (m.first_uuid + 2) EventType.wallet_refunded w m.now (m.first_uuid + 1) [];
        user_id = user;
        amount = amount;
        currency = currency;
        previous_balance = w.balance;
        new_balance = new_balance;
        payment_id = payment;
        reason = reason;
      }) in
      elim r [ some x ↦ (s', [], some x) | none ↦ (s', event ∷ [], none) ]

  -- RefundBalance
  unfoldable pub refund_balance :
      Mint → ℕ → Int64 → String → ℕ → String → S → S × List (DomainEvent R) × Option WalletError
  refund_balance m user amount currency payment reason s =
      let (s', r) = repo.get_wallet_by_user_id user currency s in
      elim r [
        | err x ↦ (s', [], some (get_failed x))
        | ok w ↦ refund_to m w user amount currency payment reason s'
      ]

  -- GetTransactionHistory
  unfoldable pub get_transaction_history :
      ℕ → String → S → S × Result WalletError (List Transaction)
  get_transaction_history user currency s =
      let (s', r) = repo.get_wallet_by_user_id user currency s in
      elim r [
        | err x ↦ (s', err (get_failed x))
        | ok w ↦
            let (s'', txns) = repo.get_transactions_by_wallet w.id s' in
            elim txns [ err x ↦ (s'', err (get_failed x)) | ok ts ↦ (s'', ok ts) ]
      ]
