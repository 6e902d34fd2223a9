-- ===== src/Wallet/Ledger.antt =====
-- The wallet service over the SQL repository: what a call does to the balances.
use draftea_payment.Prelude.{
  ℕ, ◌<◌, ◌≡◌, ◌≢◌, ◌⊎◌, String, Int64, true, false, Option, none, some, List, [], ◌∷◌, ◌++◌, ok,
  err, add64, sub64, lt64, arith, Option-cases, Bool-cases, inl, inr,
}
use draftea_payment.Events.Types.{DomainEvent}
use draftea_payment.Wallet.Entity.{
  Wallet, Transaction, debit, credit, deduction, refund, RepoError, query_failed, no_rows,
}
use draftea_payment.Wallet.Service.{
  Mint, WalletError, get_failed, new_transaction, write_balance, deduct_from, deduct_balance,
  refund_to, refund_balance,
}
use draftea_payment.Wallet.Sql.{
  Db, next_fault, find_wallet, get_wallet_by_user_id, update_rows, rows_affected, update_balance,
  create_transaction, sql,
}

-- A row with the balance that a committed write gives it.
abbrev pub with_balance : ℕ → Int64 → Wallet → Wallet
with_balance now balance w = record w {
  balance = balance;
  updated_at = now;
  version = add64 w.version 1;
}

pub find_wallet-update_rows :
    (user : ℕ) (currency : String) (now : ℕ) (balance : Int64) (w : Wallet) (ws : List Wallet)
    → find_wallet user currency ws ≡ some w
    → find_wallet user currency (update_rows now w.id balance w.version ws)
      ≡ some (with_balance now balance w)
unfolding find_wallet update_rows
find_wallet-update_rows user currency now balance w [] h = absurd (cc h)
find_wallet-update_rows user currency now balance w (x ∷ ws) h =
    ground (arith, find_wallet-update_rows user currency now balance w ws)

-- The row of another wallet stays as it is.
pub find_wallet-update_rows_ne :
    (user : ℕ) (currency : String) (now id : ℕ) (balance version : Int64) (w : Wallet)
    (ws : List Wallet)
    → find_wallet user currency ws ≡ some w
    → w.id ≢ id
    → find_wallet user currency (update_rows now id balance version ws) ≡ some w
unfolding find_wallet update_rows
find_wallet-update_rows_ne user currency now id balance version w [] h d = absurd (cc h)
find_wallet-update_rows_ne user currency now id balance version w (x ∷ ws) h d =
    ground (arith, find_wallet-update_rows_ne user currency now id balance version w ws)

rows_affected_pos :
    (user : ℕ) (currency : String) (w : Wallet) (ws : List Wallet)
    → find_wallet user currency ws ≡ some w
    → 0 < rows_affected w.id w.version ws
unfolding find_wallet rows_affected
rows_affected_pos user currency w [] h = absurd (cc h)
rows_affected_pos user currency w (x ∷ ws) h = ground (arith, rows_affected_pos user currency w ws)

module _ (m : Mint) (w : Wallet) (t : Transaction) (balance : Int64) (d : Db) where
  -- The two writes change the wallets only if both succeed.
  write_balance_error :
      {x : WalletError}
      → (write_balance sql m w t balance d).1 ≡ some x
      → (write_balance sql m w t balance d).0.wallets ≡ d.wallets
  unfolding write_balance create_transaction update_balance
  write_balance_error h = ground arith

  write_balance_ok :
      (write_balance sql m w t balance d).1 ≡ none
      → let d' = (write_balance sql m w t balance d).0 in
        (d'.wallets ≡ update_rows m.now w.id balance w.version d.wallets)
        × (d'.transactions ≡ d.transactions ++ t ∷ [])
        × (lt64 0 t.amount ≡ true)
        × (lt64 balance 0 ≡ false)
        × (0 < rows_affected w.id w.version d.wallets)
  unfolding write_balance create_transaction update_balance
  write_balance_ok h = (ground arith, ground arith, ground arith, ground arith, ground arith)

-- The database after the read of a wallet.
abbrev pub after_read : Db → Db
after_read d = record d { faults = (next_fault d.faults).1 }

get_wallet_cases :
    (user : ℕ) (currency : String) (d : Db)
    → ((x : RepoError) × (get_wallet_by_user_id user currency d ≡ (after_read d, err x)))
      ⊎ ((w : Wallet) × (get_wallet_by_user_id user currency d ≡ (after_read d, ok w))
          × (find_wallet user currency d.wallets ≡ some w))
unfolding get_wallet_by_user_id
get_wallet_cases user currency d = elim (Bool-cases (next_fault d.faults).0) [
  | inl fault ↦ inl (query_failed, rw fault)
  | inr fine ↦ elim (Option-cases (find_wallet user currency d.wallets)) [
    | inl missing ↦ inl (no_rows, ground arith)
    | inr (w, found) ↦ inr (w, ground arith, found)
  ]
]

-- Who pays, what and for which payment.
pub record Order : Type 0 where
  pub user_id : ℕ
  pub amount : Int64
  pub currency : String
  pub payment_id : ℕ

module _ (R : Type 0) where
  abbrev pub deduct : Mint → Order → Db → Db × List (DomainEvent R) × Option WalletError
  deduct m o = deduct_balance sql R m o.user_id o.amount o.currency o.payment_id

  abbrev pub refund_order :
      Mint → Order → String → Db → Db × List (DomainEvent R) × Option WalletError
  refund_order m o reason = refund_balance sql R m o.user_id o.amount o.currency o.payment_id reason

  -- DeductBalance writes under the version that it read, with the wallet in hand.
  abbrev pub deduct_write :
      Mint → Wallet → Order → Db → Db × List (DomainEvent R) × Option WalletError
  deduct_write m w o = deduct_from sql R m w o.user_id o.amount o.currency o.payment_id

  abbrev pub refund_write :
      Mint → Wallet → Order → String → Db → Db × List (DomainEvent R) × Option WalletError
  refund_write m w o reason = refund_to sql R m w o.user_id o.amount o.currency o.payment_id reason

  abbrev pub debit_of : Mint → Wallet → Order → Transaction
  debit_of m w o =
      new_transaction m w debit o.amount o.currency o.payment_id (deduction o.payment_id)

  abbrev pub credit_of : Mint → Wallet → Order → String → Transaction
  credit_of m w o reason =
      new_transaction m w credit o.amount o.currency o.payment_id (refund o.payment_id reason)

  pub deduct_write_error :
      (m : Mint) (w : Wallet) (o : Order) (d : Db) {x : WalletError}
      → (deduct_write m w o d).2 ≡ some x
      → (deduct_write m w o d).0.wallets ≡ d.wallets
  unfolding deduct_from
  deduct_write_error m w o d h =
      let balance = sub64 w.balance o.amount in
      elim (Option-cases (write_balance sql m w (debit_of m w o) balance d).1) [
        | inl done ↦ ground arith
        | inr (y, failed) ↦
            ground (arith, write_balance_error m w (debit_of m w o) balance d failed)
      ]

  pub deduct_write_ok :
      (m : Mint) (w : Wallet) (o : Order) (d : Db)
      → (deduct_write m w o d).2 ≡ none
      → let d' = (deduct_write m w o d).0 in
        (lt64 w.balance o.amount ≡ false)
        × (lt64 0 o.amount ≡ true)
        × (0 < rows_affected w.id w.version d.wallets)
        × (d'.wallets ≡ update_rows m.now w.id (sub64 w.balance o.amount) w.version d.wallets)
        × (d'.transactions ≡ d.transactions ++ debit_of m w o ∷ [])
  unfolding deduct_from
  deduct_write_ok m w o d h =
      let balance = sub64 w.balance o.amount in
      elim (Option-cases (write_balance sql m w (debit_of m w o) balance d).1) [
        | inr (y, failed) ↦ absurd (ground arith)
        | inl done ↦
            let (rows, log, positive, _, hit) =
              write_balance_ok m w (debit_of m w o) balance d done in
            (ground arith, positive, hit, ground arith, ground arith)
      ]

  -- DeductBalance and RefundBalance, by what their read of the wallet gave.
  pub deduct_cases :
      (m : Mint) (o : Order) (d : Db)
      → ((x : RepoError) × (deduct m o d ≡ (after_read d, [], some (get_failed x))))
        ⊎ ((w : Wallet) × (find_wallet o.user_id o.currency d.wallets ≡ some w)
            × (deduct m o d ≡ deduct_write m w o (after_read d)))
  unfolding deduct_balance
  deduct_cases m o d = elim (get_wallet_cases o.user_id o.currency d) [
    | inl (x, failed) ↦ inl (x, ground arith)
    | inr (w, read, found) ↦ inr (w, found, ground arith)
  ]

  pub refund_cases :
      (m : Mint) (o : Order) (reason : String) (d : Db)
      → ((x : RepoError) × (refund_order m o reason d ≡ (after_read d, [], some (get_failed x))))
        ⊎ ((w : Wallet) × (find_wallet o.user_id o.currency d.wallets ≡ some w)
            × (refund_order m o reason d ≡ refund_write m w o reason (after_read d)))
  unfolding refund_balance
  refund_cases m o reason d = elim (get_wallet_cases o.user_id o.currency d) [
    | inl (x, failed) ↦ inl (x, ground arith)
    | inr (w, read, found) ↦ inr (w, found, ground arith)
  ]

  pub refund_write_error :
      (m : Mint) (w : Wallet) (o : Order) (reason : String) (d : Db) {x : WalletError}
      → (refund_write m w o reason d).2 ≡ some x
      → (refund_write m w o reason d).0.wallets ≡ d.wallets
  unfolding refund_to
  refund_write_error m w o reason d h =
      let t = credit_of m w o reason in
      let balance = add64 w.balance o.amount in
      elim (Option-cases (write_balance sql m w t balance d).1) [
        | inl done ↦ absurd (ground arith)
        | inr (y, failed) ↦ ground (arith, write_balance_error m w t balance d failed)
      ]

  pub refund_write_ok :
      (m : Mint) (w : Wallet) (o : Order) (reason : String) (d : Db)
      → (refund_write m w o reason d).2 ≡ none
      → let d' = (refund_write m w o reason d).0 in
        (lt64 0 o.amount ≡ true)
        × (lt64 (add64 w.balance o.amount) 0 ≡ false)
        × (d'.wallets ≡ update_rows m.now w.id (add64 w.balance o.amount) w.version d.wallets)
        × (d'.transactions ≡ d.transactions ++ credit_of m w o reason ∷ [])
  unfolding refund_to
  refund_write_ok m w o reason d h =
      let t = credit_of m w o reason in
      let balance = add64 w.balance o.amount in
      elim (Option-cases (write_balance sql m w t balance d).1) [
        | inr (y, failed) ↦ absurd (ground arith)
        | inl done ↦
            let (rows, log, positive, nonneg, _) = write_balance_ok m w t balance d done in
            (positive, nonneg, ground arith, ground arith)
      ]
