-- ===== src/Wallet/Sql.antt =====
-- pkg/database/repositories.go: WalletRepository, with the tables `wallets` and `transactions` and
-- the checks that migrations/001_create_tables.sql puts on them. PostgreSQL executes a statement as
-- a whole or not at all; `faults` says of the statements to come which of them it cannot execute.
use draftea_payment.Prelude.{
  ℕ, suc, String, Int64, Bool, false, not, ◌&&◌, Option, none, some, List, [], ◌∷◌, ◌++◌,
  if◌then◌else◌, Result, ok, err, add64, lt64, str_eq, ◌==◌, keep, ltb,
}
use draftea_payment.Wallet.Entity.{
  Wallet, Transaction, RepoError, no_rows, query_failed, check_violated, lock_failed, Repository,
}

pub record Db : Type 0 where
  pub wallets : List Wallet
  pub transactions : List Transaction
  pub faults : List Bool

-- The next statement: whether it fails, and the faults after it.
abbrev pub next_fault : List Bool → Bool × List Bool
next_fault [] = (false, [])
next_fault (b ∷ bs) = (b, bs)

-- WHERE user_id = $1 AND currency = $2
unfoldable pub find_wallet : ℕ → String → List Wallet → Option Wallet
find_wallet user currency [] = none
find_wallet user currency (w ∷ ws) =
    if w.user_id == user && str_eq w.currency currency then some w else find_wallet user currency ws

-- GetWalletByUserID
unfoldable pub get_wallet_by_user_id : ℕ → String → Db → Db × Result RepoError Wallet
get_wallet_by_user_id user currency d =
    let (fault, rest) = next_fault d.faults in
    let d' = record d { faults = rest } in
    if fault then (d', err query_failed) else elim (find_wallet user currency d.wallets) [
      | none ↦ (d', err no_rows)
      | some w ↦ (d', ok w)
    ]

-- WHERE id = $3 AND version = $4
abbrev pub is_target : ℕ → Int64 → Wallet → Bool
is_target id version w = w.id == id && w.version == version

-- SET balance = $1, updated_at = $2, version = version + 1
unfoldable pub update_rows : ℕ → ℕ → Int64 → Int64 → List Wallet → List Wallet
update_rows now id balance version [] = []
update_rows now id balance version (w ∷ ws) =
    (if is_target id version w
      then record w { balance = balance; updated_at = now; version = add64 w.version 1 }
      else w)
    ∷ update_rows now id balance version ws

unfoldable pub rows_affected : ℕ → Int64 → List Wallet → ℕ
rows_affected id version [] = 0
rows_affected id version (w ∷ ws) =
    if is_target id version w
    then suc (rows_affected id version ws)
    else rows_affected id version ws

-- UpdateBalance. A row that would break CHECK (balance >= 0) makes the statement fail.
unfoldable pub update_balance : ℕ → ℕ → Int64 → Int64 → Db → Db × Option RepoError
update_balance now id balance version d =
    let (fault, rest) = next_fault d.faults in
    let d' = record d { faults = rest } in
    let count = rows_affected id version d.wallets in
    if fault
    then (d', some query_failed)
    else if count == 0
    then (d', some lock_failed)
    else if lt64 balance 0
    then (d', some check_violated)
    else (record d' { wallets = update_rows now id balance version d.wallets }, none)

-- CreateTransaction, under CHECK (amount > 0).
unfoldable pub create_transaction : Transaction → Db → Db × Option RepoError
create_transaction t d =
    let (fault, rest) = next_fault d.faults in
    let d' = record d { faults = rest } in
    if fault
    then (d', some query_failed)
    else if not (lt64 0 t.amount)
    then (d', some check_violated)
    else (record d' { transactions = d.transactions ++ t ∷ [] }, none)

-- ORDER BY created_at DESC: the newer before the older.
abbrev insert_newest_first : Transaction → List Transaction → List Transaction
insert_newest_first t [] = t ∷ []
insert_newest_first t (u ∷ us) =
    if ltb t.created_at u.created_at then u ∷ insert_newest_first t us else t ∷ u ∷ us

abbrev newest_first : List Transaction → List Transaction
newest_first [] = []
newest_first (t ∷ ts) = insert_newest_first t (newest_first ts)

-- GetTransactionsByWallet
unfoldable pub get_transactions_by_wallet : ℕ → Db → Db × Result RepoError (List Transaction)
get_transactions_by_wallet id d =
    let (fault, rest) = next_fault d.faults in
    let d' = record d { faults = rest } in
    if fault
    then (d', err query_failed)
    else (d', ok (newest_first (keep (λ t. t.wallet_id == id) d.transactions)))

abbrev pub sql : Repository Db
sql = record {
  get_wallet_by_user_id = get_wallet_by_user_id;
  update_balance = update_balance;
  create_transaction = create_transaction;
  get_transactions_by_wallet = get_transactions_by_wallet;
}
