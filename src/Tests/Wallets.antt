-- ===== src/Tests/Wallets.antt =====
-- Examples for the wallet service: a wallet of 1000, a second one, and an order of 300.
use draftea_payment.Prelude.{
  ℕ, ◌+◌, ◌<◌, ◌≡◌, ◌≢◌, refl, none, some, [], ◌∷◌, ◌++◌, arith, add64, sub64, lt64,
}
use draftea_payment.Wallet.Entity.{Wallet}
use draftea_payment.Wallet.Service.{
  Mint, write_balance, deduct_from, deduct_balance, refund_to, refund_balance,
}
use draftea_payment.Wallet.Sql.{
  Db, find_wallet, get_wallet_by_user_id, update_rows, rows_affected, update_balance,
  create_transaction,
}
use draftea_payment.Wallet.Ledger.{Order, deduct, refund_order, deduct_write, debit_of, credit_of}
use draftea_payment.Wallet.Effects.{IsSolvent, deduct_ok}
use draftea_payment.Wallet.Sequences.{deduct_write_race, refund_deduct}

abbrev pub ana : Wallet
ana = record {
  id = 1;
  user_id = 7;
  balance = 1000;
  currency = "USD";
  created_at = 0;
  updated_at = 0;
  version = 1;
}

abbrev pub bea : Wallet
bea = record {
  id = 2;
  user_id = 8;
  balance = 50;
  currency = "USD";
  created_at = 0;
  updated_at = 0;
  version = 4;
}

abbrev pub bank : Db
bank = record { wallets = ana ∷ bea ∷ []; transactions = []; faults = [] }

abbrev pub mint : Mint
mint = record { first_uuid = 100; now = 5 }

abbrev order : Order
order = record { user_id = 7; amount = 300; currency = "USD"; payment_id = 40 }

abbrev big_order : Order
big_order = record { user_id = 8; amount = 300; currency = "USD"; payment_id = 41 }

pub bank-IsSolvent : IsSolvent bank
bank-IsSolvent = (omega arith, (omega arith, tt))

abbrev after : Db
after = (deduct ℕ mint order bank).0

deduct_ok_example :
    (w w' : Wallet) × (find_wallet 7 "USD" bank.wallets ≡ some w)
    × (find_wallet 7 "USD" after.wallets ≡ some w')
    × (w'.id ≡ w.id)
    × (0 < 300)
    × (w'.balance + 300 ≡ w.balance)
    × (w'.version ≡ add64 w.version 1)
    × (after.transactions ≡ [] ++ debit_of ℕ mint w order ∷ [])
unfolding deduct_balance get_wallet_by_user_id find_wallet deduct_from write_balance update_balance
    create_transaction update_rows rows_affected lt64 add64 sub64
deduct_ok_example = deduct_ok ℕ mint order bank bank-IsSolvent (omega arith) refl

deduct_write_race_example :
    ((deduct_write ℕ mint ana order (deduct_write ℕ mint ana order bank).0).2 ≢ none)
    × ((deduct_write ℕ mint ana order (deduct_write ℕ mint ana order bank).0).0.wallets
        ≡ (deduct_write ℕ mint ana order bank).0.wallets)
unfolding deduct_from write_balance update_balance create_transaction update_rows rows_affected lt64
    add64 sub64
deduct_write_race_example = deduct_write_race ℕ mint mint ana order order bank (omega arith) refl

refund_deduct_example :
    let d' = (refund_order ℕ mint order "gateway_failure" after).0 in
    (w w' : Wallet) × (find_wallet 7 "USD" bank.wallets ≡ some w)
    × (find_wallet 7 "USD" d'.wallets ≡ some w')
    × (w'.balance ≡ w.balance)
    × (w'.version ≡ add64 (add64 w.version 1) 1)
    × (d'.transactions
        ≡ ([] ++ debit_of ℕ mint w order ∷ []) ++ credit_of ℕ mint w order "gateway_failure" ∷ [])
unfolding deduct_balance refund_balance refund_to get_wallet_by_user_id find_wallet deduct_from
    write_balance update_balance create_transaction update_rows rows_affected lt64 add64 sub64
refund_deduct_example =
    refund_deduct ℕ mint mint order "gateway_failure" bank bank-IsSolvent (omega arith) refl refl
