-- ===== src/Tests/Payments.antt =====
-- Examples for the payment service: a request of 300 from the wallet of 1000, with a gateway that
-- refuses every payment and one that accepts it.
use draftea_payment.Prelude.{
  ℕ, ◌+◌, ◌*◌, ◌≡◌, refl, none, some, Result, ok, err, arith, [], ◌∷◌, ◌++◌, add64, sub64, lt64,
}
use draftea_payment.Events.Types.{TxnId, gw_txn, no_txn}
use draftea_payment.Payment.Entity.{PaymentRequest, PaymentStatus, Payment}
use draftea_payment.Payment.Service.{new_payment, process_payment, pay_by_hand, settle}
use draftea_payment.Payment.Money.{Failure, other_failure, Rest, service, process_payment_failed}
use draftea_payment.Payment.Settlement.{IsEntry, settle_completed, settle_refunded}
use draftea_payment.Payment.Sql.{PaymentDb, find_payment, save}
use draftea_payment.Payment.Status.{Others, service_on_sql, settle_stored}
use draftea_payment.Wallet.Entity.{Wallet, Transaction, debit, credit}
use draftea_payment.Wallet.Service.{
  write_balance, validate_balance, deduct_from, deduct_balance, refund_to, refund_balance,
}
use draftea_payment.Wallet.Sql.{
  find_wallet, get_wallet_by_user_id, update_rows, rows_affected, update_balance,
  create_transaction,
}
use draftea_payment.Tests.Wallets.{bank, bank-IsSolvent}

-- A world that only counts what happened, and a gateway with a fixed answer.
abbrev rest : Result (Failure ℕ) TxnId → Rest ℕ ℕ
rest answer = record {
  save = λ p n. (n + 1, none);
  get_by_id = λ id n. (n, err (other_failure 0));
  update_status = λ id status n. n + 1;
  gateway_service = λ p n. (n + 1, answer);
  event_publisher = λ e n. n + 1;
  mint = λ n. record { first_uuid = 10 * n; now = n };
}

abbrev refusing : Rest ℕ ℕ
refusing = rest (err (other_failure 5))

abbrev accepting : Rest ℕ ℕ
accepting = rest (ok (gw_txn "stripe" 3))

abbrev request : PaymentRequest
request = record {
  user_id = 7;
  amount = 300;
  currency = "USD";
  service_id = "svc";
  description = "";
}

abbrev large_request : PaymentRequest
large_request = record request { amount = 5000 }

abbrev paid : Payment
paid = record (new_payment 20 0 request) { status = PaymentStatus.processing }

process_payment_failed_example :
    (process_payment (service refusing) 20 large_request (bank, 0)).world.0.wallets ≡ bank.wallets
unfolding process_payment pay_by_hand validate_balance get_wallet_by_user_id find_wallet lt64
process_payment_failed_example =
    process_payment_failed refusing 20 large_request bank 0 (λ h. absurd (cc h))

settle_completed_example :
    let after =
      settle
        (service accepting)
        30
        paid
        (process_payment (service accepting) 20 request (bank, 0)).world in
    (w w' : Wallet) × (find_wallet 7 "USD" bank.wallets ≡ some w)
    × (find_wallet 7 "USD" after.0.wallets ≡ some w')
    × (w'.balance + 300 ≡ w.balance)
unfolding process_payment pay_by_hand validate_balance deduct_balance get_wallet_by_user_id
    find_wallet deduct_from write_balance update_balance create_transaction update_rows
    rows_affected lt64 add64 sub64
settle_completed_example =
    settle_completed accepting 20 30 request bank 0 paid bank-IsSolvent (omega arith) refl refl refl

settle_refunded_example :
    let after =
      settle
        (service refusing)
        30
        paid
        (process_payment (service refusing) 20 request (bank, 0)).world in
    (w w' : Wallet) × (find_wallet 7 "USD" bank.wallets ≡ some w)
    × (find_wallet 7 "USD" after.0.wallets ≡ some w')
    × (w'.balance ≡ w.balance)
    × (t t' : Transaction) × (after.0.transactions ≡ (bank.transactions ++ t ∷ []) ++ t' ∷ [])
    × IsEntry debit request w paid t
    × IsEntry credit request w paid t'
unfolding process_payment pay_by_hand validate_balance deduct_balance refund_balance refund_to
    get_wallet_by_user_id find_wallet deduct_from write_balance update_balance create_transaction
    update_rows rows_affected lt64 add64 sub64
settle_refunded_example =
    settle_refunded refusing 20 30 request bank 0 paid bank-IsSolvent (omega arith) refl refl refl
      refl

-- The parts around the repository of the payments: a wallet service that agrees to everything.
abbrev others : Result ℕ TxnId → Others ℕ ℕ
others answer = record {
  of_db = λ x. 0;
  wallet_service = record {
    validate_balance = λ user amount currency n. (n, none);
    deduct_balance = λ user amount currency payment n. (n + 1, none);
    refund_balance = λ user amount currency payment reason n. (n + 1, none);
  };
  gateway_service = λ p n. (n, answer);
  event_publisher = λ e n. n + 1;
  now = λ n. n;
}

abbrev table : PaymentDb
table = record { payments = []; clock = 4; faults = [] }

abbrev happy : Others ℕ ℕ
happy = others (ok (gw_txn "stripe" 3))

settle_stored_example :
    let r = process_payment (service_on_sql happy) 20 request (table, 0) in
    let after = settle (service_on_sql happy) 30 paid r.world in
    (q : Payment) × (find_payment 21 after.0.payments ≡ some q)
    × (q.status ≡ PaymentStatus.completed)
    × (q.amount ≡ 300)
    × (q.gateway_txn_id ≡ no_txn)
unfolding process_payment pay_by_hand save find_payment lt64
settle_stored_example = settle_stored happy 20 30 request table 0 paid refl refl refl refl
