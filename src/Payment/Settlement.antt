-- ===== src/Payment/Settlement.antt =====
-- The goroutine of the payment service, over the wallet service on the SQL repository: what it
-- does to the wallets when the gateway accepts the payment, and when it refuses it.
use draftea_payment.Prelude.{
  ℕ, ◌+◌, ◌<◌, ◌≡◌, refl, sym, ap, ap₂, ◌∙◌, word, none, some, [], ◌∷◌, ◌++◌, ok, err, inl, inr,
  some-injective,
}
use draftea_payment.Events.Types.{TxnId}
use draftea_payment.Payment.Entity.{PaymentRequest, Payment}
use draftea_payment.Payment.Service.{new_payment, process_payment, settle}
use draftea_payment.Wallet.Entity.{
  Wallet, Transaction, TransactionType, TransactionStatus, debit, credit,
}
use draftea_payment.Wallet.Sql.{Db, find_wallet}
use draftea_payment.Wallet.Ledger.{Order, deduct, refund_order, debit_of, credit_of}
use draftea_payment.Wallet.Effects.{IsSolvent}
use draftea_payment.Wallet.Sequences.{refund_deduct}
use draftea_payment.Payment.Money.{
  Failure, Rest, order_of, service, process_payment_cases, process_payment_paid,
}

-- What a transaction in the log says: its kind, its wallet, its amount, its status and its payment.
abbrev pub IsEntry : TransactionType → PaymentRequest → Wallet → Payment → Transaction → Type 0
IsEntry kind req w p t =
    (t.transaction_type ≡ kind)
    × (t.wallet_id ≡ w.id)
    × (t.amount ≡ req.amount)
    × (t.status ≡ TransactionStatus.pending)
    × (t.payment_id ≡ p.id)

module _ {Z X : Type 0} (rest : Rest Z X) where
  settle_accepted :
      (u : ℕ) (p : Payment) (w : Db × X) (txn : TxnId)
      → (rest.gateway_service p w.1).1 ≡ ok txn
      → (settle (service rest) u p w).0 ≡ w.0
  unfolding settle
  settle_accepted u p w txn h = rw (h, settle)

  settle_refused :
      (u : ℕ) (p : Payment) (w : Db × X) (y : Failure Z)
      → let (x', answer) = rest.gateway_service p w.1 in
        answer ≡ err y
        → (settle (service rest) u p w).0
          ≡ (refund_order (Failure Z) (rest.mint x') (order_of p) "gateway_failure" w.0).0
  unfolding settle
  settle_refused u p w y h = rw (h, settle)

  module _ (u u' : ℕ) (req : PaymentRequest) (d : Db) (x : X) (p : Payment) where
    -- Let ProcessPayment return no error, on wallets without negative balances, and its goroutine
    -- run next. If the gateway accepts the payment, the payer's balance is then lower than before by
    -- exactly the amount.
    pub settle_completed :
        {txn : TxnId}
        → IsSolvent d
        → req.amount < word
        → let r = process_payment (service rest) u req (d, x) in
          r.failure ≡ none
          → r.spawned ≡ some p
          → (rest.gateway_service p r.world.1).1 ≡ ok txn
          → let after = settle (service rest) u' p r.world in
            (w w' : Wallet) × (find_wallet req.user_id req.currency d.wallets ≡ some w)
            × (find_wallet req.user_id req.currency after.0.wallets ≡ some w')
            × (w'.balance + req.amount ≡ w.balance)
    settle_completed {txn} solvent size h spawned accepted =
        let r = process_payment (service rest) u req (d, x) in
        let (w, w', _, _, _, found, found', moved) =
          process_payment_paid rest u req d x solvent size h in
        let same = ap (λ (db : Db). db.wallets) (settle_accepted u' p r.world txn accepted) in
        (w, w', found, ap (find_wallet req.user_id req.currency) same ∙ found', moved)

    -- Let ProcessPayment return no error, on wallets without negative balances, and its goroutine
    -- run next. If the gateway refuses the payment and the refund succeeds, the payer's balance
    -- is then what it was before, and the log of transactions has grown by one debit and one
    -- credit, in this order, both pending, of the amount, of the payer's wallet and for the
    -- payment.
    pub settle_refunded :
        {y : Failure Z}
        → IsSolvent d
        → req.amount < word
        → let r = process_payment (service rest) u req (d, x) in
          r.failure ≡ none
          → r.spawned ≡ some p
          → let (x', answer) = rest.gateway_service p r.world.1 in
            answer ≡ err y
            → (refund_order (Failure Z) (rest.mint x') (order_of p) "gateway_failure" r.world.0).2
              ≡ none
            → let after = settle (service rest) u' p r.world in
              (w w' : Wallet) × (find_wallet req.user_id req.currency d.wallets ≡ some w)
              × (find_wallet req.user_id req.currency after.0.wallets ≡ some w')
              × (w'.balance ≡ w.balance)
              × (t t' : Transaction) × (after.0.transactions
                  ≡ (d.transactions ++ t ∷ []) ++ t' ∷ [])
              × IsEntry debit req w p t
              × IsEntry credit req w p t'
    settle_refunded {y} solvent size h spawned refused k =
        elim (process_payment_cases rest u req d x) [
          | inl (failed, _) ↦ absurd (failed h)
          | inr (_, (m, d1, rows, log, done, world, spawned')) ↦
              let r = process_payment (service rest) u req (d, x) in
              let x' = (rest.gateway_service p r.world.1).0 in
              let o = order_of (new_payment u (rest.mint x).now req) in
              let same : order_of p ≡ o = ap order_of (some-injective (sym spawned ∙ spawned')) in
              let sent : (order_of p).amount ≡ req.amount = ap (λ (q : Order). q.amount) same in
              let refund = λ (o : Order) (db : Db).
                refund_order (Failure Z) (rest.mint x') o "gateway_failure" db in
              let paid = (deduct (Failure Z) m o d1).0 in
              let moved : refund (order_of p) r.world.0 ≡ refund o paid = ap₂ refund same world in
              let back = settle_refused u' p r.world y refused ∙ ap (λ a. a.0) moved in
              let (w, w', found, found', even, _, full) =
                refund_deduct (Failure Z) m (rest.mint x') o "gateway_failure" d1 (rw rows solvent)
                  size done (sym (ap (λ a. a.2) moved) ∙ k) in
              (
                w,
                w',
                rw rows at found,
                ap (λ (db : Db). find_wallet req.user_id req.currency db.wallets) back ∙ found',
                even,
                debit_of (Failure Z) m w (order_of p),
                credit_of (Failure Z) (rest.mint x') w (order_of p) "gateway_failure",
                ap (λ (db : Db). db.transactions) back
                    ∙ full
                    ∙ ap₂
                        (λ l (o' : Order).
                          (l ++ debit_of (Failure Z) m w o' ∷ [])
                          ++ credit_of (Failure Z) (rest.mint x') w o' "gateway_failure" ∷ [])
                        log (sym same),
                (refl, refl, sent, refl, refl),
                (refl, refl, sent, refl, refl),
              )
        ]
