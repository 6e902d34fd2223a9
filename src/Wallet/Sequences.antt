-- ===== src/Wallet/Sequences.antt =====
-- Two calls of the wallet service in a row, over the SQL repository: two deductions that read the
-- same wallet, and a deduction with its refund.
use draftea_payment.Prelude.{
  ℕ, ◌<◌, ◌≡◌, ◌≢◌, refl, ap, ap₂, ◌∙◌, String, Int64, word, none, some, List, [], ◌∷◌, ◌++◌, add64,
  sub64, add64_small, arith, Option-cases, inl, inr,
}
use draftea_payment.Wallet.Entity.{Wallet}
use draftea_payment.Wallet.Service.{Mint}
use draftea_payment.Wallet.Sql.{Db, find_wallet, update_rows, rows_affected}
use draftea_payment.Wallet.Ledger.{
  Order, deduct, refund_order, deduct_write, debit_of, credit_of, after_read, with_balance,
  refund_cases, deduct_write_error, deduct_write_ok, refund_write_ok, find_wallet-update_rows,
}
use draftea_payment.Wallet.Effects.{IsSolvent, find_wallet-balance, deduct_ok}

rows_affected-update_rows :
    (now id : ℕ) (balance version : Int64) (ws : List Wallet)
    → version < word
    → rows_affected id version (update_rows now id balance version ws) ≡ 0
unfolding rows_affected update_rows
rows_affected-update_rows now id balance version [] h = refl
rows_affected-update_rows now id balance version (x ∷ ws) h =
    let moved : add64 version 1 ≢ version = unfold add64 in omega arith in
    ground (arith, rows_affected-update_rows now id balance version ws h)

module _ (R : Type 0) where
  -- Of two deductions that have read the same row of a wallet, where the first to write succeeds,
  -- the second is refused and changes no wallet.
  pub deduct_write_race :
      (m m' : Mint) (w : Wallet) (o o' : Order) (d : Db)
      → w.version < word
      → (deduct_write R m w o d).2 ≡ none
      → let d' = (deduct_write R m w o d).0 in
        ((deduct_write R m' w o' d').2 ≢ none)
        × ((deduct_write R m' w o' d').0.wallets ≡ d'.wallets)
  deduct_write_race m m' w o o' d size h =
      let d' = (deduct_write R m w o d).0 in
      let (_, _, _, rows, _) = deduct_write_ok R m w o d h in
      let stale : rows_affected w.id w.version d'.wallets ≡ 0 = rw rows (
        rows_affected-update_rows m.now w.id (sub64 w.balance o.amount) w.version d.wallets size) in
      let lost : (deduct_write R m' w o' d').2 ≢ none =
        λ done. absurd (omega (arith, (deduct_write_ok R m' w o' d' done).2)) in
      (
        lost,
        elim (Option-cases (deduct_write R m' w o' d').2) [
          | inl done ↦ absurd (lost done)
          | inr (x, refused) ↦ deduct_write_error R m' w o' d' refused
        ],
      )

  -- Where a deduction succeeds, on wallets without negative balances, and then its refund does, the
  -- payer's balance is again what it was, the version has grown by two, and one debit and one credit
  -- were logged.
  pub refund_deduct :
      (m m' : Mint) (o : Order) (reason : String) (d : Db)
      → IsSolvent d
      → o.amount < word
      → (deduct R m o d).2 ≡ none
      → (refund_order R m' o reason (deduct R m o d).0).2 ≡ none
      → let d' = (refund_order R m' o reason (deduct R m o d).0).0 in
        (w w' : Wallet) × (find_wallet o.user_id o.currency d.wallets ≡ some w)
        × (find_wallet o.user_id o.currency d'.wallets ≡ some w')
        × (w'.balance ≡ w.balance)
        × (w'.version ≡ add64 (add64 w.version 1) 1)
        × (d'.transactions
            ≡ (d.transactions ++ debit_of R m w o ∷ []) ++ credit_of R m' w o reason ∷ [])
  refund_deduct m m' o reason d solvent size h k =
      let d' = (deduct R m o d).0 in
      let (w, w1, found, found1, row, _, moved, version, log1) = deduct_ok R m o d solvent size h in
      let funds = find_wallet-balance o.user_id o.currency w d.wallets solvent found in
      elim (refund_cases R m' o reason d') [
        | inl (y, failed) ↦ absurd (cc (k, ap (λ r. r.2) failed))
        | inr (v, found2, same) ↦
            let (_, _, rows, log) =
              refund_write_ok R m' v o reason (after_read d') (rw same at k) in
            let e : v ≡ w1 = cc in
            (
              w,
              with_balance m'.now (add64 v.balance o.amount) v,
              found,
              rw same (
                  rw rows
                    (find_wallet-update_rows o.user_id o.currency m'.now _ v d'.wallets found2)),
              rw e (add64_small w1.balance o.amount (omega arith) ∙ moved),
              rw e (ap (λ n. add64 n 1) version),
              rw same (
                  log
                  ∙ ap₂
                      (λ l (n : ℕ). l ++ record (credit_of R m' w o reason) { wallet_id = n } ∷ [])
                      log1 (ap (λ (u : Wallet). u.id) e ∙ row)),
            )
      ]
