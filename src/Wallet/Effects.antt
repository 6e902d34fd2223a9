-- ===== src/Wallet/Effects.antt =====
-- What DeductBalance and RefundBalance do to the wallets, over the SQL repository.
use draftea_payment.Prelude.{
  ℕ, ◌+◌, ◌≤◌, ◌<◌, ◌≡◌, ◌≢◌, refl, sym, ap, some-injective, ◌∙◌, String, Int64, half, word, true,
  false, none, some, List, [], ◌∷◌, ◌++◌, All, add64, sub64, lt64, lt64_small, sub64_small,
  add64-lt-word, arith, Option-cases, inl, inr,
}
use draftea_payment.Wallet.Entity.{Wallet}
use draftea_payment.Wallet.Service.{Mint, WalletError}
use draftea_payment.Wallet.Sql.{Db, find_wallet, update_rows}
use draftea_payment.Wallet.Ledger.{
  Order, deduct, refund_order, deduct_write, refund_write, debit_of, after_read, with_balance,
  deduct_cases, refund_cases, deduct_write_error, deduct_write_ok, refund_write_error,
  refund_write_ok, find_wallet-update_rows, find_wallet-update_rows_ne,
}

-- No balance is negative.
abbrev pub IsSolvent : Db → Type 0
IsSolvent d = All (λ w. w.balance < half) d.wallets

lt64_pos : (a : Int64) → a < word → lt64 0 a ≡ true → (0 < a) × (a < half)
unfolding lt64
lt64_pos a h p = (ground arith, ground arith)

lt64_nonneg : (a : Int64) → a < word → lt64 a 0 ≡ false → a < half
unfolding lt64
lt64_nonneg a h p = ground arith

pub find_wallet-balance :
    (user : ℕ) (currency : String) (w : Wallet) (ws : List Wallet)
    → All (λ x. x.balance < half) ws
    → find_wallet user currency ws ≡ some w
    → w.balance < half
unfolding find_wallet
find_wallet-balance user currency w [] h f = absurd (cc f)
find_wallet-balance user currency w (x ∷ ws) h f =
    ground (arith, find_wallet-balance user currency w ws h.1)

update_rows-All :
    (now id : ℕ) (balance version : Int64) (ws : List Wallet)
    → All (λ x. x.balance < half) ws
    → balance < half
    → All (λ x. x.balance < half) (update_rows now id balance version ws)
unfolding update_rows
update_rows-All now id balance version [] h k = tt
update_rows-All now id balance version (x ∷ ws) h k =
    (ground arith, update_rows-All now id balance version ws h.1 k)

module _ (R : Type 0) where
  -- A deduction that returns an error has changed no wallet.
  pub deduct_error :
      (m : Mint) (o : Order) (d : Db) {x : WalletError}
      → (deduct R m o d).2 ≡ some x
      → (deduct R m o d).0.wallets ≡ d.wallets
  deduct_error m o d h = elim (deduct_cases R m o d) [
    | inl (y, failed) ↦ rw failed
    | inr (w, _, same) ↦ rw same (deduct_write_error R m w o (after_read d) (rw same at h))
  ]

  -- A deduction that succeeds, on a database without negative balances, was of a positive amount;
  -- it lowered the balance of the payer's wallet by exactly that amount and raised its version by
  -- one, and logged one debit.
  pub deduct_ok :
      (m : Mint) (o : Order) (d : Db)
      → IsSolvent d
      → o.amount < word
      → (deduct R m o d).2 ≡ none
      → let d' = (deduct R m o d).0 in
        (w w' : Wallet) × (find_wallet o.user_id o.currency d.wallets ≡ some w)
        × (find_wallet o.user_id o.currency d'.wallets ≡ some w')
        × (w'.id ≡ w.id)
        × (0 < o.amount)
        × (w'.balance + o.amount ≡ w.balance)
        × (w'.version ≡ add64 w.version 1)
        × (d'.transactions ≡ d.transactions ++ debit_of R m w o ∷ [])
  deduct_ok m o d solvent size h = elim (deduct_cases R m o d) [
    | inl (y, failed) ↦ absurd (cc (h, ap (λ r. r.2) failed))
    | inr (w, found, same) ↦
        let (covered, positive, _, rows, log) =
          deduct_write_ok R m w o (after_read d) (rw same at h) in
        let funds = find_wallet-balance o.user_id o.currency w d.wallets solvent found in
        let (some_amount, small) = lt64_pos o.amount size positive in
        let test = lt64_small w.balance o.amount funds small in
        let cover : o.amount ≤ w.balance = ground arith in
        (
          w,
          with_balance m.now (sub64 w.balance o.amount) w,
          found,
          rw same
              (rw rows (find_wallet-update_rows o.user_id o.currency m.now _ w d.wallets found)),
          refl,
          some_amount,
          omega (arith, sub64_small w.balance o.amount funds cover),
          refl,
          rw same log,
        )
  ]

  -- A deduction, whatever its outcome, leaves every wallet with another identifier than the payer's
  -- as it was.
  pub deduct_others :
      (m : Mint) (o : Order) (d : Db) (user : ℕ) (currency : String) (w v : Wallet)
      → find_wallet o.user_id o.currency d.wallets ≡ some w
      → find_wallet user currency d.wallets ≡ some v
      → v.id ≢ w.id
      → find_wallet user currency (deduct R m o d).0.wallets ≡ some v
  deduct_others m o d user currency w v payer other differs = elim (deduct_cases R m o d) [
    | inl (y, failed) ↦ rw failed other
    | inr (w', found, same) ↦ elim (Option-cases (deduct_write R m w' o (after_read d)).2) [
      | inr (x, refused) ↦ rw same (rw (deduct_write_error R m w' o (after_read d) refused) other)
      | inl done ↦
          let (_, _, _, rows, _) = deduct_write_ok R m w' o (after_read d) done in
          let one : w.id ≡ w'.id = ap (λ (a : Wallet). a.id) (some-injective (sym payer ∙ found)) in
          rw same (
            rw rows (
              find_wallet-update_rows_ne user currency m.now w'.id _ w'.version v d.wallets other
                (λ e. differs (e ∙ sym one))))
    ]
  ]

  -- No refund, whatever its amount and its outcome, makes a balance negative, also where the sum
  -- would pass the end of the int64 range.
  pub refund-IsSolvent :
      (m : Mint) (o : Order) (reason : String) (d : Db)
      → IsSolvent d
      → IsSolvent (refund_order R m o reason d).0
  refund-IsSolvent m o reason d solvent = elim (refund_cases R m o reason d) [
    | inl (y, failed) ↦ rw failed solvent
    | inr (w, found, same) ↦ elim (Option-cases (refund_write R m w o reason (after_read d)).2) [
      | inr (x, refused) ↦
          rw same (rw (refund_write_error R m w o reason (after_read d) refused) solvent)
      | inl done ↦
          let (_, nonneg, rows, _) = refund_write_ok R m w o reason (after_read d) done in
          rw same (
            rw rows (
              update_rows-All m.now w.id _ w.version d.wallets solvent
                (lt64_nonneg _ (add64-lt-word w.balance o.amount) nonneg)))
    ]
  ]
