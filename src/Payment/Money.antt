-- ===== src/Payment/Money.antt =====
-- The payment service without a saga orchestrator, over the wallet service on the SQL repository:
-- what a payment does to the wallets. Everything else the payment service calls (its repository, the
-- gateway, the publisher) acts on a second part of the world, of any type, and may fail as it likes.
use draftea_payment.Prelude.{
  ℕ, ◌+◌, ◌<◌, ◌≡◌, ◌≢◌, ◌⊎◌, refl, String, Int64, word, Option, none, some, List, [], ◌∷◌, Result,
  arith, Option-cases, inl, inr,
}
use draftea_payment.Events.Types.{DomainEvent, TxnId}
use draftea_payment.Payment.Entity.{PaymentRequest, PaymentStatus, Payment}
use draftea_payment.Payment.Service.{
  WalletService, Service, Reply, new_payment, process_payment, pay_by_hand,
}
use draftea_payment.Wallet.Entity.{Wallet}
use draftea_payment.Wallet.Service.{
  Mint, WalletError, validate_balance, deduct_balance, refund_balance,
}
use draftea_payment.Wallet.Sql.{Db, find_wallet, get_wallet_by_user_id, sql}
use draftea_payment.Wallet.Ledger.{Order, deduct}
use draftea_payment.Wallet.Effects.{IsSolvent, deduct_error, deduct_ok}

-- An error of the wallet service, or of another part.
pub data Failure (Z : Type 0) : Type 0 where
  wallet_failure : WalletError → Failure Z
  other_failure : Z → Failure Z

abbrev pub lift_failure : {Z : Type 0} → Option WalletError → Option (Failure Z)
lift_failure none = none
lift_failure (some x) = some (wallet_failure x)

-- The parts of the payment service that are not the wallet service.
pub record Rest (Z X : Type 0) : Type 0 where
  pub save : Payment → X → X × Option (Failure Z)
  pub get_by_id : ℕ → X → X × Result (Failure Z) Payment
  pub update_status : ℕ → PaymentStatus → X → X
  pub gateway_service : Payment → X → X × Result (Failure Z) TxnId
  pub event_publisher : DomainEvent (Failure Z) → X → X
  pub mint : X → Mint

abbrev pub order_of : Payment → Order
order_of p = record {
  user_id = p.user_id;
  amount = p.amount;
  currency = p.currency;
  payment_id = p.id;
}

module _ {Z X : Type 0} (rest : Rest Z X) where
  abbrev pub publish_all : List (DomainEvent (Failure Z)) → X → X
  publish_all [] x = x
  publish_all (e ∷ es) x = publish_all es (rest.event_publisher e x)

  abbrev wallet_call :
      (Mint → Db → Db × List (DomainEvent (Failure Z)) × Option WalletError)
      → Db × X
      → (Db × X) × Option (Failure Z)
  wallet_call f (d, x) =
      let (d', events, failure) = f (rest.mint x) d in
      ((d', publish_all events x), lift_failure failure)

  abbrev pub wallets : WalletService (Failure Z) (Db × X)
  wallets = record {
    validate_balance = λ user amount currency.
        wallet_call (λ m. validate_balance sql (Failure Z) m user amount currency);
    deduct_balance = λ user amount currency payment.
        wallet_call (λ m. deduct_balance sql (Failure Z) m user amount currency payment);
    refund_balance = λ user amount currency payment reason.
        wallet_call (λ m. refund_balance sql (Failure Z) m user amount currency payment reason);
  }

  -- The service as NewService makes it: without an orchestrator.
  abbrev pub service : Service (Failure Z) (Db × X)
  service = record {
    repo = record {
      save = λ p w. let (x, r) = rest.save p w.1 in ((w.0, x), r);
      get_by_id = λ id w. let (x, r) = rest.get_by_id id w.1 in ((w.0, x), r);
      update_status = λ id status w. (w.0, rest.update_status id status w.1);
    };
    wallet_service = wallets;
    gateway_service = λ p w. let (x, r) = rest.gateway_service p w.1 in ((w.0, x), r);
    event_publisher = λ e w. (w.0, rest.event_publisher e w.1);
    saga_orchestrator = none;
    now = λ w. (rest.mint w.1).now;
  }

  validate-wallets :
      (m : Mint) (user : ℕ) (amount : Int64) (currency : String) (d : Db)
      → let d' = (validate_balance sql (Failure Z) m user amount currency d).0 in
        (d'.wallets ≡ d.wallets) × (d'.transactions ≡ d.transactions)
  unfolding validate_balance get_wallet_by_user_id
  validate-wallets m user amount currency d = (ground arith, ground arith)

  -- What a reply of `pay_by_hand` shows: an error and the wallets as they were, or a deduction.
  abbrev pub IsPaid : Payment → Db → Reply (Failure Z) (Db × X) → Type 0
  IsPaid p d r =
      (m : Mint) × (d1 : Db) × (d1.wallets ≡ d.wallets)
      × (d1.transactions ≡ d.transactions)
      × ((deduct (Failure Z) m (order_of p) d1).2 ≡ none)
      × (r.world.0 ≡ (deduct (Failure Z) m (order_of p) d1).0)
      × (r.spawned ≡ some (record p { status = PaymentStatus.processing }))

  pay_by_hand_cases :
      (u : ℕ) (p : Payment) (d : Db) (x : X)
      → let r = pay_by_hand service u p (d, x) in
        ((r.failure ≢ none) × (r.world.0.wallets ≡ d.wallets)) ⊎ ((r.failure ≡ none) × IsPaid p d r)
  unfolding pay_by_hand
  pay_by_hand_cases u p d x =
      let m = rest.mint x in
      let (d1, events, refused) =
        validate_balance sql (Failure Z) m p.user_id p.amount p.currency d in
      let m' = rest.mint (publish_all events x) in
      let (rows, log) = validate-wallets m p.user_id p.amount p.currency d in
      elim (Option-cases refused) [
        | inr (y, h) ↦ inl (ground arith, ground arith)
        | inl h ↦ elim (Option-cases (deduct (Failure Z) m' (order_of p) d1).2) [
          | inr (y, h') ↦
              let same = deduct_error (Failure Z) m' (order_of p) d1 h' in
              inl (ground arith, ground arith)
          | inl h' ↦ inr (ground arith, (m', d1, rows, log, h', ground arith, ground arith))
        ]
      ]

  pub process_payment_cases :
      (u : ℕ) (req : PaymentRequest) (d : Db) (x : X)
      → let r = process_payment service u req (d, x) in
        ((r.failure ≢ none) × (r.world.0.wallets ≡ d.wallets))
        ⊎ ((r.failure ≡ none) × IsPaid (new_payment u (rest.mint x).now req) d r)
  unfolding process_payment
  process_payment_cases u req d x =
      let p = new_payment u (rest.mint x).now req in
      let (x', saved) = rest.save p x in
      elim (Option-cases saved) [
        | inr (y, h) ↦ inl (ground arith, ground arith)
        | inl h ↦ rw h (pay_by_hand_cases u p d _)
      ]

  -- A call of ProcessPayment that returns an error has changed no wallet.
  pub process_payment_failed :
      (u : ℕ) (req : PaymentRequest) (d : Db) (x : X)
      → let r = process_payment service u req (d, x) in
        r.failure ≢ none → r.world.0.wallets ≡ d.wallets
  process_payment_failed u req d x h = elim (process_payment_cases u req d x) [
    | inl (_, same) ↦ same
    | inr (fine, _) ↦ absurd (h fine)
  ]

  -- A call of ProcessPayment that returns no error, on wallets without negative balances, has
  -- lowered the balance of the payer's wallet by exactly the amount, and started the goroutine for
  -- the payment, which is processing.
  pub process_payment_paid :
      (u : ℕ) (req : PaymentRequest) (d : Db) (x : X)
      → IsSolvent d
      → req.amount < word
      → let r = process_payment service u req (d, x) in
        r.failure ≡ none
        → (w w' : Wallet) × (p : Payment) × (r.spawned ≡ some p)
          × (p.status ≡ PaymentStatus.processing)
          × (find_wallet req.user_id req.currency d.wallets ≡ some w)
          × (find_wallet req.user_id req.currency r.world.0.wallets ≡ some w')
          × (w'.balance + req.amount ≡ w.balance)
  process_payment_paid u req d x solvent size h = elim (process_payment_cases u req d x) [
    | inl (failed, _) ↦ absurd (failed h)
    | inr (_, (m, d1, rows, log, done, world, spawned)) ↦
        let o = order_of (new_payment u (rest.mint x).now req) in
        let (w, w', found, found', _, _, moved, _, _) =
          deduct_ok (Failure Z) m o d1 (rw rows solvent) size done in
        (w, w', _, spawned, refl, rw rows at found, rw world found', moved)
  ]
