-- ===== src/Payment/Service.antt =====
-- internal/services/payment/service.go: the service, over any repository, wallet service,
-- gateway, publisher and saga orchestrator. `Er` stands for their errors and `W` for the world
-- they act on. The goroutine that ProcessPayment starts is the function `settle`, run by the
-- caller when it likes.
use draftea_payment.Prelude.{ℕ, ◌+◌, String, Int64, Option, none, some, [], Result, ok, err}
use draftea_payment.Events.Types.{
  EventType, BaseEvent, DomainEvent, TxnId, no_txn, initiated, completed, failed,
}
use draftea_payment.Payment.Entity.{PaymentRequest, PaymentStatus, Payment}

-- The interface Repository. What UpdateStatus answers is ignored or only logged.
pub record Repository (Er W : Type 0) : Type 0 where
  pub save : Payment → W → W × Option Er
  pub get_by_id : ℕ → W → W × Result Er Payment
  pub update_status : ℕ → PaymentStatus → W → W

-- The interface WalletService.
pub record WalletService (Er W : Type 0) : Type 0 where
  pub validate_balance : ℕ → Int64 → String → W → W × Option Er
  pub deduct_balance : ℕ → Int64 → String → ℕ → W → W × Option Er
  pub refund_balance : ℕ → Int64 → String → ℕ → String → W → W × Option Er

-- The service: the interface GatewayService is one function, and so is the publisher, whose
-- answer is ignored or only logged; `start_saga` is StartPaymentSaga of the orchestrator, where
-- there is one.
pub record Service (Er W : Type 0) : Type 0 where
  pub repo : Repository Er W
  pub wallet_service : WalletService Er W
  pub gateway_service : Payment → W → W × Result Er TxnId
  pub event_publisher : DomainEvent Er → W → W
  pub saga_orchestrator : Option (ℕ → ℕ → Int64 → String → W → W × Option Er)
  pub now : W → ℕ

pub data PaymentError (Er : Type 0) : Type 0 where
  save_failed saga_failed balance_failed deduct_failed : Er → PaymentError Er

-- What ProcessPayment leaves: the world, the payment, the error, and the payment that the goroutine
-- it started works on.
pub record Reply (Er W : Type 0) : Type 0 where
  pub world : W
  pub payment : Option Payment
  pub failure : Option (PaymentError Er)
  pub spawned : Option Payment

abbrev pub new_payment : ℕ → ℕ → PaymentRequest → Payment
new_payment u now req = record {
  id = u + 1;
  user_id = req.user_id;
  amount = req.amount;
  currency = req.currency;
  service_id = req.service_id;
  description = req.description;
  status = PaymentStatus.pending;
  gateway_txn_id = no_txn;
  created_at = now;
  updated_at = now;
  correlation_id = u;
}

abbrev pub payment_event : ℕ → EventType → Int64 → ℕ → Payment → BaseEvent
payment_event id kind version now p = record {
  id = id;
  event_type = kind;
  aggregate_id = p.id;
  version = version;
  timestamp = now;
  correlation_id = p.correlation_id;
  metadata = [];
}

module _ {Er W : Type 0} (s : Service Er W) where
  -- publishPaymentFailed, for the failure `reason`.
  abbrev pub publish_payment_failed : ℕ → Payment → String → Er → W → W
  publish_payment_failed id p code reason w =
      s.event_publisher
        (failed (record {
          base = payment_event id EventType.payment_failed 2 (s.now w) p;
          user_id = p.user_id;
          amount = p.amount;
          currency = p.currency;
          reason = reason;
          error_code = code;
        }))
        w

  abbrev pub publish_payment_initiated : ℕ → Payment → W → W
  publish_payment_initiated id p w =
      s.event_publisher
        (initiated (record {
          base = payment_event id EventType.payment_initiated 1 (s.now w) p;
          user_id = p.user_id;
          amount = p.amount;
          currency = p.currency;
          service_id = p.service_id;
          description = p.description;
        }))
        w

  -- The three failures of a saved payment have this in common.
  abbrev pub fail_payment : ℕ → Payment → String → Er → PaymentError Er → W → Reply Er W
  fail_payment u p code reason failure w =
      let p' = record p { status = PaymentStatus.failed } in
      let w' = s.repo.update_status p.id PaymentStatus.failed w in
      record {
        world = publish_payment_failed (u + 3) p' code reason w';
        payment = some p';
        failure = some failure;
        spawned = none;
      }

  abbrev pub mark_processing : Payment → Option Payment → W → Reply Er W
  mark_processing p spawned w = record {
    world = s.repo.update_status p.id PaymentStatus.processing w;
    payment = some (record p { status = PaymentStatus.processing });
    failure = none;
    spawned = spawned;
  }

  -- The branch with a saga orchestrator.
  abbrev pub pay_by_saga :
      (ℕ → ℕ → Int64 → String → W → W × Option Er) → ℕ → Payment → W → Reply Er W
  pay_by_saga start u p w =
      let (w', started) = start p.id p.user_id p.amount p.currency w in
      elim started [
        | some x ↦ fail_payment u p "saga_start_failed" x (saga_failed x) w'
        | none ↦ mark_processing p none w'
      ]

  -- The branch without one.
  unfoldable pub pay_by_hand : ℕ → Payment → W → Reply Er W
  pay_by_hand u p w =
      let (w', validated) = s.wallet_service.validate_balance p.user_id p.amount p.currency w in
      let (w'', deducted) = s.wallet_service.deduct_balance p.user_id p.amount p.currency p.id w' in
      elim validated [
        | some x ↦ fail_payment u p "insufficient_balance" x (balance_failed x) w'
        | none ↦ elim deducted [
          | some x ↦ fail_payment u p "deduction_failed" x (deduct_failed x) w''
          | none ↦ mark_processing p (some (record p { status = PaymentStatus.processing })) w''
        ]
      ]

  -- ProcessPayment; its uuids are counted on from `u`.
  unfoldable pub process_payment : ℕ → PaymentRequest → W → Reply Er W
  process_payment u req w =
      let p = new_payment u (s.now w) req in
      let (w', saved) = s.repo.save p w in
      let w'' = publish_payment_initiated (u + 2) p w' in
      elim saved [
        | some x ↦ record {
          world = w';
          payment = none;
          failure = some (save_failed x);
          spawned = none;
        }
        | none ↦ elim s.saga_orchestrator [
          | some start ↦ pay_by_saga start u p w''
          | none ↦ pay_by_hand u p w''
        ]
      ]

  -- The goroutine of ProcessPayment.
  unfoldable pub settle : ℕ → Payment → W → W
  settle u p w =
      let (w', answer) = s.gateway_service p w in
      elim answer [
        | err x ↦
            let (w'', _) =
              s.wallet_service.refund_balance p.user_id p.amount p.currency p.id "gateway_failure"
                w' in
            publish_payment_failed u p "gateway_error" x
              (s.repo.update_status p.id PaymentStatus.failed w'')
        | ok txn ↦
            let w'' = s.repo.update_status p.id PaymentStatus.completed w' in
            s.event_publisher
              (completed (record {
                base = payment_event u EventType.payment_completed 1 (s.now w'') p;
                user_id = p.user_id;
                amount = p.amount;
                currency = p.currency;
                gateway_txn_id = txn;
                processed_at = 0;
              }))
              w''
      ]

  -- GetPayment
  abbrev pub get_payment : ℕ → W → W × Result Er Payment
  get_payment id w = s.repo.get_by_id id w
