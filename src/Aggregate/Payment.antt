-- ===== src/Aggregate/Payment.antt =====
-- pkg/eventstore/aggregates.go: PaymentAggregate. The encodings of its event data and of its
-- snapshot are parameters, and so are the uuids and the clock's readings that a command takes.
use draftea_payment.Prelude.{
  ℕ, String, Int64, not, Option, none, some, if◌then◌else◌, str_eq, add64,
}
use draftea_payment.EventStore.Event.{Event, new_event}
use draftea_payment.Aggregate.Base.{Aggregate, BaseAggregate, new_base, add_uncommitted_event}

pub record PaymentAggregate (F D : Type 0) : Type 0 where
  pub base : BaseAggregate D
  pub user_id : String
  pub amount : F
  pub currency : String
  pub payment_method : String
  pub status : String
  pub gateway_tx_id : String
  pub created_at : ℕ
  pub completed_at : Option ℕ

pub record PaymentInitiatedData (F : Type 0) : Type 0 where
  pub payment_id : String
  pub user_id : String
  pub amount : F
  pub currency : String
  pub payment_method : String
  pub initiated_at : ℕ

pub record PaymentCompletedData (F : Type 0) : Type 0 where
  pub payment_id : String
  pub user_id : String
  pub amount : F
  pub currency : String
  pub gateway_tx_id : String
  pub gateway_transaction_id : String
  pub processing_time_ms : Int64
  pub completed_at : ℕ

pub record PaymentFailedData (F : Type 0) : Type 0 where
  pub payment_id : String
  pub user_id : String
  pub amount : F
  pub currency : String
  pub failure_reason : String
  pub failed_at : ℕ

pub record PaymentSnapshot (F : Type 0) : Type 0 where
  pub id : String
  pub user_id : String
  pub amount : F
  pub currency : String
  pub payment_method : String
  pub status : String
  pub gateway_tx_id : String
  pub created_at : ℕ
  pub completed_at : Option ℕ
  pub version : Int64

-- encoding/json for values of type `A`: either direction may fail.
pub record Codec (A D : Type 0) : Type 0 where
  pub marshal : A → Option D
  pub unmarshal : D → Option A

pub record PaymentCodecs (F D : Type 0) : Type 0 where
  pub initiated : Codec (PaymentInitiatedData F) D
  pub completed : Codec (PaymentCompletedData F) D
  pub failed : Codec (PaymentFailedData F) D
  pub snapshot : Codec (PaymentSnapshot F) D

-- What a command takes from outside: the uuids of its event and of its correlation, the clock, and
-- the encoded metadata that NewEvent adds.
pub record Command (D : Type 0) : Type 0 where
  pub event_id : String
  pub correlation_id : String
  pub now : ℕ
  pub event_metadata : Option D

pub data AggregateError : Type 0 where
  cannot_initiate cannot_complete : String → AggregateError
  cannot_fail amount_not_positive insufficient event_not_made data_unread : AggregateError

-- NewPaymentAggregate
abbrev pub new_payment_aggregate :
    {F D : Type 0} → String → String → F → String → String → ℕ → PaymentAggregate F D
new_payment_aggregate id user amount currency method now = record {
  base = new_base id "payment";
  user_id = user;
  amount = amount;
  currency = currency;
  payment_method = method;
  status = "pending";
  gateway_tx_id = "";
  created_at = now;
  completed_at = none;
}

module _ {F D : Type 0} (codecs : PaymentCodecs F D) where
  abbrev raise_version : PaymentAggregate F D → PaymentAggregate F D
  raise_version p = record p { base = record (p.base) { version = add64 p.base.version 1 } }

  abbrev apply_initiated : D → PaymentAggregate F D → PaymentAggregate F D × Option AggregateError
  apply_initiated d p = elim (codecs.initiated.unmarshal d) [
    | none ↦ (p, some data_unread)
    | some x ↦ (
      raise_version (record p {
        base = record (p.base) { id = x.payment_id };
        user_id = x.user_id;
        amount = x.amount;
        currency = x.currency;
        payment_method = x.payment_method;
        status = "initiated";
      }),
      none,
    )
  ]

  abbrev apply_completed : D → PaymentAggregate F D → PaymentAggregate F D × Option AggregateError
  apply_completed d p = elim (codecs.completed.unmarshal d) [
    | none ↦ (p, some data_unread)
    | some x ↦ (
      raise_version (record p {
        status = "completed";
        gateway_tx_id = x.gateway_tx_id;
        completed_at = some x.completed_at;
      }),
      none,
    )
  ]

  abbrev apply_failed : D → PaymentAggregate F D → PaymentAggregate F D × Option AggregateError
  apply_failed d p = elim (codecs.failed.unmarshal d) [
    | none ↦ (p, some data_unread)
    | some x ↦ (raise_version (record p { status = "failed" }), none)
  ]

  -- ApplyEvent. An event of another type only raises the version.
  unfoldable pub apply_payment_event :
      Event D → PaymentAggregate F D → PaymentAggregate F D × Option AggregateError
  apply_payment_event e p =
      if str_eq e.event_type "PaymentInitiated"
      then apply_initiated e.event_data p
      else if str_eq e.event_type "PaymentCompleted"
      then apply_completed e.event_data p
      else if str_eq e.event_type "PaymentFailed"
      then apply_failed e.event_data p
      else (raise_version p, none)

  -- The end of each command: the event is made, added and applied.
  unfoldable pub raise_payment_event :
      Command D
      → String
      → Option D
      → PaymentAggregate F D
      → PaymentAggregate F D × Option AggregateError
  raise_payment_event c kind d p =
      elim (new_event c.event_id c.now d c.event_metadata p.base.id "payment" kind p.user_id
        c.correlation_id) [
          | none ↦ (p, some event_not_made)
          | some e ↦
              let (b, e') = add_uncommitted_event e p.base in
              apply_payment_event e' (record p { base = b })
        ]

  -- InitiatePayment
  unfoldable pub initiate_payment :
      Command D → PaymentAggregate F D → PaymentAggregate F D × Option AggregateError
  initiate_payment c p =
      let d = codecs.initiated.marshal (record {
        payment_id = p.base.id;
        user_id = p.user_id;
        amount = p.amount;
        currency = p.currency;
        payment_method = p.payment_method;
        initiated_at = c.now;
      }) in
      if not (str_eq p.status "pending")
      then (p, some (cannot_initiate p.status))
      else raise_payment_event c "PaymentInitiated" d p

  -- CompletePayment
  unfoldable pub complete_payment :
      Command D → String → PaymentAggregate F D → PaymentAggregate F D × Option AggregateError
  complete_payment c txn p =
      let d = codecs.completed.marshal (record {
        payment_id = p.base.id;
        user_id = p.user_id;
        amount = p.amount;
        currency = p.currency;
        gateway_tx_id = txn;
        gateway_transaction_id = "";
        processing_time_ms = 0;
        completed_at = c.now;
      }) in
      if not (str_eq p.status "processing")
      then (p, some (cannot_complete p.status))
      else raise_payment_event c "PaymentCompleted" d p

  -- FailPayment
  unfoldable pub fail_payment_aggregate :
      Command D → String → PaymentAggregate F D → PaymentAggregate F D × Option AggregateError
  fail_payment_aggregate c reason p =
      let d = codecs.failed.marshal (record {
        payment_id = p.base.id;
        user_id = p.user_id;
        amount = p.amount;
        currency = p.currency;
        failure_reason = reason;
        failed_at = c.now;
      }) in
      if str_eq p.status "completed"
      then (p, some cannot_fail)
      else raise_payment_event c "PaymentFailed" d p

  -- CreateSnapshot
  unfoldable pub snapshot_payment : PaymentAggregate F D → Option D
  snapshot_payment p = codecs.snapshot.marshal (record {
    id = p.base.id;
    user_id = p.user_id;
    amount = p.amount;
    currency = p.currency;
    payment_method = p.payment_method;
    status = p.status;
    gateway_tx_id = p.gateway_tx_id;
    created_at = p.created_at;
    completed_at = p.completed_at;
    version = p.base.version;
  })

  -- LoadFromSnapshot
  unfoldable pub load_payment_snapshot : D → PaymentAggregate F D → Option (PaymentAggregate F D)
  load_payment_snapshot d p = elim (codecs.snapshot.unmarshal d) [
    | none ↦ none
    | some x ↦ some (record p {
      base = record (p.base) { id = x.id; version = x.version };
      user_id = x.user_id;
      amount = x.amount;
      currency = x.currency;
      payment_method = x.payment_method;
      status = x.status;
      gateway_tx_id = x.gateway_tx_id;
      created_at = x.created_at;
      completed_at = x.completed_at;
    })
  ]

  abbrev pub payment_aggregate : Aggregate AggregateError D (PaymentAggregate F D)
  payment_aggregate = record {
    base = λ p. p.base;
    with_base = λ b p. record p { base = b };
    get_type = λ p. "payment";
    apply_event = apply_payment_event;
    create_snapshot = snapshot_payment;
    load_from_snapshot = load_payment_snapshot;
  }
