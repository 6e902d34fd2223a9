-- ===== src/Events/Types.antt =====
-- internal/events/types.go: the event types and the events. A uuid is a number, since it is only
-- compared, and a time is a number of nanoseconds.
use draftea_payment.Prelude.{ℕ, String, Int64, List}

pub data EventType : Type 0 where
  payment_initiated payment_completed payment_failed payment_cancelled : EventType
  wallet_deducted wallet_refunded wallet_validated wallet_insufficient : EventType
  gateway_request_sent gateway_response_received gateway_timeout gateway_error : EventType
  metrics_collected alert_triggered : EventType

-- A transaction number of the gateway: the empty string, or the provider and the time at which the
-- gateway made it up ("gw_<provider>_<unix time>").
pub data TxnId : Type 0 where
  no_txn : TxnId
  gw_txn : String → ℕ → TxnId

-- What the maps of type map[string]interface{} hold in this program.
pub data Value : Type 0 where
  text : String → Value
  int : Int64 → Value
  uid : ℕ → Value

abbrev pub Metadata : Type 0
Metadata = List (String × Value)

pub record BaseEvent : Type 0 where
  pub id : ℕ
  pub event_type : EventType
  pub aggregate_id : ℕ
  pub version : Int64
  pub timestamp : ℕ
  pub correlation_id : ℕ
  pub metadata : Metadata

pub record PaymentInitiatedEvent : Type 0 where
  pub base : BaseEvent
  pub user_id : ℕ
  pub amount : Int64
  pub currency : String
  pub service_id : String
  pub description : String

pub record PaymentCompletedEvent : Type 0 where
  pub base : BaseEvent
  pub user_id : ℕ
  pub amount : Int64
  pub currency : String
  pub gateway_txn_id : TxnId
  pub processed_at : ℕ

-- `Reason` is left to its producer, which gives the failure that it reports.
pub record PaymentFailedEvent (Reason : Type 0) : Type 0 where
  pub base : BaseEvent
  pub user_id : ℕ
  pub amount : Int64
  pub currency : String
  pub reason : Reason
  pub error_code : String

pub record WalletDeductedEvent : Type 0 where
  pub base : BaseEvent
  pub user_id : ℕ
  pub amount : Int64
  pub currency : String
  pub previous_balance : Int64
  pub new_balance : Int64
  pub payment_id : ℕ

pub record WalletRefundedEvent : Type 0 where
  pub base : BaseEvent
  pub user_id : ℕ
  pub amount : Int64
  pub currency : String
  pub previous_balance : Int64
  pub new_balance : Int64
  pub payment_id : ℕ
  pub reason : String

pub record GatewayResponseReceivedEvent : Type 0 where
  pub base : BaseEvent
  pub payment_id : ℕ
  pub gateway_txn_id : TxnId
  pub status : String
  pub response_code : String
  pub response_data : Metadata
  pub processing_time : ℕ

-- What is handed to a publisher: a bare BaseEvent, or a structure that embeds one.
pub data DomainEvent (Reason : Type 0) : Type 0 where
  bare : BaseEvent → DomainEvent Reason
  initiated : PaymentInitiatedEvent → DomainEvent Reason
  completed : PaymentCompletedEvent → DomainEvent Reason
  failed : PaymentFailedEvent Reason → DomainEvent Reason
  deducted : WalletDeductedEvent → DomainEvent Reason
  refunded : WalletRefundedEvent → DomainEvent Reason
  response_received : GatewayResponseReceivedEvent → DomainEvent Reason
