-- ===== src/Payment/Entity.antt =====
-- internal/services/payment/service.go: the request, the states of a payment and the payment.
use draftea_payment.Prelude.{ℕ, String, Int64}
use draftea_payment.Events.Types.{TxnId}

pub record PaymentRequest : Type 0 where
  pub user_id : ℕ
  pub amount : Int64
  pub currency : String
  pub service_id : String
  pub description : String

pub data PaymentStatus : Type 0 where
  pending processing completed failed cancelled : PaymentStatus

pub record Payment : Type 0 where
  pub id : ℕ
  pub user_id : ℕ
  pub amount : Int64
  pub currency : String
  pub service_id : String
  pub description : String
  pub status : PaymentStatus
  pub gateway_txn_id : TxnId
  pub created_at : ℕ
  pub updated_at : ℕ
  pub correlation_id : ℕ
