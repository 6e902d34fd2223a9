-- ===== src/Gateway/Service.antt =====
-- internal/services/gateway/service.go: processing a payment. The simulated API of the source draws
-- a number below 100 and a latency; both, the clock and the uuids enter as arguments. What the
-- publisher answers is only logged, so the model keeps the events that it was handed.
use draftea_payment.Prelude.{
  ℕ, ◌+◌, ◌-◌, ◌/◌, String, Int64, Bool, true, Option, none, some, List, [], ◌∷◌, ltb, str_eq,
  if◌then◌else◌, Result, ok, err, CtxError, canceled, deadline_exceeded,
}
use draftea_payment.Events.Types.{
  EventType, DomainEvent, bare, response_received, TxnId, no_txn, gw_txn, text, int, uid, Metadata,
}
use draftea_payment.Payment.Entity.{Payment}
use draftea_payment.Gateway.Breaker.{
  CircuitBreaker, CircuitBreakerState, can_execute, on_success, on_failure, reset, new_breaker,
}

pub record GatewayRequest : Type 0 where
  pub payment_id : ℕ
  pub amount : Int64
  pub currency : String
  pub user_id : ℕ
  pub description : String
  pub metadata : Metadata

pub record GatewayResponse : Type 0 where
  pub transaction_id : TxnId
  pub status : String
  pub response_code : String
  pub message : String
  pub processed_at : ℕ
  pub response_data : Metadata

pub data ApiError : Type 0 where
  context_done : CtxError → ApiError
  unavailable : ApiError

pub data GatewayFailure : Type 0 where
  breaker_open : GatewayFailure
  api_failed : ApiError → GatewayFailure
  rejected : String → GatewayFailure

-- What one call meets: whether its context is done before the latency has passed, the number
-- drawn, the clock before and after the API call, and the first of the uuids of its events.
pub record Encounter : Type 0 where
  pub cancelled : Option CtxError
  pub scenario : ℕ
  pub started : ℕ
  pub finished : ℕ
  pub first_uuid : ℕ

pub record Service : Type 0 where
  pub breaker : CircuitBreaker
  pub provider : String

-- NewService: five failures open the breaker, for sixty seconds.
unfoldable pub new_service : String → Service
unfolding new_breaker
new_service provider = record { breaker = new_breaker 5 60000000000; provider = provider }

-- The `switch` of callGatewayAPI on the number drawn.
abbrev simulate : Encounter → String → GatewayRequest → Result ApiError GatewayResponse
simulate w provider req =
    if ltb w.scenario 85
    then ok (record {
      transaction_id = gw_txn provider (w.finished / 1000000000);
      status = "success";
      response_code = "00";
      message = "Payment processed successfully";
      processed_at = w.finished;
      response_data =
          ("provider", text provider)
          ∷ ("payment_id", uid req.payment_id)
          ∷ ("amount", int req.amount)
          ∷ ("currency", text req.currency)
          ∷ [];
    })
    else if ltb w.scenario 95
    then ok (record {
      transaction_id = no_txn;
      status = "declined";
      response_code = "05";
      message = "Payment declined by issuer";
      processed_at = w.finished;
      response_data = [];
    })
    else err unavailable

-- callGatewayAPI
unfoldable pub call_gateway_api :
    Encounter → String → GatewayRequest → Result ApiError GatewayResponse
call_gateway_api w provider req = elim w.cancelled [
  | some x ↦ err (context_done x)
  | none ↦ simulate w provider req
]

abbrev pub to_request : Payment → GatewayRequest
to_request p = record {
  payment_id = p.id;
  amount = p.amount;
  currency = p.currency;
  user_id = p.user_id;
  description = p.description;
  metadata = ("correlation_id", uid p.correlation_id) ∷ ("service_id", text p.service_id) ∷ [];
}

abbrev pub api_message : ApiError → String
api_message (context_done canceled) = "context canceled"
api_message (context_done deadline_exceeded) = "context deadline exceeded"
api_message unavailable = "gateway service temporarily unavailable"

abbrev pub is_success : GatewayResponse → Bool
is_success r = if str_eq r.status "success" then true else str_eq r.status "completed"

module _ {R : Type 0} where
  -- publishGatewayRequestSent
  unfoldable pub request_sent : Encounter → String → Payment → DomainEvent R
  request_sent w provider p = bare (record {
    id = w.first_uuid;
    event_type = EventType.gateway_request_sent;
    aggregate_id = p.id;
    version = 1;
    timestamp = w.started;
    correlation_id = p.correlation_id;
    metadata =
        ("provider", text provider)
        ∷ ("amount", int p.amount)
        ∷ ("currency", text p.currency)
        ∷ ("user_id", uid p.user_id)
        ∷ [];
  })

  -- publishGatewayResponseReceived
  unfoldable pub response_event : Encounter → Payment → GatewayResponse → DomainEvent R
  response_event w p r = response_received (record {
    base = record {
      id = w.first_uuid + 1;
      event_type = EventType.gateway_response_received;
      aggregate_id = p.id;
      version = 2;
      timestamp = w.finished;
      correlation_id = p.correlation_id;
      metadata = [];
    };
    payment_id = p.id;
    gateway_txn_id = r.transaction_id;
    status = r.status;
    response_code = r.response_code;
    response_data = r.response_data;
    processing_time = w.finished - w.started;
  })

  -- publishGatewayError
  unfoldable pub error_event : Encounter → ℕ → String → Payment → String → String → DomainEvent R
  error_event w now provider p code message = bare (record {
    id = w.first_uuid + 1;
    event_type = EventType.gateway_error;
    aggregate_id = p.id;
    version = 2;
    timestamp = now;
    correlation_id = p.correlation_id;
    metadata =
        ("error_code", text code) ∷ ("message", text message) ∷ ("provider", text provider) ∷ [];
  })

  -- ProcessPayment: the breaker after the call, the events published and the transaction number.
  unfoldable pub process_payment :
      Encounter → Service → Payment → Service × List (DomainEvent R) × Result GatewayFailure TxnId
  process_payment w s p =
      let (cb, allowed) = can_execute w.started s.breaker in
      let answer = call_gateway_api w s.provider (to_request p) in
      let called : Service × List (DomainEvent R) × Result GatewayFailure TxnId = elim answer [
        | err x ↦ (
          record s { breaker = on_failure w.finished cb },
          request_sent w s.provider p
              ∷ error_event w w.finished s.provider p "api_call_failed" (api_message x)
              ∷ [],
          err (api_failed x),
        )
        | ok r ↦ (
          record s { breaker = on_success cb },
          request_sent w s.provider p ∷ response_event w p r ∷ [],
          if is_success r then ok r.transaction_id else err (rejected r.message),
        )
      ] in
      if allowed then called else (
        record s { breaker = cb },
        error_event w w.started s.provider p "circuit_breaker_open" "circuit breaker is open" ∷ [],
        err breaker_open,
      )

-- GetCircuitBreakerState and ResetCircuitBreaker
unfoldable pub get_circuit_breaker_state : Service → CircuitBreakerState
get_circuit_breaker_state s = s.breaker.state

unfoldable pub reset_circuit_breaker : Service → Service
unfolding reset
reset_circuit_breaker s = record s { breaker = reset s.breaker }
