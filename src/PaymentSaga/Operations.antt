-- ===== src/PaymentSaga/Operations.antt =====
-- pkg/eventstore/payment_saga.go: PaymentSagaOrchestrator, over the in-memory event store. The
-- encoding of the event data, the uuids and the clock's readings are inputs.
use Prim.Native.String.{◌++◌ as text_append}
use draftea_payment.Prelude.{ℕ, String, Option, none, some, CtxError, Result, ok, err}
use draftea_payment.EventStore.Event.{new_event}
use draftea_payment.EventStore.Memory.{Store, StoreError, append_event}

-- What the maps that are encoded hold, besides the saga's id.
pub data SagaEvent (V : Type 0) : Type 0 where
  saga_started : String → String → SagaEvent V
  step_added : String → String → V → String → ℕ → SagaEvent V
  step_completed step_compensated : String → ℕ → SagaEvent V
  step_failed : String → ℕ → String → SagaEvent V
  saga_completed : ℕ → SagaEvent V
  saga_failed : ℕ → String → SagaEvent V

-- PaymentSaga, but for the fields that nothing here writes. An absent uuid is the zero one.
pub record PaymentSaga : Type 0 where
  pub id : String
  pub saga_id : Option String
  pub payment_id : String
  pub user_id : String
  pub status : String
  pub created_at : ℕ
  pub updated_at : ℕ

-- One call's inputs: its context, its reading of the clock, the uuid of its event, the encodings.
pub record SagaCall (D V : Type 0) : Type 0 where
  pub ctx : Option CtxError
  pub now : ℕ
  pub event_id : String
  pub encode : String → SagaEvent V → Option D
  pub event_metadata : Option D

pub data SagaError : Type 0 where
  event_not_created : SagaError
  event_not_stored : StoreError → SagaError

module _ {D V : Type 0} (c : SagaCall D V) where
  -- What every operation does: NewEvent and AppendEvent.
  unfoldable pub append_saga_event :
      String → String → SagaEvent V → String → Store D → Store D × Option SagaError
  append_saga_event id kind data_of caused_by s =
      elim (new_event c.event_id c.now (c.encode id data_of) c.event_metadata id "PaymentSaga" kind
        caused_by (text_append "saga-" id)) [
          | none ↦ (s, some event_not_created)
          | some e ↦
              let (s', _, failure) = append_event c.ctx c.now e s in
              (s', elim failure [ none ↦ none | some x ↦ some (event_not_stored x) ])
        ]

  -- StartPaymentSaga, for the uuid of the new saga. Its `SagaID` stays the zero uuid.
  unfoldable pub start_payment_saga :
      String → String → String → Store D → Store D × Result SagaError PaymentSaga
  start_payment_saga id payment user s =
      let (s', failure) = append_saga_event id "SagaStarted" (saga_started payment user) user s in
      (
        s',
        elim failure [
          | some x ↦ err x
          | none ↦ ok (record {
            id = id;
            saga_id = none;
            payment_id = payment;
            user_id = user;
            status = "started";
            created_at = c.now;
            updated_at = c.now;
          })
        ],
      )

  -- AddStep, for the uuid of the new step.
  unfoldable pub add_step : String → String → String → V → Store D → Store D × Option SagaError
  add_step id step name v s =
      append_saga_event id "StepAdded" (step_added step name v "pending" c.now) "" s

  -- CompleteStep
  unfoldable pub complete_step : String → String → Store D → Store D × Option SagaError
  complete_step id step s = append_saga_event id "StepCompleted" (step_completed step c.now) "" s

  -- FailStep
  unfoldable pub fail_step : String → String → String → Store D → Store D × Option SagaError
  fail_step id step message s =
      append_saga_event id "StepFailed" (step_failed step c.now message) "" s

  -- CompensateStep
  unfoldable pub compensate_step : String → String → Store D → Store D × Option SagaError
  compensate_step id step s =
      append_saga_event id "StepCompensated" (step_compensated step c.now) "" s

  -- CompleteSaga
  unfoldable pub complete_saga : String → Store D → Store D × Option SagaError
  complete_saga id s = append_saga_event id "SagaCompleted" (saga_completed c.now) "" s

  -- FailSaga
  unfoldable pub fail_saga : String → String → Store D → Store D × Option SagaError
  fail_saga id message s = append_saga_event id "SagaFailed" (saga_failed c.now message) "" s

-- GetSaga does not read the store.
abbrev pub get_saga_stub : String → ℕ → PaymentSaga
get_saga_stub id now = record {
  id = id;
  saga_id = none;
  payment_id = "";
  user_id = "";
  status = "unknown";
  created_at = now;
  updated_at = now;
}
