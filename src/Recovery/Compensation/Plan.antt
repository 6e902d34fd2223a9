-- ===== src/Recovery/Compensation/Plan.antt =====
-- The data of CompensationManager, and the parts of it that only plan or record.
use draftea_payment.Prelude.{
  ℕ, zero, suc, String, Int64, Option, none, some, List, [], ◌∷◌, ◌++◌, Dict, CtxError,
  if◌then◌else◌, str_eq, get_elem?, length,
}
use draftea_payment.EventStore.Event.{Event}
use draftea_payment.EventStore.Memory.{Store, StoreError}
use draftea_payment.Recovery.Substring.{Text}
use draftea_payment.Recovery.Retry.{RetryError}
use draftea_payment.Recovery.DeadLetters.{DeadLetterQueue}

-- The fields of PaymentSaga that compensation reads.
pub record SagaView : Type 0 where
  pub saga_id : String
  pub payment_id : String
  pub user_id : String
  pub amount : Int64
  pub currency : String
  pub completed_steps : List String

pub record CompensationStep : Type 0 where
  pub step_name : String
  pub action : String
  pub status : String
  pub executed_at : ℕ
  pub error : Option Text
  pub retry_count : Int64

-- The fields of `Metadata` are the last three.
pub record CompensationRecord : Type 0 where
  pub saga_id : String
  pub payment_id : String
  pub compensation_steps : List CompensationStep
  pub status : String
  pub created_at : ℕ
  pub completed_at : Option ℕ
  pub compensation_id : String
  pub failure_reason : String
  pub original_error : Text

pub record FundsRevertedData (F : Type 0) : Type 0 where
  pub payment_id : String
  pub user_id : String
  pub amount : F
  pub currency : String
  pub saga_id : String
  pub reason : String
  pub reverted_at : ℕ

-- The manager and what its calls reach. `ticks` counts the readings of the outside world so far.
pub record CompensationManager (D S V B : Type 0) : Type 0 where
  pub event_store : Store D
  pub bus : B
  pub wallet : V
  pub dlq : DeadLetterQueue D S
  pub compensations : Dict CompensationRecord
  pub ticks : ℕ

pub data CompensationError (E : Type 0) : Type 0 where
  refund_failed not_published : E → CompensationError E
  event_not_created : CompensationError E
  event_not_stored : StoreError → CompensationError E
  unknown_action : String → CompensationError E

-- The outside world: the `i`-th uuid, reading of the clock, context and wait; RefundFunds of the
-- wallet service, whose reason is made from the payment's id; Publish of the bus; the encodings.
pub record Outside (F D V B E : Type 0) : Type 0 where
  pub uuid : ℕ → String
  pub clock : ℕ → ℕ
  pub ctx : ℕ → Option CtxError
  pub wait : ℕ → Int64 → Option CtxError
  pub refund_funds : String → String → F → String → V → V × Option E
  pub publish : Event D → B → B × Option E
  pub encode_reverted : FundsRevertedData F → Option D
  pub event_metadata : Option D
  pub encode_step : CompensationStep → Option D
  pub no_metadata : D
  pub error_text : RetryError (CompensationError E) → Text
  pub attempt_text : CompensationError E → Text

pub data EncodeError : Type 0 where
  step_not_encoded : EncodeError

abbrev pub pending_step : String → String → CompensationStep
pending_step name action = record {
  step_name = name;
  action = action;
  status = "pending";
  executed_at = 0;
  error = none;
  retry_count = 0;
}

-- The switch of buildCompensationSteps.
unfoldable pub add_compensation : String → List CompensationStep → List CompensationStep
add_compensation completed steps =
    if str_eq completed "funds_deducted"
    then steps ++ pending_step "revert_funds_deduction" "refund_funds" ∷ []
    else if str_eq completed "external_processing"
    then steps ++ pending_step "cancel_external_payment" "cancel_gateway_payment" ∷ []
    else steps

-- Its loop, for the indices below `i`, downwards.
unfoldable pub build_below : ℕ → List String → List CompensationStep → List CompensationStep
build_below zero completed steps = steps
build_below (suc i) completed steps = elim (get_elem? completed i) [
  | none ↦ steps
  | some c ↦ build_below i completed (add_compensation c steps)
]

-- buildCompensationSteps
unfoldable pub build_compensation_steps : SagaView → List CompensationStep
build_compensation_steps saga = build_below (length saga.completed_steps) saga.completed_steps []

-- The search of updateCompensationStep, with the append that follows it.
unfoldable pub put_step : CompensationStep → List CompensationStep → List CompensationStep
put_step step [] = step ∷ []
put_step step (old ∷ steps) =
    let later = put_step step steps in
    if str_eq old.step_name step.step_name then step ∷ steps else old ∷ later
