-- ===== src/Saga/Model.antt =====
-- internal/saga/orchestrator.go: sagas, their steps, and the interfaces of the orchestrator.
use draftea_payment.Prelude.{ℕ, ◌+◌, String, Int64, Bool, Option, none, List, [], ◌∷◌, Result}
use draftea_payment.Events.Types.{Metadata, text, int, uid}

pub data SagaState : Type 0 where
  started in_progress completed failed compensated : SagaState

pub data StepStatus : Type 0 where
  pending executing completed failed compensated : StepStatus

-- `E` stands for the errors of the executors. A nil map or time is `none`.
pub record SagaStep (E : Type 0) : Type 0 where
  pub id : ℕ
  pub name : String
  pub service_name : String
  pub action : String
  pub compensate_action : String
  pub status : StepStatus
  pub input : Metadata
  pub output : Option Metadata
  pub error : Option E
  pub executed_at : Option ℕ
  pub compensated_at : Option ℕ
  pub retry_count : Int64
  pub max_retries : Int64

pub record Saga (E : Type 0) : Type 0 where
  pub id : ℕ
  pub saga_type : String
  pub state : SagaState
  pub steps : List (SagaStep E)
  pub current_step : ℕ
  pub context : Metadata
  pub created_at : ℕ
  pub updated_at : ℕ
  pub completed_at : Option ℕ
  pub correlation_id : ℕ
  pub user_id : ℕ

-- The interface Repository, over a store of type `S`. The orchestrator ignores what its updates
-- answer, so that only the store after them is kept; `true` is a nil error.
pub record Repository (E S : Type 0) : Type 0 where
  pub save_saga : Saga E → S → S × Bool
  pub get_saga : ℕ → S → S × Option (Saga E)
  pub update_saga_state : ℕ → SagaState → S → S
  pub update_step_status : ℕ → ℕ → StepStatus → Option Metadata → Option E → S → S
  pub get_pending_sagas : S → S × Option (List (Saga E))

-- The interface StepExecutor. An executor acts on a world of type `W`, which the services share.
pub record StepExecutor (E W : Type 0) : Type 0 where
  pub execute : SagaStep E → W → W × Result E Metadata
  pub compensate : SagaStep E → W → W × Option E

-- The clock, and the wait of a number of seconds before a retry.
pub record Timer (W : Type 0) : Type 0 where
  pub now : W → ℕ
  pub sleep : ℕ → W → W

abbrev pub new_step :
    {E : Type 0} → ℕ → String → String → String → String → Metadata → ℕ → SagaStep E
new_step id name service action undo input retries = record {
  id = id;
  name = name;
  service_name = service;
  action = action;
  compensate_action = undo;
  status = StepStatus.pending;
  input = input;
  output = none;
  error = none;
  executed_at = none;
  compensated_at = none;
  retry_count = 0;
  max_retries = retries;
}

-- The saga that StartPaymentSaga makes; its uuids are counted on from `u`.
unfoldable pub payment_saga : {E : Type 0} → ℕ → ℕ → ℕ → ℕ → Int64 → String → Saga E
payment_saga u now payment user amount currency = record {
  id = u;
  saga_type = "payment";
  state = SagaState.started;
  steps =
      new_step (u + 2) "validate_wallet_balance" "wallet" "validate_balance" ""
        (("user_id", uid user) ∷ ("amount", int amount) ∷ ("currency", text currency) ∷ []) 3
      ∷ new_step (u + 3) "deduct_wallet_balance" "wallet" "deduct_balance" "refund_balance"
          (("user_id", uid user)
            ∷ ("amount", int amount)
            ∷ ("currency", text currency)
            ∷ ("payment_id", uid payment)
            ∷ [])
          3
      ∷ new_step (u + 4) "process_gateway_payment" "gateway" "process_payment" ""
          (("payment_id", uid payment)
            ∷ ("amount", int amount)
            ∷ ("currency", text currency)
            ∷ ("user_id", uid user)
            ∷ [])
          2
      ∷ new_step (u + 5) "update_payment_status" "payment" "update_status" "mark_failed"
          (("payment_id", uid payment) ∷ ("status", text "completed") ∷ []) 3
      ∷ [];
  current_step = 0;
  context =
      ("payment_id", uid payment)
      ∷ ("user_id", uid user)
      ∷ ("amount", int amount)
      ∷ ("currency", text currency)
      ∷ [];
  created_at = now;
  updated_at = now;
  completed_at = none;
  correlation_id = u + 1;
  user_id = user;
}
