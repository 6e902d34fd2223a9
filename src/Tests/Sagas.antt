-- ===== src/Tests/Sagas.antt =====
-- Examples for the orchestrator: a payment saga whose gateway step fails at every attempt.
use draftea_payment.Prelude.{
  arith, ℕ, ◌+◌, ◌≤◌, ◌≡◌, ◌≢◌, ◌⊎◌, refl, true, none, some, List, [], ◌∷◌, ok, err, get_elem?,
  lookup, Dict,
}
use draftea_payment.Saga.Model.{
  StepStatus, SagaStep, Repository, StepExecutor, Timer, payment_saga, new_step,
}
use draftea_payment.Saga.Orchestrator.{
  Run, start_payment_saga, execute_step, execute_saga, compensate_saga,
}
use draftea_payment.Events.Types.{Metadata}
use draftea_payment.Saga.Sql.{Json, SagaDb, find_row, save_saga, sql}
use draftea_payment.Saga.Stored.{stored_step, start_payment_saga-stored_step}
use draftea_payment.Saga.Outcome.{newest_first, undo_all, compensate_saga_world}
use draftea_payment.Saga.Retries.{execute_step_recorded, answer_at, AllFail}

-- A store that counts the writes, and a world that logs the calls by the number of the step.
abbrev repo : Repository ℕ ℕ
repo = record {
  save_saga = λ saga n. (n + 1, true);
  get_saga = λ id n. (n, none);
  update_saga_state = λ id state n. n + 1;
  update_step_status = λ id step status output error n. n + 1;
  get_pending_sagas = λ n. (n, none);
}

abbrev willing : StepExecutor ℕ (List ℕ)
willing = record {
  execute = λ step w. (step.id ∷ w, ok []);
  compensate = λ step w. ((step.id + 100) ∷ w, none);
}

abbrev failing : StepExecutor ℕ (List ℕ)
failing = record {
  execute = λ step w. (step.id ∷ w, err 9);
  compensate = λ step w. ((step.id + 100) ∷ w, none);
}

abbrev executors : Dict (StepExecutor ℕ (List ℕ))
executors = ("wallet", willing) ∷ ("gateway", failing) ∷ ("payment", willing) ∷ []

abbrev timer : Timer (List ℕ)
timer = record { now = λ w. 0; sleep = λ seconds w. w }

abbrev start : Run ℕ ℕ (List ℕ)
start = record { saga = payment_saga 0 0 40 7 300 "USD"; store = 0; world = [] }

-- The saga with its wallet steps done, at the step of the gateway.
abbrev at_gateway : Run ℕ ℕ (List ℕ)
at_gateway = record start {
  saga = record (start.saga) {
    current_step = 2;
    steps =
        record (new_step 2 "validate_wallet_balance" "wallet" "validate_balance" "" [] 3) {
          status = StepStatus.completed;
        }
        ∷ record (new_step 3 "deduct_wallet_balance" "wallet" "deduct_balance" "refund_balance" []
            3) { status = StepStatus.completed }
        ∷ new_step 4 "process_gateway_payment" "gateway" "process_payment" "" [] 2
        ∷ [];
  };
}

abbrev gateway_step : SagaStep ℕ
gateway_step = new_step 4 "process_gateway_payment" "gateway" "process_payment" "" [] 2

compensate_saga_world_example :
    (compensate_saga repo executors timer at_gateway).world
    ≡ undo_all repo executors timer (newest_first repo executors timer 2 at_gateway.saga.steps) []
compensate_saga_world_example = compensate_saga_world repo executors timer at_gateway

execute_step_recorded_example :
    let (r', failure) = execute_step repo executors timer gateway_step at_gateway in
    let running = record gateway_step { status = StepStatus.executing; executed_at = some 0 } in
    (step' : SagaStep ℕ) × (get_elem? r'.saga.steps 2 ≡ some step')
    × (((failure ≡ none)
          × (step'.status ≡ StepStatus.completed)
          × (step'.retry_count ≤ 2)
          × ((o : Metadata) × (step'.output ≡ some o)
              × (answer_at repo executors timer failing running [] step'.retry_count ≡ ok o))
          × AllFail repo executors timer failing running [] step'.retry_count)
        ⊎ ((failure ≢ none)
            × (step'.status ≡ StepStatus.failed)
            × (step'.retry_count ≡ 3)
            × AllFail repo executors timer failing running [] 3))
unfolding lookup
execute_step_recorded_example =
    execute_step_recorded repo executors timer at_gateway gateway_step failing refl refl
      (omega arith)

-- JSON texts that keep what they encode.
abbrev json : Json ℕ (List (SagaStep ℕ) × Metadata)
json = record {
  marshal_steps = λ steps. (steps, []);
  unmarshal_steps = λ t. t.0;
  marshal_context = λ context. ([], context);
  unmarshal_context = λ t. t.1;
}

abbrev table : SagaDb (List (SagaStep ℕ) × Metadata)
table = record { sagas = []; clock = 4; faults = [] }

abbrev saved : Run ℕ (SagaDb (List (SagaStep ℕ) × Metadata)) (List ℕ)
saved = record {
  saga = payment_saga 0 0 40 7 300 "USD";
  store = (save_saga json (payment_saga 0 0 40 7 300 "USD") table).0;
  world = [];
}

start_payment_saga-stored_step_example :
    (stored_step json 0 saved.store ≡ some 0)
    × (stored_step json 0 (execute_saga (sql json) executors timer saved).store ≡ some 0)
unfolding start_payment_saga save_saga find_row
start_payment_saga-stored_step_example =
    start_payment_saga-stored_step json executors timer 0 40 7 300 "USD" table [] saved refl refl
