-- ===== src/Saga/Orchestrator.antt =====
-- internal/saga/orchestrator.go: running a saga, compensating it and recovering after a restart. The
-- goroutines of the source get context.Background(), which is never done, so that the waits before
-- the retries always run to their end.
use draftea_payment.Prelude.{
  ℕ, zero, suc, ◌+◌, ◌*◌, String, Int64, Bool, true, false, not, ◌&&◌, Option, none, some, List, [],
  ◌∷◌, Result, ok, err, if◌then◌else◌, Dict, lookup, insert, get_elem?, set, drop, str_eq, add64,
  lt64,
}
use draftea_payment.Events.Types.{Metadata}
use draftea_payment.Saga.Model.{
  SagaState, StepStatus, SagaStep, Saga, Repository, StepExecutor, Timer, payment_saga,
}

-- `nil_last_error` is the panic of executeStep where a negative MaxRetries lets no attempt run.
pub data StepError (E : Type 0) : Type 0 where
  no_executor : String → StepError E
  exhausted : Int64 → E → StepError E
  nil_last_error : StepError E

-- A saga in the making: the saga in memory, the repository's store and the world.
pub record Run (E S W : Type 0) : Type 0 where
  pub saga : Saga E
  pub store : S
  pub world : W

-- RegisterStepExecutor
abbrev pub register_step_executor :
    {E W : Type 0} → String → StepExecutor E W → Dict (StepExecutor E W) → Dict (StepExecutor E W)
register_step_executor service ex executors = insert service ex executors

abbrev pub is_completed : StepStatus → Bool
is_completed StepStatus.completed = true
is_completed _ = false

module _ {E S W : Type 0} (repo : Repository E S) (executors : Dict (StepExecutor E W))
    (timer : Timer W) where
  -- `saga.Steps[i]` is a pointer: a write to the step is a write to the saga.
  abbrev pub write_step : SagaStep E → Run E S W → Run E S W
  write_step step r = record r {
    saga = record (r.saga) { steps = set r.saga.steps r.saga.current_step step };
  }

  abbrev pub note_step :
      SagaStep E → StepStatus → Option Metadata → Option E → Run E S W → Run E S W
  note_step step status output error r = record r {
    store = repo.update_step_status r.saga.id step.id status output error r.store;
  }

  abbrev pub note_state : SagaState → Run E S W → Run E S W
  note_state state r = record r {
    saga = record (r.saga) { state = state };
    store = repo.update_saga_state r.saga.id state r.store;
  }

  -- The loop over the attempts, with the retries that are left: the world, the retry count and what
  -- the last attempt gave.
  unfoldable pub attempts : StepExecutor E W → SagaStep E → ℕ → ℕ → W → W × ℕ × Result E Metadata
  attempts ex step zero attempt w =
      let (w', out) = ex.execute step w in
      elim out [ ok o ↦ (w', attempt, ok o) | err x ↦ (w', attempt + 1, err x) ]
  attempts ex step (suc left) attempt w =
      let (w', out) = ex.execute step w in
      elim out [
        | ok o ↦ (w', attempt, ok o)
        | err x ↦
            attempts ex (record step { retry_count = attempt + 1 }) left (attempt + 1)
              (timer.sleep ((attempt + 1) * (attempt + 1)) w')
      ]

  -- executeStep, with the executor that was found. The loop counts its attempts in an int; for the
  -- largest one as MaxRetries it would not end, and stops here after 2 ^ 63 attempts.
  unfoldable pub execute_with :
      StepExecutor E W → SagaStep E → Run E S W → Run E S W × Option (StepError E)
  execute_with ex step r =
      let running = record step {
        status = StepStatus.executing;
        executed_at = some (timer.now r.world);
      } in
      let r' = note_step step StepStatus.executing none none (write_step running r) in
      let (w, count, out) = attempts ex running step.max_retries 0 r.world in
      let r'' = record r' { world = w } in
      let untried = record running { status = StepStatus.failed } in
      let tried : Run E S W × Option (StepError E) = elim out [
        | ok o ↦
            let done = record running {
              status = StepStatus.completed;
              output = some o;
              retry_count = count;
            } in
            (note_step step StepStatus.completed (some o) none (write_step done r''), none)
        | err x ↦
            let broken = record running {
              status = StepStatus.failed;
              error = some x;
              retry_count = count;
            } in
            (
              note_step step StepStatus.failed none (some x) (write_step broken r''),
              some (exhausted (add64 step.max_retries 1) x),
            )
      ] in
      if lt64 step.max_retries 0 then (write_step untried r', some nil_last_error) else tried

  -- executeStep
  unfoldable pub execute_step : SagaStep E → Run E S W → Run E S W × Option (StepError E)
  execute_step step r = elim (lookup step.service_name executors) [
    | none ↦ (r, some (no_executor step.service_name))
    | some ex ↦ execute_with ex step r
  ]

  -- The body of compensateSaga's loop, at the step with index `i`.
  unfoldable pub compensate_step : ℕ → Run E S W → Run E S W
  compensate_step i r = elim (get_elem? r.saga.steps i) [
    | none ↦ r
    | some step ↦
        let undo : Run E S W = elim (lookup step.service_name executors) [
          | none ↦ r
          | some ex ↦
              let (w, failure) = ex.compensate step r.world in
              let undone = record step {
                status = StepStatus.compensated;
                compensated_at = some (timer.now w);
              } in
              elim failure [
                | some x ↦ record r { world = w }
                | none ↦ record r {
                  saga = record (r.saga) { steps = set r.saga.steps i undone };
                  store =
                      repo.update_step_status r.saga.id step.id StepStatus.compensated none none
                        r.store;
                  world = w;
                }
              ]
        ] in
        if is_completed step.status && not (str_eq step.compensate_action "") then undo else r
  ]

  -- The steps below index `n`, from the last to the first.
  unfoldable pub compensate_below : ℕ → Run E S W → Run E S W
  compensate_below zero r = r
  compensate_below (suc n) r = compensate_below n (compensate_step n r)

  -- compensateSaga
  unfoldable pub compensate_saga : Run E S W → Run E S W
  compensate_saga r =
      note_state SagaState.compensated
        (compensate_below r.saga.current_step (note_state SagaState.failed r))

  -- The end of executeSaga.
  unfoldable pub finish_saga : Run E S W → Run E S W
  finish_saga r =
      let now = timer.now r.world in
      record r {
        saga = record (r.saga) {
          state = SagaState.completed;
          completed_at = some now;
          updated_at = now;
        };
        store = repo.update_saga_state r.saga.id SagaState.completed r.store;
      }

  -- After a step that failed, executeSaga compensates the saga; a panic leaves it as it stands.
  abbrev pub after_failure : StepError E → Run E S W → Run E S W
  after_failure nil_last_error r = r
  after_failure (no_executor service) r = compensate_saga r
  after_failure (exhausted n x) r = compensate_saga r

  -- The loop of executeSaga over the steps from the current one on.
  unfoldable pub execute_steps : List (SagaStep E) → Run E S W → Run E S W
  execute_steps [] r = finish_saga r
  execute_steps (step ∷ rest) r =
      let (r', failure) = execute_step step r in
      let later =
        execute_steps rest
          (record r' { saga = record (r'.saga) { current_step = r'.saga.current_step + 1 } }) in
      elim failure [ some x ↦ after_failure x r' | none ↦ later ]

  -- executeSaga
  unfoldable pub execute_saga : Run E S W → Run E S W
  execute_saga r =
      execute_steps (drop r.saga.current_step r.saga.steps) (note_state SagaState.in_progress r)

  -- StartPaymentSaga: the saga as it is saved, and as the goroutine will run it; `none` where it
  -- could not be saved.
  unfoldable pub start_payment_saga : ℕ → ℕ → ℕ → Int64 → String → S → W → S × Option (Run E S W)
  start_payment_saga u payment user amount currency s w =
      let saga : Saga E = payment_saga u (timer.now w) payment user amount currency in
      let (s', saved) = repo.save_saga saga s in
      if saved then (s', some (record { saga = saga; store = s'; world = w })) else (s', none)

  abbrev recover_saga : SagaState → Run E S W → Run E S W
  recover_saga SagaState.in_progress r = execute_saga r
  recover_saga SagaState.failed r = compensate_saga r
  recover_saga _ r = r

  abbrev recover_all : List (Saga E) → S → W → S × W
  recover_all [] s w = (s, w)
  recover_all (saga ∷ sagas) s w =
      let r = recover_saga saga.state (record { saga = saga; store = s; world = w }) in
      recover_all sagas r.store r.world

  -- RecoverPendingSagas, with the goroutines that it starts run one after the other.
  unfoldable pub recover_pending_sagas : S → W → S × W × Bool
  recover_pending_sagas s w =
      let (s', pending) = repo.get_pending_sagas s in
      elim pending [
        | none ↦ (s', w, false)
        | some sagas ↦ let (s'', w') = recover_all sagas s' w in (s'', w', true)
      ]
