-- ===== src/Saga/Outcome.antt =====
-- How a saga ends, and what its compensation does.
use draftea_payment.Prelude.{
  ℕ, zero, suc, ◌+◌, ◌≤◌, ◌<◌, ◌≡◌, ◌⊎◌, ◌≢◌, ◌∙◌, ap, half, All, lt64, lt64_small, false, refl,
  Bool, not, ◌&&◌, none, some, List, [], ◌∷◌, if◌then◌else◌, Dict, lookup, get_elem?, set, drop,
  str_eq, arith, Option-cases, inl, inr,
}
use draftea_payment.Saga.Model.{SagaState, StepStatus, SagaStep, Repository, StepExecutor, Timer}
use draftea_payment.Saga.Orchestrator.{
  Run, StepError, nil_last_error, no_executor, exhausted, after_failure, execute_with, is_completed,
  execute_step, compensate_step, compensate_below, compensate_saga, finish_saga, execute_steps,
  execute_saga, note_state,
}

module _ {E S W : Type 0} (repo : Repository E S) (executors : Dict (StepExecutor E W))
    (timer : Timer W) where
  compensate_saga_state :
      (r : Run E S W) → (compensate_saga repo executors timer r).saga.state ≡ SagaState.compensated
  unfolding compensate_saga
  compensate_saga_state r = refl

  -- A number of retries that is not negative.
  abbrev pub MayTry : SagaStep E → Type 0
  MayTry step = step.max_retries < half

  execute_step_tries :
      (step : SagaStep E) (r : Run E S W)
      → MayTry step
      → (execute_step repo executors timer step r).1 ≢ some nil_last_error
  unfolding execute_step execute_with
  execute_step_tries step r h =
      let counted : lt64 step.max_retries 0 ≡ false =
        lt64_small step.max_retries 0 h (omega arith) ∙ ground arith in
      λ panic. ground arith

  after_failure_state :
      (x : StepError E) (r : Run E S W)
      → x ≢ nil_last_error
      → (after_failure repo executors timer x r).saga.state ≡ SagaState.compensated
  after_failure_state nil_last_error r h = absurd (h refl)
  after_failure_state (no_executor service) r h = compensate_saga_state r
  after_failure_state (exhausted n x) r h = compensate_saga_state r

  MayTry-drop : (i : ℕ) (steps : List (SagaStep E)) → All MayTry steps → All MayTry (drop i steps)
  MayTry-drop zero steps h = h
  MayTry-drop (suc i) [] h = tt
  MayTry-drop (suc i) (step ∷ steps) h = MayTry-drop i steps h.1

  execute_steps_settles :
      (steps : List (SagaStep E)) (r : Run E S W)
      → All MayTry steps
      → let state = (execute_steps repo executors timer steps r).saga.state in
        (state ≡ SagaState.completed) ⊎ (state ≡ SagaState.compensated)
  unfolding execute_steps finish_saga
  execute_steps_settles [] r m = inl refl
  execute_steps_settles (step ∷ rest) r m =
      let (r', failure) = execute_step repo executors timer step r in
      let later =
        execute_steps_settles rest
          (record r' { saga = record (r'.saga) { current_step = r'.saga.current_step + 1 } }) m.1 in
      elim (Option-cases failure) [
        | inl h ↦ ground arith
        | inr (x, h) ↦
            let tried = execute_step_tries step r m.0 in
            let undone = after_failure_state x r' (λ e. tried (h ∙ ap some e)) in
            rw (h, execute_steps) (inr undone)
      ]

  -- A saga that is executed ends completed or compensated: neither in progress nor failed is left
  -- behind, whatever the executors do, if no step has a negative number of retries.
  pub execute_saga_settles :
      (r : Run E S W)
      → All MayTry r.saga.steps
      → let state = (execute_saga repo executors timer r).saga.state in
        (state ≡ SagaState.completed) ⊎ (state ≡ SagaState.compensated)
  unfolding execute_saga
  execute_saga_settles r m =
      execute_steps_settles (drop r.saga.current_step r.saga.steps) _
        (MayTry-drop r.saga.current_step r.saga.steps m)

  -- The first `n` steps, the last of them first.
  abbrev pub newest_first : ℕ → List (SagaStep E) → List (SagaStep E)
  newest_first zero steps = []
  newest_first (suc n) steps = elim (get_elem? steps n) [
    | none ↦ newest_first n steps
    | some step ↦ step ∷ newest_first n steps
  ]

  abbrev pub is_undone : SagaStep E → Bool
  is_undone step = is_completed step.status && not (str_eq step.compensate_action "")

  -- Compensate is called for a completed step that has an action and an executor.
  unfoldable pub undo_step : SagaStep E → W → W
  undo_step step w = elim (lookup step.service_name executors) [
    | none ↦ w
    | some ex ↦ if is_undone step then (ex.compensate step w).0 else w
  ]

  -- The calls of Compensate, one after the other.
  abbrev pub undo_all : List (SagaStep E) → W → W
  undo_all [] w = w
  undo_all (step ∷ steps) w = undo_all steps (undo_step step w)

  get_elem?-set_above :
      (steps : List (SagaStep E)) (i j : ℕ) (step : SagaStep E)
      → i < j
      → get_elem? (set steps j step) i ≡ get_elem? steps i
  get_elem?-set_above [] i j step h = refl
  get_elem?-set_above (x ∷ xs) i zero step h = absurd (omega arith)
  get_elem?-set_above (x ∷ xs) zero (suc j) step h = refl
  get_elem?-set_above (x ∷ xs) (suc i) (suc j) step h =
      get_elem?-set_above xs i j step (omega arith)

  newest_first-set :
      (n j : ℕ) (steps : List (SagaStep E)) (step : SagaStep E)
      → n ≤ j
      → newest_first n (set steps j step) ≡ newest_first n steps
  newest_first-set zero j steps step h = refl
  newest_first-set (suc n) j steps step h =
      let rest = newest_first-set n j steps step (omega arith) in
      let same = get_elem?-set_above steps n j step (omega arith) in ground arith

  compensate_step_steps :
      (n : ℕ) (r : Run E S W)
      → newest_first n (compensate_step repo executors timer n r).saga.steps
        ≡ newest_first n r.saga.steps
  unfolding compensate_step
  compensate_step_steps n r = elim (Option-cases (get_elem? r.saga.steps n)) [
    | inl h ↦ ground arith
    | inr (step, h) ↦ elim (Option-cases (lookup step.service_name executors)) [
      | inl h' ↦ ground arith
      | inr (ex, h') ↦
          let same =
            newest_first-set n n r.saga.steps
              (record step {
                status = StepStatus.compensated;
                compensated_at = some (timer.now (ex.compensate step r.world).0);
              })
              (omega arith) in
          ground arith
    ]
  ]

  compensate_step_world :
      (n : ℕ) (r : Run E S W)
      → (compensate_step repo executors timer n r).world
        ≡ elim (get_elem? r.saga.steps n) [ none ↦ r.world | some step ↦ undo_step step r.world ]
  unfolding compensate_step undo_step
  compensate_step_world n r = ground arith

  world-compensate_below :
      (n : ℕ) (r : Run E S W)
      → (compensate_below repo executors timer n r).world
        ≡ undo_all (newest_first n r.saga.steps) r.world
  unfolding compensate_below
  world-compensate_below zero r = refl
  world-compensate_below (suc n) r =
      let ih = world-compensate_below n (compensate_step repo executors timer n r) in
      let steps = compensate_step_steps n r in
      let world = compensate_step_world n r in
      elim (Option-cases (get_elem? r.saga.steps n)) [
        | inl h ↦ ground arith
        | inr (step, h) ↦ ground arith
      ]

  -- Compensating a saga calls Compensate once for each completed step below the current one that
  -- has a compensating action and an executor, in the opposite order of the steps, and calls nothing
  -- else of the executors. A call that fails is not repeated and does not stop the others.
  pub compensate_saga_world :
      (r : Run E S W)
      → (compensate_saga repo executors timer r).world
        ≡ undo_all (newest_first r.saga.current_step r.saga.steps) r.world
  unfolding compensate_saga
  compensate_saga_world r =
      world-compensate_below r.saga.current_step
        (note_state repo executors timer SagaState.failed r)
