-- ===== src/Saga/Stored.antt =====
-- What a run of a saga leaves in the table of the sagas.
use draftea_payment.Prelude.{
  ℕ, zero, suc, ◌+◌, ◌≡◌, refl, sym, subst, ◌∙◌, String, Int64, Option, none, some, List, [], ◌∷◌,
  Dict, lookup, drop, arith, Option-cases, Bool-cases, lt64, Result-cases, inl, inr, get_elem?,
}
use draftea_payment.Events.Types.{Metadata}
use draftea_payment.Saga.Model.{
  SagaState, StepStatus, SagaStep, Saga, Repository, StepExecutor, Timer, payment_saga,
}
use draftea_payment.Saga.Orchestrator.{
  Run, StepError, nil_last_error, no_executor, exhausted, after_failure, attempts, execute_with,
  execute_step, execute_steps, start_payment_saga, execute_saga, compensate_step, compensate_below,
  compensate_saga, finish_saga, note_state,
}
use draftea_payment.Saga.Roundtrip.{find_row_id, find_row-upsert_row_new}
use draftea_payment.Saga.Sql.{
  Json, SagaRow, SagaDb, find_row, update_row, upsert_row, to_row, from_row, save_saga, get_saga,
  update_saga_state, write_status, update_step_status, sql,
}

-- What neither of the two updates of a repository changes, no run of a saga changes.
module _ {E S W A : Type 0} (repo : Repository E S) (executors : Dict (StepExecutor E W))
    (timer : Timer W) (view : S → A)
    (keeps_state : (id : ℕ) (state : SagaState) (s : S)
      → view (repo.update_saga_state id state s) ≡ view s)
    (keeps_step : (id step : ℕ) (status : StepStatus) (output : Option Metadata) (error : Option E)
        (s : S)
      → view (repo.update_step_status id step status output error s) ≡ view s) where
  view-execute_with :
      (ex : StepExecutor E W) (step : SagaStep E) (r : Run E S W)
      → view (execute_with repo executors timer ex step r).0.store ≡ view r.store
  unfolding execute_with
  view-execute_with ex step r =
      let running = record step {
        status = StepStatus.executing;
        executed_at = some (timer.now r.world);
      } in
      let (w, count, out) = attempts repo executors timer ex running step.max_retries 0 r.world in
      let first = keeps_step r.saga.id step.id StepStatus.executing none none r.store in
      elim (Bool-cases (lt64 step.max_retries 0)) [
        | inl negative ↦ rw (negative, execute_with) first
        | inr counted ↦ elim (Result-cases out) [
          | inl (o, h) ↦
              rw (counted, execute_with, h, execute_with)
                (keeps_step r.saga.id step.id StepStatus.completed (some o) none _ ∙ first)
          | inr (x, h) ↦
              rw (counted, execute_with, h, execute_with)
                (keeps_step r.saga.id step.id StepStatus.failed none (some x) _ ∙ first)
        ]
      ]

  view-execute_step :
      (step : SagaStep E) (r : Run E S W)
      → view (execute_step repo executors timer step r).0.store ≡ view r.store
  unfolding execute_step
  view-execute_step step r = elim (Option-cases (lookup step.service_name executors)) [
    | inl h ↦ rw (h, execute_step)
    | inr (ex, h) ↦ rw (h, execute_step) (view-execute_with ex step r)
  ]

  view-compensate_step :
      (i : ℕ) (r : Run E S W) → view (compensate_step repo executors timer i r).store ≡ view r.store
  unfolding compensate_step
  view-compensate_step i r = elim (Option-cases (get_elem? r.saga.steps i)) [
    | inl h ↦ rw (h, compensate_step)
    | inr (step, h) ↦
        let undone = keeps_step r.saga.id step.id StepStatus.compensated none none r.store in
        ground arith
  ]

  view-compensate_below :
      (n : ℕ) (r : Run E S W)
      → view (compensate_below repo executors timer n r).store ≡ view r.store
  unfolding compensate_below
  view-compensate_below zero r = refl
  view-compensate_below (suc n) r =
      view-compensate_below n (compensate_step repo executors timer n r) ∙ view-compensate_step n r

  view-compensate_saga :
      (r : Run E S W) → view (compensate_saga repo executors timer r).store ≡ view r.store
  unfolding compensate_saga
  view-compensate_saga r =
      keeps_state _ SagaState.compensated
        (compensate_below repo executors timer r.saga.current_step
          (note_state repo executors timer SagaState.failed r)).store
      ∙ view-compensate_below r.saga.current_step
          (note_state repo executors timer SagaState.failed r)
      ∙ keeps_state r.saga.id SagaState.failed r.store

  view-after_failure :
      (x : StepError E) (r : Run E S W)
      → view (after_failure repo executors timer x r).store ≡ view r.store
  view-after_failure nil_last_error r = refl
  view-after_failure (no_executor service) r = view-compensate_saga r
  view-after_failure (exhausted n x) r = view-compensate_saga r

  view-execute_steps :
      (steps : List (SagaStep E)) (r : Run E S W)
      → view (execute_steps repo executors timer steps r).store ≡ view r.store
  unfolding execute_steps finish_saga
  view-execute_steps [] r = keeps_state r.saga.id SagaState.completed r.store
  view-execute_steps (step ∷ rest) r =
      let (r', failure) = execute_step repo executors timer step r in
      let done = view-execute_step step r in
      let later =
        view-execute_steps rest
          (record r' { saga = record (r'.saga) { current_step = r'.saga.current_step + 1 } }) in
      elim (Option-cases failure) [
        | inl h ↦ rw (h, execute_steps) (later ∙ done)
        | inr (x, h) ↦ rw (h, execute_steps) (view-after_failure x r' ∙ done)
      ]

  pub view-execute_saga :
      (r : Run E S W) → view (execute_saga repo executors timer r).store ≡ view r.store
  unfolding execute_saga
  view-execute_saga r =
      view-execute_steps (drop r.saga.current_step r.saga.steps) _
      ∙ keeps_state r.saga.id SagaState.in_progress r.store

module _ {E J : Type 0} (json : Json E J) where
  -- The current step that the table holds for a saga.
  abbrev pub stored_step : ℕ → SagaDb J → Option ℕ
  stored_step id d = elim (find_row id d.sagas) [ none ↦ none | some r ↦ some r.current_step ]

  abbrev step_of : Option (SagaRow J) → Option ℕ
  step_of none = none
  step_of (some r) = some r.current_step

  find_row-update_row :
      (id id' : ℕ) (f : SagaRow J → SagaRow J) (rs : List (SagaRow J))
      → ((r : SagaRow J) → (f r).id ≡ r.id)
      → ((r : SagaRow J) → (f r).current_step ≡ r.current_step)
      → step_of (find_row id (update_row id' f rs)) ≡ step_of (find_row id rs)
  unfolding find_row update_row
  find_row-update_row id id' f [] h k = refl
  find_row-update_row id id' f (r ∷ rs) h k =
      let ih = find_row-update_row id id' f rs h k in
      let same = h r in let step = k r in ground arith

  -- A row whose saga is in the table with the same current step.
  find_row-upsert_row :
      (id : ℕ) (new old : SagaRow J) (rs : List (SagaRow J))
      → find_row new.id rs ≡ some old
      → new.current_step ≡ old.current_step
      → step_of (find_row id (upsert_row new rs)) ≡ step_of (find_row id rs)
  unfolding find_row upsert_row
  find_row-upsert_row id new old [] h k = absurd (cc h)
  find_row-upsert_row id new old (r ∷ rs) h k = ground (arith, find_row-upsert_row id new old rs)

  view-update_saga_state :
      (id : ℕ) (state : SagaState) (id' : ℕ) (d : SagaDb J)
      → stored_step id (update_saga_state json id' state d) ≡ stored_step id d
  unfolding update_saga_state
  view-update_saga_state id state id' d =
      let kept =
        find_row-update_row id id'
          (λ (r : SagaRow J). record r { state = state; updated_at = d.clock }) d.sagas (λ r. refl)
          (λ r. refl) in
      ground arith

  view-update_step_status :
      (id id' step : ℕ) (status : StepStatus) (output : Option Metadata) (error : Option E)
      (d : SagaDb J)
      → stored_step id (update_step_status json id' step status output error d) ≡ stored_step id d
  unfolding update_step_status get_saga save_saga
  view-update_step_status id id' step status output error d =
      elim (Option-cases (find_row id' d.sagas)) [
        | inl h ↦ ground arith
        | inr (old, h) ↦
            let s = from_row json old in
            let own = find_row_id id' old d.sagas h in
            let kept =
              find_row-upsert_row id
                (to_row json
                  (record s { steps = write_status json step status output error s.steps }))
                old d.sagas (subst (λ (n : ℕ). find_row n d.sagas ≡ some old) (sym own) h) refl in
            ground arith
      ]

  module _ {W : Type 0} (executors : Dict (StepExecutor E W)) (timer : Timer W) where
    -- Running a saga over the SQL repository, whatever its executors do and whatever statements
    -- fail, leaves the current step that the table holds for a saga as it was, for every saga.
    pub stored_step-execute_saga :
        (id : ℕ) (r : Run E (SagaDb J) W)
        → stored_step id (execute_saga (sql json) executors timer r).store ≡ stored_step id r.store
    stored_step-execute_saga id r =
        view-execute_saga (sql json) executors timer (stored_step id)
          (λ id' state d. view-update_saga_state id state id' d)
          (λ id' step status output error d.
            view-update_step_status id id' step status output error d)
          r

    -- A payment saga with a new identifier that StartPaymentSaga could save is held in the table at
    -- its first step, also after it has run to its end.
    pub start_payment_saga-stored_step :
        (u payment user : ℕ) (amount : Int64) (currency : String) (d : SagaDb J) (w : W)
        (r : Run E (SagaDb J) W)
        → find_row u d.sagas ≡ none
        → (start_payment_saga (sql json) executors timer u payment user amount currency d w).1
          ≡ some r
        → (stored_step u r.store ≡ some 0)
          × (stored_step u (execute_saga (sql json) executors timer r).store ≡ some 0)
    unfolding start_payment_saga save_saga payment_saga
    start_payment_saga-stored_step u payment user amount currency d w r new started =
        let s : Saga E = payment_saga u (timer.now w) payment user amount currency in
        let saved = find_row-upsert_row_new (to_row json s) d.sagas new in
        let first : stored_step u r.store ≡ some 0 = ground arith in
        (first, stored_step-execute_saga u r ∙ first)
