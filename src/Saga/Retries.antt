-- ===== src/Saga/Retries.antt =====
-- internal/saga/orchestrator.go: the retries of a step, and what executeStep leaves in the saga.
use draftea_payment.Prelude.{
  ℕ, zero, suc, ◌+◌, ◌*◌, ◌≤◌, ◌≡◌, ◌≢◌, ◌⊎◌, refl, ap, ap₂, subst, none, some, List, [], ◌∷◌,
  Result, ok, err, Dict, lookup, get_elem?, set, arith, Result-cases, inl, inr, lt64, lt64_small,
  half, ◌<◌, ◌∙◌, false,
}
use draftea_payment.Events.Types.{Metadata}
use draftea_payment.Saga.Model.{StepStatus, SagaStep, Repository, StepExecutor, Timer}
use draftea_payment.Saga.Orchestrator.{Run, attempts, execute_with, execute_step}

module _ {E S W : Type 0} (repo : Repository E S) (executors : Dict (StepExecutor E W))
    (timer : Timer W) where
  -- The attempts as they would come one after the other if every one before failed: the step that
  -- attempt `k` is given, the world that it finds, and its answer.
  abbrev count_before : SagaStep E → ℕ → ℕ
  count_before step zero = step.retry_count
  count_before step (suc k) = k + 1

  abbrev pub tried : SagaStep E → ℕ → SagaStep E
  tried step k = record step { retry_count = count_before step k }

  abbrev pub world_at : StepExecutor E W → SagaStep E → W → ℕ → W
  world_at ex step w zero = w
  world_at ex step w (suc k) =
      let (w', out) = ex.execute (tried step k) (world_at ex step w k) in
      timer.sleep ((k + 1) * (k + 1)) w'

  abbrev pub answer_at : StepExecutor E W → SagaStep E → W → ℕ → Result E Metadata
  answer_at ex step w k = (ex.execute (tried step k) (world_at ex step w k)).1

  -- The first `n` attempts fail.
  abbrev pub AllFail : StepExecutor E W → SagaStep E → W → ℕ → Type 0
  AllFail ex step w zero = Unit
  AllFail ex step w (suc k) = AllFail ex step w k × (x : E) × (answer_at ex step w k ≡ err x)

  -- The loop from attempt `a` on, when the attempts before have failed.
  attempts_lem :
      (ex : StepExecutor E W) (step : SagaStep E) (w : W) (left a : ℕ) (s : SagaStep E) (v : W)
      → s ≡ tried step a
      → v ≡ world_at ex step w a
      → AllFail ex step w a
      → let (_, count, out) = attempts repo executors timer ex s left a v in
        ((o : Metadata) × (out ≡ ok o)
          × (count ≤ a + left)
          × (answer_at ex step w count ≡ ok o)
          × AllFail ex step w count)
        ⊎ ((x : E) × (out ≡ err x) × (count ≡ a + left + 1) × AllFail ex step w count)
  unfolding attempts
  attempts_lem ex step w zero a s v same there before = elim (Result-cases (ex.execute s v).1) [
    | inl (o, h) ↦ rw (h, attempts) (inl (o, refl, omega arith, rw (same, there) at h, before))
    | inr (x, h) ↦
        let now : AllFail ex step w (suc a) = (before, x, rw (same, there) at h) in
        rw (h, attempts)
          (inr (x, refl, omega arith, subst (AllFail ex step w) {x = suc a} (omega arith) now))
  ]
  attempts_lem ex step w (suc left) a s v same there before =
      elim (Result-cases (ex.execute s v).1) [
        | inl (o, h) ↦ rw (h, attempts) (inl (o, refl, omega arith, rw (same, there) at h, before))
        | inr (x, h) ↦
            let next : suc a ≡ a + 1 = omega arith in
            let now : AllFail ex step w (suc a) = (before, x, rw (same, there) at h) in
            let v' = timer.sleep ((a + 1) * (a + 1)) (ex.execute s v).0 in
            let s' = record s { retry_count = a + 1 } in
            let same' : s' ≡ tried step (a + 1) =
              subst (λ k. s' ≡ tried step k) next
                (ap (λ (e : SagaStep E). record e { retry_count = a + 1 }) same) in
            let there' : v' ≡ world_at ex step w (a + 1) =
              subst (λ k. v' ≡ world_at ex step w k) next
                (ap₂ (λ e u. timer.sleep ((a + 1) * (a + 1)) (ex.execute e u).0) same there) in
            let later =
              attempts_lem ex step w left (a + 1) s' v' same' there'
                (subst (AllFail ex step w) next now) in
            rw (h, attempts)
              (elim later [
                | inl (o, done, few, first, failed) ↦ inl (o, done, omega arith, first, failed)
                | inr (y, broken, all, failed) ↦ inr (y, broken, omega arith, failed)
              ])
      ]

  get_elem?-set_same :
      (steps : List (SagaStep E)) (i : ℕ) (old new : SagaStep E)
      → get_elem? steps i ≡ some old
      → get_elem? (set steps i new) i ≡ some new
  get_elem?-set_same [] i old new h = ground arith
  get_elem?-set_same (x ∷ xs) zero old new h = refl
  get_elem?-set_same (x ∷ xs) (suc i) old new h = get_elem?-set_same xs i old new h

  -- Executing the current step of a saga, for which an executor is registered and whose number of
  -- retries is not negative, leaves that step in the saga as completed where no error is
  -- returned: its output is the answer of the attempt that its retry count names, at most
  -- `max_retries`, and all attempts before that one failed. Where an error is returned it leaves
  -- the step as failed: all `max_retries` + 1 attempts failed, and the retry count is their
  -- number.
  pub execute_step_recorded :
      (r : Run E S W) (step : SagaStep E) (ex : StepExecutor E W)
      → get_elem? r.saga.steps r.saga.current_step ≡ some step
      → lookup step.service_name executors ≡ some ex
      → step.max_retries < half
      → let (r', failure) = execute_step repo executors timer step r in
        let running = record step {
          status = StepStatus.executing;
          executed_at = some (timer.now r.world);
        } in
        (step' : SagaStep E) × (get_elem? r'.saga.steps r.saga.current_step ≡ some step')
        × (((failure ≡ none)
              × (step'.status ≡ StepStatus.completed)
              × (step'.retry_count ≤ step.max_retries)
              × ((o : Metadata) × (step'.output ≡ some o)
                  × (answer_at ex running r.world step'.retry_count ≡ ok o))
              × AllFail ex running r.world step'.retry_count)
            ⊎ ((failure ≢ none)
                × (step'.status ≡ StepStatus.failed)
                × (step'.retry_count ≡ step.max_retries + 1)
                × AllFail ex running r.world (step.max_retries + 1)))
  unfolding execute_step execute_with
  execute_step_recorded r step ex at found nonneg =
      let i = r.saga.current_step in
      let some_tried : lt64 step.max_retries 0 ≡ false =
        lt64_small step.max_retries 0 nonneg (omega arith) ∙ ground arith in
      let running = record step {
        status = StepStatus.executing;
        executed_at = some (timer.now r.world);
      } in
      let (w, count, out) = attempts repo executors timer ex running step.max_retries 0 r.world in
      let twice = λ (new : SagaStep E).
        get_elem?-set_same (set r.saga.steps i running) i running new
          (get_elem?-set_same r.saga.steps i step running at) in
      elim (attempts_lem ex running r.world step.max_retries 0 running r.world refl refl tt) [
        | inl (o, h, few, first, failed) ↦
            let done = record running {
              status = StepStatus.completed;
              output = some o;
              retry_count = count;
            } in
            let stored = twice done in
            (done, ground arith, inl (ground arith, refl, omega arith, (o, refl, first), failed))
        | inr (x, h, all, failed) ↦
            let broken = record running {
              status = StepStatus.failed;
              error = some x;
              retry_count = count;
            } in
            let stored = twice broken in
            (
              broken,
              ground arith,
              inr (
                ground arith,
                refl,
                omega arith,
                subst (AllFail ex running r.world) (omega arith) failed,
              ),
            )
      ]
