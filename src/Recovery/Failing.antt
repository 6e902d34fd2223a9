-- ===== src/Recovery/Failing.antt =====
-- How compensation ends: it completes, or it panics.
use draftea_payment.Prelude.{
  ◌≡◌, ◌≢◌, ◌⊎◌, refl, sym, ap, ◌∙◌, String, Option, none, some, List, [], ◌∷◌, arith, Option-cases,
  inl, inr, lookup, lookup-insert_self, Float,
}
use draftea_payment.Recovery.Substring.{Text}
use draftea_payment.Recovery.Retry.{RetryConfig, RetryError, execute_with_retry}
use draftea_payment.Recovery.DeadLetters.{DlqStorage, Outcome, panicked, returned, send_to_dlq}
use draftea_payment.Recovery.Compensation.{
  SagaView, CompensationStep, CompensationRecord, CompensationManager, Outside, EncodeError,
  CompensationError, build_compensation_steps, put_step, update_compensation_step,
  update_compensation_status, execute_refund_funds, step_operation, step_world,
  execute_compensation_step, run_steps, compensate_payment_failure,
}
use draftea_payment.Recovery.Kept.{execute_with_retry_keeps}

Outcome-cases : {A : Type 0} (o : Outcome A) → (o ≡ panicked) ⊎ ((a : A) × (o ≡ returned a))
Outcome-cases panicked = inl refl
Outcome-cases (returned a) = inr (a, refl)

abbrev pub outcome_or : {A : Type 0} → A → Outcome A → A
outcome_or a panicked = a
outcome_or a (returned b) = b

returned-injective : {A : Type 0} {a b : A} → returned a ≡ returned b → a ≡ b
returned-injective {a = a} h = ap (outcome_or a) h

module _ {F D S V B E : Type 0} (fl : Float F) (config : RetryConfig F) (storage : DlqStorage D S E)
    (env : Outside F D V B E) where
  -- A step that fails for good, whatever the reason, panics: SendToDLQ is handed the error of
  -- encoding the step's data, which is nil, in the place of the step's own.
  pub execute_compensation_step_failed :
      (saga : SagaView) (step : CompensationStep) (id : String) (m : CompensationManager D S V B)
      (x : RetryError (CompensationError E)) (d : D)
      → let started = record step { executed_at = env.clock m.ticks } in
        (execute_with_retry fl config (step_world fl config storage env saga started) m).1 ≡ some x
        → env.encode_step (record step {
          executed_at = env.clock m.ticks;
          status = "failed";
          error = some (env.error_text x);
        })
          ≡ some d
        → execute_compensation_step fl config storage env saga step id m ≡ panicked
  unfolding execute_compensation_step send_to_dlq
  execute_compensation_step_failed saga step id m x d failure encoded =
      rw (failure, execute_compensation_step, encoded, execute_compensation_step) refl

  still_compensations :
      (saga : SagaView) (step : CompensationStep) (m : CompensationManager D S V B)
      → (step_operation fl config storage env saga step m).0.compensations ≡ m.compensations
  unfolding step_operation execute_refund_funds
  still_compensations saga step m = ground arith

  -- A step that returns without an error has completed, and has kept the record of the compensation.
  completed_step :
      (encodes : (st : CompensationStep) → (d : D) × (env.encode_step st ≡ some d))
      (saga : SagaView) (step : CompensationStep) (id : String) (m m' : CompensationManager D S V B)
      (r : Option EncodeError) (c : CompensationRecord)
      → lookup id m.compensations ≡ some c
      → execute_compensation_step fl config storage env saga step id m ≡ returned (m', r)
      → (r ≡ none)
        × (st : CompensationStep) × (st.status ≡ "completed")
        × (st.step_name ≡ step.step_name)
        × (lookup id m'.compensations
            ≡ some (record c { compensation_steps = put_step st c.compensation_steps }))
  unfolding execute_compensation_step update_compensation_step
  completed_step encodes saga step id m m' r c known done =
      let started = record step { executed_at = env.clock m.ticks } in
      let world = step_world fl config storage env saga started in
      let (m1, failure) = execute_with_retry fl config world m in
      elim (Option-cases failure) [
        | inr (x, broken) ↦
            let failed_step = record started {
              status = "failed";
              error = some (env.error_text x);
            } in
            let (d, encoded) = encodes failed_step in
            absurd (cc (done, execute_compensation_step_failed saga step id m x d broken encoded))
        | inl fine ↦
            let st = record started { status = "completed" } in
            let kept : m1.compensations ≡ m.compensations =
              execute_with_retry_keeps fl config world (λ v. v.compensations)
                (λ i v. still_compensations saga started v) (λ t v. refl) m in
            let known1 : lookup id m1.compensations ≡ some c = ap (lookup id) kept ∙ known in
            let call : execute_compensation_step fl config storage env saga step id m
                ≡ returned (update_compensation_step fl config storage env id st m1, none) =
              rw (fine, execute_compensation_step) refl in
            let same = returned-injective (sym done ∙ call) in
            (
              ap (λ p. p.1) same,
              st,
              refl,
              refl,
              ap (λ p. lookup id p.0.compensations) same
                  ∙ rw (known1, update_compensation_step)
                      (lookup-insert_self id _ m1.compensations),
            )
      ]

  run_steps_completes :
      (encodes : (st : CompensationStep) → (d : D) × (env.encode_step st ≡ some d))
      (saga : SagaView) (id : String) (steps : List CompensationStep)
      (m m' : CompensationManager D S V B) (r : Option EncodeError) (c : CompensationRecord)
      → lookup id m.compensations ≡ some c
      → run_steps fl config storage env saga id steps m ≡ returned (m', r)
      → (r ≡ none)
        × (c' : CompensationRecord) × (lookup id m'.compensations ≡ some c')
        × (c'.status ≡ "completed")
        × (c'.completed_at ≢ none)
  unfolding run_steps update_compensation_status
  run_steps_completes encodes saga id [] m m' r c known done =
      let same = returned-injective done in
      (
        sym (ap (λ p. p.1) same),
        record c { status = "completed"; completed_at = some (env.clock m.ticks) },
        ap (λ p. lookup id p.0.compensations) (sym same)
            ∙ rw (known, update_compensation_status) (lookup-insert_self id _ m.compensations),
        refl,
        λ h. absurd (cc h),
      )
  run_steps_completes encodes saga id (step ∷ steps) m m' r c known done =
      elim (Outcome-cases (execute_compensation_step fl config storage env saga step id m)) [
        | inl panics ↦ absurd (cc (rw (panics, run_steps) at done))
        | inr ((m1, r1), returns) ↦
            let (fine, st, _, _, known1) =
              completed_step encodes saga step id m m1 r1 c known returns in
            let call : run_steps fl config storage env saga id (step ∷ steps) m
                ≡ run_steps fl config storage env saga id steps m1 =
              rw (returns ∙ ap (λ o. returned (m1, o)) fine, run_steps) refl in
            run_steps_completes encodes saga id steps m1 m' r _ known1 (sym call ∙ done)
      ]

  -- Where the data of every step can be encoded, CompensatePaymentFailure never reports a
  -- failure: when it returns, it returns no error, and its record says that the compensation is
  -- completed, and has a time for it.
  pub compensate_payment_failure_completes :
      (encodes : (st : CompensationStep) → (d : D) × (env.encode_step st ≡ some d))
      (saga : SagaView) (reason : String) (original : Text) (m m' : CompensationManager D S V B)
      (r : Option EncodeError)
      → compensate_payment_failure fl config storage env saga reason (some original) m
        ≡ returned (m', r)
      → (r ≡ none)
        × (c : CompensationRecord) × (lookup (env.uuid m.ticks) m'.compensations ≡ some c)
        × (c.status ≡ "completed")
        × (c.completed_at ≢ none)
  unfolding compensate_payment_failure
  compensate_payment_failure_completes encodes saga reason original m m' r done =
      run_steps_completes encodes saga (env.uuid m.ticks) (build_compensation_steps saga) _ m' r _
        (lookup-insert_self (env.uuid m.ticks) _ m.compensations) done
