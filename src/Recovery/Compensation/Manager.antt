-- ===== src/Recovery/Compensation/Manager.antt =====
-- The methods of CompensationManager.
use draftea_payment.Prelude.{
  ℕ, suc, ◌+◌, String, Option, none, some, List, [], ◌∷◌, lookup, insert, if◌then◌else◌, str_eq,
  Float,
}
use draftea_payment.EventStore.Event.{Event, new_event}
use draftea_payment.EventStore.Memory.{append_event}
use draftea_payment.Recovery.Substring.{Text}
use draftea_payment.Recovery.Retry.{RetryConfig, RetryWorld, execute_with_retry}
use draftea_payment.Recovery.DeadLetters.{DlqStorage, Outcome, panicked, returned, send_to_dlq}
use draftea_payment.Recovery.Compensation.Plan.{
  SagaView, CompensationStep, CompensationRecord, CompensationManager, CompensationError,
  refund_failed, not_published, event_not_created, event_not_stored, unknown_action, Outside,
  EncodeError, step_not_encoded, build_compensation_steps, put_step,
}

module _ {F D S V B E : Type 0} (fl : Float F) (config : RetryConfig F) (storage : DlqStorage D S E)
    (env : Outside F D V B E) where
  -- updateCompensationStep
  unfoldable pub update_compensation_step :
      String → CompensationStep → CompensationManager D S V B → CompensationManager D S V B
  update_compensation_step id step m = elim (lookup id m.compensations) [
    | none ↦ m
    | some c ↦ record m {
      compensations =
          insert id (record c { compensation_steps = put_step step c.compensation_steps })
            m.compensations;
    }
  ]

  -- updateCompensationStatus, which is called with "completed" and "failed" only.
  unfoldable pub update_compensation_status :
      String → String → CompensationManager D S V B → CompensationManager D S V B
  update_compensation_status id status m = elim (lookup id m.compensations) [
    | none ↦ m
    | some c ↦
        let c' = record c { status = status } in
        let finished = record c' { completed_at = some (env.clock m.ticks) } in
        record m {
          compensations =
              insert id
                (if str_eq status "completed"
                  then finished
                  else if str_eq status "failed"
                  then finished
                  else c')
                m.compensations;
        }
  ]

  -- executeRefundFunds
  unfoldable pub execute_refund_funds :
      SagaView
      → CompensationManager D S V B
      → CompensationManager D S V B × Option (CompensationError E)
  execute_refund_funds saga m =
      let amount = fl.from_int saga.amount in
      let t = m.ticks in
      let (v, refunded) =
        env.refund_funds saga.user_id saga.currency amount saga.payment_id m.wallet in
      let paid = record m { wallet = v; ticks = suc t } in
      elim refunded [
        | some x ↦ (paid, some (refund_failed x))
        | none ↦
            let d = env.encode_reverted (record {
              payment_id = saga.payment_id;
              user_id = saga.user_id;
              amount = amount;
              currency = saga.currency;
              saga_id = saga.saga_id;
              reason = "Payment compensation - external payment failed";
              reverted_at = env.clock t;
            }) in
            elim (new_event (env.uuid t) (env.clock t) d env.event_metadata saga.user_id
              "PaymentSaga" "FundsReverted" saga.user_id saga.saga_id) [
                | none ↦ (paid, some event_not_created)
                | some e ↦
                    let (s, e', stored) = append_event (env.ctx t) (env.clock t) e m.event_store in
                    elim stored [
                      | some x ↦ (record paid { event_store = s }, some (event_not_stored x))
                      | none ↦
                          let (b, published) = env.publish e' m.bus in
                          (
                            record paid { event_store = s; bus = b },
                            elim published [ none ↦ none | some x ↦ some (not_published x) ],
                          )
                    ]
              ]
      ]

  -- executeCancelGatewayPayment only sleeps.
  abbrev execute_cancel_gateway_payment :
      SagaView
      → CompensationManager D S V B
      → CompensationManager D S V B × Option (CompensationError E)
  execute_cancel_gateway_payment saga m = (m, none)

  -- The operation of a step.
  unfoldable pub step_operation :
      SagaView
      → CompensationStep
      → CompensationManager D S V B
      → CompensationManager D S V B × Option (CompensationError E)
  step_operation saga step m =
      if str_eq step.action "refund_funds"
      then execute_refund_funds saga m
      else if str_eq step.action "cancel_gateway_payment"
      then execute_cancel_gateway_payment saga m
      else (m, some (unknown_action step.action))

  abbrev pub step_world :
      SagaView → CompensationStep → RetryWorld (CompensationManager D S V B) (CompensationError E)
  step_world saga step = record {
    operation = λ attempt m. step_operation saga step m;
    error_text = env.attempt_text;
    nanos = λ m. env.clock m.ticks;
    wait = λ delay m. (record m { ticks = suc m.ticks }, env.wait m.ticks delay);
  }

  -- The event that executeCompensationStep makes of a step that failed.
  abbrev compensation_event : SagaView → D → ℕ → Event D
  compensation_event saga d t = record {
    id = env.uuid t;
    aggregate_id = saga.payment_id;
    aggregate_type = "compensation";
    event_type = "CompensationStepFailed";
    aggregate_version = 0;
    sequence_number = 0;
    event_data = d;
    metadata = env.no_metadata;
    created_at = env.clock t;
    caused_by = "";
    correlation_id = saga.saga_id;
  }

  -- executeCompensationStep. Where the step fails, the result of json.Marshal takes the place of its
  -- error: with the data encoded, SendToDLQ is given a nil error, and so is the caller.
  unfoldable pub execute_compensation_step :
      SagaView
      → CompensationStep
      → String
      → CompensationManager D S V B
      → Outcome (CompensationManager D S V B × Option EncodeError)
  execute_compensation_step saga step id m =
      let started = record step { executed_at = env.clock m.ticks } in
      let (m', failure) = execute_with_retry fl config (step_world saga started) m in
      elim failure [
        | none ↦
            returned
              (update_compensation_step id (record started { status = "completed" }) m', none)
        | some x ↦
            let failed_step = record started {
              status = "failed";
              error = some (env.error_text x);
            } in
            elim (env.encode_step failed_step) [
              | none ↦ returned (m', some step_not_encoded)
              | some d ↦
                  elim (send_to_dlq storage (λ i. env.clock (m'.ticks + i))
                    (compensation_event saga d m'.ticks) "compensation_step_failed" none
                    failed_step.retry_count m'.dlq) [
                      | panicked ↦ panicked
                      | returned (q, r) ↦ returned (record m' { dlq = q }, none)
                    ]
            ]
      ]

  -- The loop of CompensatePaymentFailure, and what follows it.
  unfoldable pub run_steps :
      SagaView
      → String
      → List CompensationStep
      → CompensationManager D S V B
      → Outcome (CompensationManager D S V B × Option EncodeError)
  run_steps saga id [] m = returned (update_compensation_status id "completed" m, none)
  run_steps saga id (step ∷ steps) m = elim (execute_compensation_step saga step id m) [
    | panicked ↦ panicked
    | returned (m', none) ↦ run_steps saga id steps m'
    | returned (m', some x) ↦ returned (update_compensation_status id "failed" m', some x)
  ]

  abbrev new_compensation :
      SagaView → String → Text → CompensationManager D S V B → CompensationRecord
  new_compensation saga reason original m = record {
    saga_id = saga.saga_id;
    payment_id = saga.payment_id;
    compensation_steps = [];
    status = "in_progress";
    created_at = env.clock m.ticks;
    completed_at = none;
    compensation_id = env.uuid m.ticks;
    failure_reason = reason;
    original_error = original;
  }

  -- CompensatePaymentFailure: a nil error panics before anything is changed.
  unfoldable pub compensate_payment_failure :
      SagaView
      → String
      → Option Text
      → CompensationManager D S V B
      → Outcome (CompensationManager D S V B × Option EncodeError)
  compensate_payment_failure saga reason none m = panicked
  compensate_payment_failure saga reason (some original) m =
      let id = env.uuid m.ticks in
      run_steps saga id (build_compensation_steps saga) (record m {
        compensations = insert id (new_compensation saga reason original m) m.compensations;
        ticks = suc m.ticks;
      })
