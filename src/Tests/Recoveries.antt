-- ===== src/Tests/Recoveries.antt =====
-- Examples for retries, the dead letter queue and compensation.
use draftea_payment.Prelude.{
  ℕ, suc, ◌+◌, ◌≤◌, ◌<◌, ◌≡◌, ◌≢◌, ◌⊎◌, ◌↔◌, refl, String, Option, none, some, List, [], ◌∷◌, arith,
  true, if◌then◌else◌, ◌==◌, lookup, insert, lookup_or, add64, lt64,
}
use draftea_payment.EventStore.Event.{Event, new_event}
use draftea_payment.EventStore.Memory.{
  new_store, append_event, commit_event, stamp, record_event, notify_subscribers, notify_channels,
  notify_filtered, version_conflicts,
}
use draftea_payment.Tests.Aggregates.{whole}
use draftea_payment.Recovery.Substring.{Occurs, contains, contains_iff}
use draftea_payment.Recovery.Retry.{
  RetryWorld, default_retry_config, timeout, execute_with_retry, retry_attempts,
}
use draftea_payment.Recovery.Rounds.{
  Rounds, Ends, execute_with_retry_iff, execute_with_retry_bounded,
}
use draftea_payment.Recovery.DeadLetters.{
  FailedEvent, DeadLetterQueue, DlqStorage, DlqError, returned, send_to_dlq, take_failed,
  failed_event, retry_from_dlq,
}
use draftea_payment.Recovery.Queue.{Absent, ids}
use draftea_payment.Recovery.Retried.{IsTaken, retry_from_dlq_takes}
use draftea_payment.Recovery.Held.{IsWell, send_to_dlq_held}
use draftea_payment.Recovery.Compensation.{
  SagaView, CompensationRecord, CompensationManager, Outside, EncodeError,
  compensate_payment_failure, build_compensation_steps, build_below, add_compensation, run_steps,
  execute_compensation_step, step_operation, execute_refund_funds, update_compensation_step,
  update_compensation_status, put_step,
}
use draftea_payment.Recovery.Failing.{outcome_or, compensate_payment_failure_completes}

-- "abcab" and "ca"
contains_iff_example :
    (contains (97 ∷ 98 ∷ 99 ∷ 97 ∷ 98 ∷ []) (99 ∷ 97 ∷ []) ≡ true)
    ↔ Occurs (99 ∷ 97 ∷ []) (97 ∷ 98 ∷ 99 ∷ 97 ∷ 98 ∷ [])
contains_iff_example = contains_iff (97 ∷ 98 ∷ 99 ∷ 97 ∷ 98 ∷ []) (99 ∷ 97 ∷ [])

-- An operation that times out twice. Its world counts its runs.
abbrev flaky : RetryWorld ℕ String
flaky = record {
  operation = λ attempt runs. (suc runs, if attempt == 2 then none else some "late");
  error_text = λ e. timeout;
  nanos = λ runs. 0;
  wait = λ delay runs. (runs, none);
}

execute_with_retry_iff_example :
    (execute_with_retry whole (default_retry_config whole) flaky 0 ≡ (3, none)) ↔ (
      (j : ℕ) × (v : ℕ) × (j ≤ 5)
      × Rounds whole (default_retry_config whole) flaky 0 0 j v
      × Ends whole (default_retry_config whole) flaky 5 j v (3, none))
execute_with_retry_iff_example =
    execute_with_retry_iff whole (default_retry_config whole) flaky 0 (3, none) (omega arith)

execute_with_retry_bounded_example :
    (0 < (execute_with_retry whole (default_retry_config whole) flaky 0).0)
    × ((execute_with_retry whole (default_retry_config whole) flaky 0).0 ≤ 0 + 5 + 1)
execute_with_retry_bounded_example =
    execute_with_retry_bounded whole (default_retry_config whole) flaky (λ runs. runs) 0
      (omega arith) (λ i v. refl) (λ t v. refl)

-- A storage that counts its writes, and a queue of one place.
abbrev counting : DlqStorage ℕ ℕ String
counting = record { store = λ f n. (suc n, none); remove = λ id n. (n, none) }

abbrev lost_event : Event ℕ
lost_event = record {
  id = "e1";
  aggregate_id = "a1";
  aggregate_type = "account";
  event_type = "opened";
  aggregate_version = 0;
  sequence_number = 0;
  event_data = 0;
  metadata = 0;
  created_at = 0;
  caused_by = "";
  correlation_id = "";
}

abbrev small_queue : DeadLetterQueue ℕ ℕ
small_queue = record { events = []; storage = 0; max_size = 1 }

small_queue-IsWell : IsWell small_queue
small_queue-IsWell = record { distinct = tt; fits = omega arith; small = omega arith }

send_to_dlq_held_example :
    (q : DeadLetterQueue ℕ ℕ) × (r : Option (DlqError String)) × (send_to_dlq counting
        (λ i. i)
        lost_event
        "late"
        (some timeout)
        3
        small_queue
      ≡ returned (q, r))
    × IsWell q
    × (f : FailedEvent ℕ) × (rest : List (FailedEvent ℕ)) × (take_failed "e1" q.events
        ≡ some (f, rest))
    × (f.failure_count ≡ 3)
    × (f.last_error ≡ timeout)
send_to_dlq_held_example =
    send_to_dlq_held counting (λ i. i) lost_event "late" timeout 3 small_queue small_queue-IsWell
      (omega arith)

-- The queue with that event in it, and a processor that counts its runs and takes every event.
abbrev holding : DeadLetterQueue ℕ ℕ
holding = record small_queue {
  events = failed_event counting (λ i. i) lost_event "late" timeout 3 ∷ [];
}

abbrev taking : Event ℕ → ℕ → ℕ × Option String
taking e n = (suc n, none)

retry_from_dlq_takes_example :
    let (q', p', r) = retry_from_dlq counting "e1" taking holding 0 in
    ((r ≡ none)
      × ((f : FailedEvent ℕ) × IsTaken "e1" holding.events f q'.events
          × (taking f.original_event 0 ≡ (p', none))))
    ⊎ ((r ≢ none)
        × (q' ≡ holding)
        × ((Absent "e1" (ids holding.events) × (p' ≡ 0))
            ⊎ ((f : FailedEvent ℕ) × (gs : List (FailedEvent ℕ)) × (x : String) × IsTaken "e1"
                  holding.events f gs
                × (taking f.original_event 0 ≡ (p', some x)))))
retry_from_dlq_takes_example = retry_from_dlq_takes counting "e1" taking holding 0

-- A saga that has deducted its funds, and a world in which everything succeeds. The wallet counts
-- the refunds, the bus the events.
abbrev saga : SagaView
saga = record {
  saga_id = "s1";
  payment_id = "p1";
  user_id = "u1";
  amount = 30;
  currency = "USD";
  completed_steps = "funds_deducted" ∷ [];
}

abbrev outside : Outside ℕ ℕ ℕ ℕ String
outside = record {
  uuid = λ i. "id";
  clock = λ i. i;
  ctx = λ i. none;
  wait = λ i delay. none;
  refund_funds = λ user currency amount payment refunds. (suc refunds, none);
  publish = λ e published. (suc published, none);
  encode_reverted = λ x. some 1;
  event_metadata = some 0;
  encode_step = λ st. some 2;
  no_metadata = 0;
  error_text = λ x. timeout;
  attempt_text = λ x. timeout;
}

abbrev manager : CompensationManager ℕ ℕ ℕ ℕ
manager = record {
  event_store = new_store;
  bus = 0;
  wallet = 0;
  dlq = small_queue;
  compensations = [];
  ticks = 0;
}

abbrev compensated : CompensationManager ℕ ℕ ℕ ℕ × Option EncodeError
compensated =
    outcome_or (manager, none)
      (compensate_payment_failure whole (default_retry_config whole) counting outside saga "refused"
        (some timeout) manager)

compensate_payment_failure_completes_example :
    (compensated.1 ≡ none)
    × (c : CompensationRecord) × (lookup "id" compensated.0.compensations ≡ some c)
    × (c.status ≡ "completed")
    × (c.completed_at ≢ none)
unfolding compensate_payment_failure build_compensation_steps build_below add_compensation run_steps
    execute_compensation_step step_operation execute_refund_funds execute_with_retry retry_attempts
    update_compensation_step update_compensation_status put_step new_event append_event commit_event
    stamp record_event notify_subscribers notify_channels notify_filtered version_conflicts
    new_store lookup insert lookup_or add64 lt64
compensate_payment_failure_completes_example =
    compensate_payment_failure_completes whole (default_retry_config whole) counting outside
      (λ st. (2, refl)) saga "refused" timeout manager compensated.0 compensated.1 refl
