-- ===== src/Tests/Histories.antt =====
-- Examples for the event-sourced saga.
use draftea_payment.Prelude.{
  ℕ, ◌+◌, ◌≡◌, refl, none, some, [], ◌∷◌, lookup, insert, lookup_or, add64, lt64,
}
use draftea_payment.EventStore.Event.{new_event}
use draftea_payment.EventStore.Memory.{
  Store, new_store, append_event, commit_event, stamp, record_event, notify_subscribers,
  notify_channels, notify_filtered, version_conflicts,
}
use draftea_payment.PaymentSaga.Operations.{
  SagaCall, SagaEvent, saga_started, step_added, append_saga_event, start_payment_saga, add_step,
}
use draftea_payment.PaymentSaga.History.{
  starts, adds, entries, perform, none_yet, succeeds, entries-Performed,
}

-- A number in the place of the encoding.
abbrev digest : SagaEvent ℕ → ℕ
digest (saga_started payment user) = 2
digest (step_added step name v status now) = v + now
digest _ = 0

abbrev saga_call : SagaCall ℕ ℕ
saga_call = record {
  ctx = none;
  now = 5;
  event_id = "e";
  encode = λ id x. some (digest x);
  event_metadata = some 0;
}

abbrev no_sagas : Store ℕ
no_sagas = new_store

abbrev started : Store ℕ
started = (perform "s1" saga_call (starts "p1" "u1") no_sagas).0

abbrev stepped : Store ℕ
stepped = (perform "s1" saga_call (adds "t1" "charge" 9) started).0

entries-Performed_example :
    entries "s1" stepped ≡ ("SagaStarted", some 2) ∷ ("StepAdded", some 14) ∷ []
unfolding perform append_saga_event start_payment_saga add_step new_event append_event commit_event
    stamp record_event notify_subscribers notify_channels notify_filtered version_conflicts
    new_store lookup insert lookup_or add64 lt64
entries-Performed_example =
    entries-Performed "s1" no_sagas stepped
      ((saga_call, starts "p1" "u1") ∷ (saga_call, adds "t1" "charge" 9) ∷ [])
      (succeeds no_sagas started ((saga_call, starts "p1" "u1") ∷ []) saga_call
        (adds "t1" "charge" 9)
        (succeeds no_sagas no_sagas [] saga_call (starts "p1" "u1") (none_yet no_sagas) refl) refl)
