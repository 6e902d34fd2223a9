-- ===== src/Recovery/DeadLetters.antt =====
-- pkg/eventstore/error_handling.go: DeadLetterQueue. Its storage is a parameter, and the clock's
-- readings are inputs; the mutex makes each call one step.
use draftea_payment.Prelude.{
  ℕ, String, Int64, Option, none, some, List, [], ◌∷◌, ◌++◌, if◌then◌else◌, str_eq, length, lt64,
  ◌||◌, not, drop, take,
}
use draftea_payment.EventStore.Event.{Event}
use draftea_payment.Recovery.Substring.{Text}

pub record FailedEvent (D : Type 0) : Type 0 where
  pub original_event : Event D
  pub failure_reason : String
  pub failure_count : Int64
  pub first_failed_at : ℕ
  pub last_failed_at : ℕ
  pub last_error : Text
  pub dlq_timestamp : ℕ
  pub correlation_id : String
  pub aggregate_id : String
  pub event_type : String

-- DLQStorage, on a state `S`.
pub record DlqStorage (D S E : Type 0) : Type 0 where
  pub store : FailedEvent D → S → S × Option E
  pub remove : String → S → S × Option E

pub record DeadLetterQueue (D S : Type 0) : Type 0 where
  pub events : List (FailedEvent D)
  pub storage : S
  pub max_size : Int64

pub data DlqError (E : Type 0) : Type 0 where
  not_stored not_persisted not_retried : E → DlqError E
  not_found : String → DlqError E

-- What a call does: it panics, or it returns.
pub data Outcome (A : Type 0) : Type 0 where
  panicked : Outcome A
  returned : A → Outcome A

-- The write of a repeated failure to the event's entry.
abbrev pub fail_again : {D : Type 0} → Int64 → ℕ → Text → FailedEvent D → FailedEvent D
fail_again count now error_text f = record f {
  failure_count = count;
  last_failed_at = now;
  last_error = error_text;
}

-- The loop of SendToDLQ: the first entry of the event, changed, and the entries with it.
unfoldable pub update_failed :
    {D : Type 0}
    → String
    → (FailedEvent D → FailedEvent D)
    → List (FailedEvent D)
    → Option (FailedEvent D × List (FailedEvent D))
update_failed id change [] = none
update_failed id change (f ∷ fs) =
    let later = update_failed id change fs in
    if str_eq f.original_event.id id
    then some (change f, change f ∷ fs)
    else elim later [ none ↦ none | some (f', fs') ↦ some (f', f ∷ fs') ]

-- The append of SendToDLQ, within the limit.
unfoldable pub push_failed :
    {D : Type 0} → Int64 → FailedEvent D → List (FailedEvent D) → List (FailedEvent D)
push_failed max_size f fs =
    let grown = fs ++ f ∷ [] in if lt64 max_size (length grown) then drop 1 grown else grown

-- The entry of RetryFromDLQ's loop, and the entries without it.
unfoldable pub take_failed :
    {D : Type 0} → String → List (FailedEvent D) → Option (FailedEvent D × List (FailedEvent D))
take_failed id [] = none
take_failed id (f ∷ fs) =
    let later = take_failed id fs in
    if str_eq f.original_event.id id
    then some (f, fs)
    else elim later [ none ↦ none | some (f', fs') ↦ some (f', f ∷ fs') ]

-- GetFailedEvents
unfoldable pub get_failed_events :
    {D S : Type 0} → Int64 → DeadLetterQueue D S → List (FailedEvent D)
get_failed_events limit q =
    let n = length q.events in
    let limit' = if not (lt64 0 limit) || lt64 n limit then n else limit in take limit' q.events

module _ {D S E : Type 0} (env : DlqStorage D S E) where
  abbrev pub failed_event : (ℕ → ℕ) → Event D → String → Text → Int64 → FailedEvent D
  failed_event clock e reason error_text count = record {
    original_event = e;
    failure_reason = reason;
    failure_count = count;
    first_failed_at = clock 0;
    last_failed_at = clock 1;
    last_error = error_text;
    dlq_timestamp = clock 2;
    correlation_id = e.correlation_id;
    aggregate_id = e.aggregate_id;
    event_type = e.event_type;
  }

  -- SendToDLQ. `lastError.Error()` on a nil error panics, before anything is changed.
  unfoldable pub send_to_dlq :
      (ℕ → ℕ)
      → Event D
      → String
      → Option Text
      → Int64
      → DeadLetterQueue D S
      → Outcome (DeadLetterQueue D S × Option (DlqError E))
  send_to_dlq clock e reason none count q = panicked
  send_to_dlq clock e reason (some error_text) count q =
      let f = failed_event clock e reason error_text count in
      let (s, stored) = env.store f q.storage in
      elim (update_failed e.id (fail_again count (clock 3) error_text) q.events) [
        | some (f', fs) ↦
            let (s', stored') = env.store f' q.storage in
            returned (
              record q { events = fs; storage = s' },
              elim stored' [ none ↦ none | some x ↦ some (not_stored x) ],
            )
        | none ↦ returned (
          record q { events = push_failed q.max_size f q.events; storage = s },
          elim stored [ none ↦ none | some x ↦ some (not_persisted x) ],
        )
      ]

  -- RetryFromDLQ, with a processor on a state `P`. A failed removal from the storage is only logged.
  unfoldable pub retry_from_dlq :
      {P : Type 0}
      → String
      → (Event D → P → P × Option E)
      → DeadLetterQueue D S
      → P
      → DeadLetterQueue D S × P × Option (DlqError E)
  retry_from_dlq id processor q p = elim (take_failed id q.events) [
    | none ↦ (q, p, some (not_found id))
    | some (f, fs) ↦
        let (p', failure) = processor f.original_event p in
        elim failure [
          | some x ↦ (q, p', some (not_retried x))
          | none ↦ (record q { events = fs; storage = (env.remove id q.storage).0 }, p', none)
        ]
  ]
