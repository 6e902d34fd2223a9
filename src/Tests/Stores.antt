-- ===== src/Tests/Stores.antt =====
-- Examples for the event store: two events of one account, in a new store.
use draftea_payment.Prelude.{
  ℕ, ◌+◌, ◌≤◌, ◌≡◌, ◌↔◌, refl, String, none, some, List, [], ◌∷◌, ◌++◌, ok, arith, length, keep,
  drop, Int64, map, lookup_or, lt64, add64,
}
use draftea_payment.EventStore.Event.{Event, no_filter, matches_filter}
use draftea_payment.EventStore.Memory.{
  Store, Subscriber, conflict, conflict_at, new_store, commit_event, append_event, stamp,
  notify_channels, notify_filtered, append_events, append_batch, assign_versions, version_conflicts,
  record_event, record_events, notify_subscribers, get_events, apply_limit, apply_offset,
  get_events_by_aggregate, subscribe, deliver_backlog,
}
use draftea_payment.EventStore.Log.{of_aggregate, IsConsistent}
use draftea_payment.EventStore.Append.{
  append_event-IsConsistent, append_event_ok-IsNext, IsNext, append_event_race,
}
use draftea_payment.EventStore.Batch.{Stamped, AllOf, content}
use draftea_payment.EventStore.Atomic.{
  append_events_refused, append_events_accepted, append_events-IsConsistent,
}
use draftea_payment.EventStore.Reads.{get_events_by_aggregate_lem, get_events_pages}
use draftea_payment.EventStore.Feed.{deliver, subscriber-record_events, subscribe_duplicates}

-- An event of account a1 that expects the version `v`.
abbrev event : Int64 → Event ℕ
event v = record {
  id = "e";
  aggregate_id = "a1";
  aggregate_type = "account";
  event_type = "opened";
  aggregate_version = v;
  sequence_number = 0;
  event_data = 0;
  metadata = 0;
  created_at = 0;
  caused_by = "";
  correlation_id = "";
}

abbrev empty_store : Store ℕ
empty_store = new_store

empty-IsConsistent : IsConsistent empty_store
unfolding new_store lookup_or
empty-IsConsistent = record {
  is_log = record { ascending = omega arith; indexed = λ agg. refl; numbered = λ agg. tt };
  counted = λ agg. refl;
  bounded = omega arith;
}

-- The store after a first event.
abbrev one : Store ℕ
one = (append_event none 10 (event 1) empty_store).0

one-IsConsistent : IsConsistent one
one-IsConsistent =
    append_event-IsConsistent none 10 (event 1) empty_store empty-IsConsistent
      (unfold new_store in omega arith)

append_event-IsConsistent_example : IsConsistent one
append_event-IsConsistent_example =
    append_event-IsConsistent none 10 (event 1) empty_store empty-IsConsistent
      (unfold new_store in omega arith)

append_event_ok-IsNext_example :
    ((append_event none 10 (event 1) empty_store).2 ≡ none) ↔ IsNext (event 1) empty_store
append_event_ok-IsNext_example =
    append_event_ok-IsNext 10 (event 1) empty_store empty-IsConsistent
      (unfold new_store in omega arith) (omega arith)

append_event_race_example : append_event none 12 (event 1) one ≡ (one, event 1, some (conflict 2 1))
unfolding new_store append_event append_events append_batch assign_versions version_conflicts
    commit_event stamp record_event record_events notify_subscribers notify_channels notify_filtered
    get_events matches_filter lt64 add64 lookup_or apply_limit apply_offset
append_event_race_example =
    append_event_race 10 12 (event 1) (event 1) empty_store empty-IsConsistent
      (unfold new_store in omega arith) (omega arith) (omega arith) refl refl refl (refl)

abbrev clock : ℕ → ℕ
clock i = 20 + i

append_events-IsConsistent_example :
    IsConsistent (append_events none clock (event 0 ∷ event 5 ∷ []) empty_store).0
append_events-IsConsistent_example =
    append_events-IsConsistent none clock (event 0 ∷ event 5 ∷ []) empty_store empty-IsConsistent
      (unfold new_store in omega arith)

append_events_refused_example :
    (k : ℕ) × (k ≤ 2)
    × ((append_events none clock (event 0 ∷ event 5 ∷ []) empty_store).0
        ≡ record empty_store { sequence_counter = empty_store.sequence_counter + k })
unfolding new_store append_event append_events append_batch assign_versions version_conflicts
    commit_event stamp record_event record_events notify_subscribers notify_channels notify_filtered
    get_events matches_filter lt64 add64 lookup_or apply_limit apply_offset
append_events_refused_example =
    append_events_refused none clock (event 0 ∷ event 5 ∷ []) empty_store {x = conflict_at 1 2 5}
      empty-IsConsistent (unfold new_store in omega arith) (refl)

append_events_accepted_example :
    let (s', es', _) = append_events none clock (event 0 ∷ event 2 ∷ []) empty_store in
    (agg : String) × AllOf agg (event 0 ∷ event 2 ∷ [])
    × (s'.events ≡ empty_store.events ++ es')
    × Stamped agg (length (of_aggregate agg empty_store.events)) empty_store.sequence_counter es'
    × (length es' ≡ 2)
    × (s'.sequence_counter ≡ empty_store.sequence_counter + 2)
    × (map content es' ≡ map content (event 0 ∷ event 2 ∷ []))
unfolding new_store append_event append_events append_batch assign_versions version_conflicts
    commit_event stamp record_event record_events notify_subscribers notify_channels notify_filtered
    get_events matches_filter lt64 add64 lookup_or apply_limit apply_offset
append_events_accepted_example =
    append_events_accepted none clock (event 0 ∷ event 2 ∷ []) empty_store empty-IsConsistent
      (unfold new_store in omega arith) (refl)

get_events_by_aggregate_lem_example :
    get_events_by_aggregate none "a1" 2 one ≡ ok (drop 1 (of_aggregate "a1" one.events))
get_events_by_aggregate_lem_example =
    get_events_by_aggregate_lem "a1" 2 one one-IsConsistent (omega arith)

get_events_pages_example :
    (page rest : List (Event ℕ)) × (get_events none
        (record no_filter { offset = some 0; limit = some 1 })
        one
      ≡ ok page)
    × (get_events none (record no_filter { offset = some 1; limit = none }) one ≡ ok rest)
    × (get_events none (record no_filter { offset = some 0; limit = none }) one ≡ ok (page ++ rest))
    × (length page ≤ 1)
get_events_pages_example = get_events_pages no_filter 0 1 one (omega arith) (omega arith)

-- A channel without room in front of the subscriber's own.
abbrev watcher : ℕ → Subscriber ℕ
watcher capacity = record {
  channel = record { id = capacity; capacity = capacity; buffer = [] };
  filter = no_filter;
}

abbrev watched : Store ℕ
watched = record one { event_subscribers = watcher 0 ∷ watcher 100 ∷ [] }

subscriber-record_events_example :
    (before after : List (Subscriber ℕ)) × ((record_events
        (event 2 ∷ event 3 ∷ [])
        watched).event_subscribers
      ≡ before ++ deliver (event 2 ∷ event 3 ∷ []) (watcher 100) ∷ after)
unfolding new_store append_event append_events append_batch assign_versions version_conflicts
    commit_event stamp record_event record_events notify_subscribers notify_channels notify_filtered
    get_events matches_filter lt64 add64 lookup_or apply_limit apply_offset
subscriber-record_events_example =
    subscriber-record_events (event 2 ∷ event 3 ∷ []) (watcher 100) watched (watcher 0 ∷ []) [] refl
      (omega arith)

subscribe_duplicates_example :
    let (s', e', _) = append_event none 10 (event 1) (subscribe none no_filter empty_store).0 in
    let backlog = keep (λ e''. matches_filter e'' no_filter) empty_store.events in
    (s'' : Store ℕ) × (deliver_backlog empty_store.next_channel no_filter s' ≡ some s'')
    × (s''.event_subscribers
        ≡ record {
          channel = record {
            id = empty_store.next_channel;
            capacity = 100;
            buffer = (e' ∷ []) ++ (backlog ++ e' ∷ []);
          };
          filter = no_filter;
        }
          ∷ [])
unfolding new_store append_event append_events append_batch assign_versions version_conflicts
    commit_event stamp record_event record_events notify_subscribers notify_channels notify_filtered
    get_events matches_filter lt64 add64 lookup_or apply_limit apply_offset subscribe
subscribe_duplicates_example =
    subscribe_duplicates no_filter 10 (event 1) empty_store refl refl refl (omega arith) refl refl
