-- ===== src/EventStore/Memory/Query.antt =====
-- The methods of MemoryEventStore that read, and those of its subscriptions.
use draftea_payment.Prelude.{
  ℕ, String, Int64, Bool, not, Option, none, some, List, [], ◌∷◌, ◌++◌, ◌+◌, ltb, leb, ◌==◌,
  if◌then◌else◌, lookup, Result, ok, err, CtxError, length, take, drop, keep, any, lt64,
}
use draftea_payment.EventStore.Event.{Event, EventFilter, Snapshot, matches_filter}
use draftea_payment.EventStore.Memory.Defs.{
  StoreError, ctx_error, store_closed, Chan, Subscriber, Store, try_send,
}

module _ {D : Type 0} where
  -- `result[*filter.Offset:]` and `result[:*filter.Limit]`, where they are set and positive.
  unfoldable pub apply_offset : Option Int64 → List (Event D) → List (Event D)
  apply_offset none es = es
  apply_offset (some k) es = if lt64 0 k then if leb (length es) k then [] else drop k es else es

  unfoldable pub apply_limit : Option Int64 → List (Event D) → List (Event D)
  apply_limit none es = es
  apply_limit (some n) es = if lt64 0 n then if ltb n (length es) then take n es else es else es

  -- GetEvents
  unfoldable pub get_events :
      Option CtxError → EventFilter → Store D → Result StoreError (List (Event D))
  get_events (some x) f s = err (ctx_error x)
  get_events none f s =
      ok (apply_limit f.limit (apply_offset f.offset (keep (λ e. matches_filter e f) s.events)))

  -- GetEventsByAggregate
  unfoldable pub get_events_by_aggregate :
      Option CtxError → String → Int64 → Store D → Result StoreError (List (Event D))
  get_events_by_aggregate (some x) agg from s = err (ctx_error x)
  get_events_by_aggregate none agg from s = elim (lookup agg s.events_by_aggregate) [
    | none ↦ ok []
    | some es ↦ ok (keep (λ e. not (lt64 e.aggregate_version from)) es)
  ]

  -- GetEventsByAggregateType
  unfoldable pub get_events_by_aggregate_type :
      Option CtxError → String → EventFilter → Store D → Result StoreError (List (Event D))
  get_events_by_aggregate_type (some x) agg_type f s = err (ctx_error x)
  get_events_by_aggregate_type none agg_type f s =
      get_events none (record f { aggregate_type = some agg_type }) s

  -- GetLastSequenceNumber
  unfoldable pub get_last_sequence_number : Option CtxError → Store D → Result StoreError Int64
  get_last_sequence_number (some x) s = err (ctx_error x)
  get_last_sequence_number none s = ok s.sequence_counter

  -- GetAggregateVersion
  unfoldable pub get_aggregate_version :
      Option CtxError → String → Store D → Result StoreError Int64
  get_aggregate_version (some x) agg s = err (ctx_error x)
  get_aggregate_version none agg s = elim (lookup agg s.aggregate_versions) [
    | none ↦ ok 0
    | some v ↦ ok v
  ]

  -- GetSnapshot: a missing snapshot is nil, with no error.
  unfoldable pub get_snapshot :
      Option CtxError → String → Store D → Result StoreError (Option (Snapshot D))
  get_snapshot (some x) agg s = err (ctx_error x)
  get_snapshot none agg s = ok (lookup agg s.snapshots)

  -- Subscribe, up to the start of its two goroutines: the identity of the new channel.
  unfoldable pub subscribe : Option CtxError → EventFilter → Store D → Store D × Result StoreError ℕ
  subscribe (some x) f s = (s, err (ctx_error x))
  subscribe none f s =
      let c : Chan D = record { id = s.next_channel; capacity = 100; buffer = [] } in
      let s' = record s {
        event_subscribers = s.event_subscribers ++ record { channel = c; filter = f } ∷ [];
        next_channel = s.next_channel + 1;
      } in
      if s.closed then (s, err store_closed) else (s', ok s.next_channel)

  -- The loop of the first goroutine over the events that it copied, while the context lives: a
  -- full channel skips the event.
  unfoldable pub send_backlog : EventFilter → List (Event D) → Chan D → Chan D
  unfolding try_send
  send_backlog f [] c = c
  send_backlog f (e ∷ es) c =
      let c' : Chan D = elim (try_send e c) [ none ↦ c | some d ↦ d ] in
      send_backlog f es (if matches_filter e f then c' else c)

  abbrev pub on_channel :
      ℕ → (Subscriber D → Subscriber D) → List (Subscriber D) → List (Subscriber D)
  on_channel n g [] = []
  on_channel n g (s ∷ ss) = if s.channel.id == n then g s ∷ ss else s ∷ on_channel n g ss

  abbrev pub registered : ℕ → List (Subscriber D) → Bool
  registered n = any (λ u. u.channel.id == n)

  -- The first goroutine, which is started only where no sequence number is asked for, run at one
  -- go. A send on a channel that was closed in the meantime panics: `none`.
  unfoldable pub deliver_backlog : ℕ → EventFilter → Store D → Option (Store D)
  deliver_backlog n f s =
      let sent =
        on_channel n
          (λ (u : Subscriber D). record u { channel = send_backlog f s.events u.channel })
          s.event_subscribers in
      elim f.from_sequence_number [
        | some _ ↦ some s
        | none ↦
            if registered n s.event_subscribers
            then some (record s { event_subscribers = sent })
            else if any (λ e. matches_filter e f) s.events
            then none
            else some s
      ]

  -- The first subscriber with the channel is taken out, and its channel with it.
  unfoldable pub unregister : ℕ → List (Subscriber D) → List (Subscriber D) × List (Chan D)
  unregister n [] = ([], [])
  unregister n (s ∷ ss) =
      let (stay, gone) = unregister n ss in
      if s.channel.id == n then (ss, s.channel ∷ []) else (s ∷ stay, gone)

  -- The second goroutine, when the context of the subscription is done.
  unfoldable pub cancel_subscription : ℕ → Store D → Store D
  unfolding unregister
  cancel_subscription n s =
      let (stay, gone) = unregister n s.event_subscribers in
      record s { event_subscribers = stay; released = s.released ++ gone }
