-- ===== src/EventStore/Memory/Defs.antt =====
-- The state of MemoryEventStore and the methods that change it. An event is stored by value: a
-- caller that goes on writing to an event after it handed it over is outside the model.
use draftea_payment.Prelude.{
  ℕ, suc, String, Int64, Bool, true, false, not, ◌&&◌, ◌||◌, Option, none, some, List, [], ◌∷◌,
  ◌++◌, str_eq, ltb, ◌==◌, if◌then◌else◌, Dict, insert, lookup_or, length, add64, lt64, any,
  CtxError,
}
use draftea_payment.EventStore.Event.{Event, EventFilter, Snapshot, matches_filter}

pub data StoreError : Type 0 where
  ctx_error : CtxError → StoreError
  store_closed missing_fields mixed_aggregates : StoreError
  conflict : Int64 → Int64 → StoreError
  conflict_at : ℕ → Int64 → Int64 → StoreError

-- A buffered channel: its identity, its capacity and what is waiting in it.
pub record Chan (D : Type 0) : Type 0 where
  pub id : ℕ
  pub capacity : ℕ
  pub buffer : List (Event D)

pub record Subscriber (D : Type 0) : Type 0 where
  pub channel : Chan D
  pub filter : EventFilter

-- `released` holds the channels that the store closed, for their readers to drain; `next_channel`
-- is the identity of the next channel that is made.
pub record Store (D : Type 0) : Type 0 where
  pub events : List (Event D)
  pub events_by_aggregate : Dict (List (Event D))
  pub snapshots : Dict (Snapshot D)
  pub sequence_counter : Int64
  pub aggregate_versions : Dict Int64
  pub subscribers : List (Chan D)
  pub event_subscribers : List (Subscriber D)
  pub closed : Bool
  pub released : List (Chan D)
  pub next_channel : ℕ

-- NewMemoryEventStore
unfoldable pub new_store : {D : Type 0} → Store D
new_store = record {
  events = [];
  events_by_aggregate = [];
  snapshots = [];
  sequence_counter = 0;
  aggregate_versions = [];
  subscribers = [];
  event_subscribers = [];
  closed = false;
  released = [];
  next_channel = 0;
}

module _ {D : Type 0} where
  -- A send in a `select` with a default case: `none` if the buffer is full.
  unfoldable pub try_send : Event D → Chan D → Option (Chan D)
  try_send e c =
      if ltb (length c.buffer) c.capacity
      then some (record c { buffer = c.buffer ++ e ∷ [] })
      else none

  -- The two loops of notifySubscribers run from the last subscriber to the first; a full channel
  -- is closed and its subscriber removed. The result is what stays and what was closed.
  unfoldable pub notify_channels : Event D → List (Chan D) → List (Chan D) × List (Chan D)
  unfolding try_send
  notify_channels e [] = ([], [])
  notify_channels e (c ∷ cs) =
      let (stay, gone) = notify_channels e cs in
      elim (try_send e c) [ none ↦ (stay, c ∷ gone) | some c' ↦ (c' ∷ stay, gone) ]

  unfoldable pub notify_filtered :
      Event D → List (Subscriber D) → List (Subscriber D) × List (Chan D)
  unfolding try_send
  notify_filtered e [] = ([], [])
  notify_filtered e (s ∷ ss) =
      let (stay, gone) = notify_filtered e ss in
      let sent : List (Subscriber D) × List (Chan D) = elim (try_send e s.channel) [
        | none ↦ (stay, s.channel ∷ gone)
        | some c' ↦ (record s { channel = c' } ∷ stay, gone)
      ] in
      if matches_filter e s.filter then sent else (s ∷ stay, gone)

  unfoldable pub notify_subscribers : Event D → Store D → Store D
  unfolding notify_channels notify_filtered
  notify_subscribers e s =
      let (cs, gone) = notify_channels e s.subscribers in
      let (ss, gone') = notify_filtered e s.event_subscribers in
      record s { subscribers = cs; event_subscribers = ss; released = s.released ++ gone ++ gone' }

  -- `event.AggregateVersion > 0 && event.AggregateVersion != expected`
  unfoldable pub version_conflicts : Event D → Int64 → Bool
  version_conflicts e expected = lt64 0 e.aggregate_version && not (e.aggregate_version == expected)

  -- The number, the version and, if it has none, the time that an event is given.
  unfoldable pub stamp : Int64 → Int64 → ℕ → Event D → Event D
  stamp seq version now e = record e {
    sequence_number = seq;
    aggregate_version = version;
    created_at = if e.created_at == 0 then now else e.created_at;
  }

  -- The two appends: to the main list, and to the list of the event's aggregate.
  unfoldable pub record_event : Event D → Store D → Store D
  record_event e s = record s {
    events = s.events ++ e ∷ [];
    events_by_aggregate =
        insert e.aggregate_id (lookup_or [] e.aggregate_id s.events_by_aggregate ++ e ∷ [])
          s.events_by_aggregate;
  }

  abbrev pub has_required : Event D → Bool
  has_required e =
      not (str_eq e.aggregate_id "" || str_eq e.aggregate_type "" || str_eq e.event_type "")

  -- The part of AppendEvent that runs after its checks.
  unfoldable pub commit_event : ℕ → Event D → Store D → Store D × Event D
  commit_event now e s =
      let seq = add64 s.sequence_counter 1 in
      let version = add64 (lookup_or 0 e.aggregate_id s.aggregate_versions) 1 in
      let e' = stamp seq version now e in
      let s' = record_event e' (record s { sequence_counter = seq }) in
      let s'' = record s' {
        aggregate_versions = insert e'.aggregate_id e'.aggregate_version s'.aggregate_versions;
      } in
      (notify_subscribers e' s'', e')

  -- AppendEvent: the store and the event after the call, and its error.
  unfoldable pub append_event :
      Option CtxError → ℕ → Event D → Store D → Store D × Event D × Option StoreError
  append_event (some x) now e s = (s, e, some (ctx_error x))
  append_event none now e s =
      let expected = add64 (lookup_or 0 e.aggregate_id s.aggregate_versions) 1 in
      let (s', e') = commit_event now e s in
      if s.closed
      then (s, e, some store_closed)
      else if not (has_required e)
      then (s, e, some missing_fields)
      else if version_conflicts e expected
      then (s, e, some (conflict expected e.aggregate_version))
      else (s', e', none)

  -- The first loop of AppendEvents, from index `i` on: the counter and the events so far have been
  -- written when it stops at a conflict. `clock i` is the clock's reading in round `i`.
  unfoldable pub assign_versions :
      (ℕ → ℕ) → Int64 → ℕ → Int64 → List (Event D) → List (Event D) × Int64 × Option StoreError
  assign_versions clock current i seq [] = ([], seq, none)
  assign_versions clock current i seq (e ∷ es) =
      let expected = add64 (add64 current i) 1 in
      let rest = assign_versions clock current (suc i) (add64 seq 1) es in
      if version_conflicts e expected
      then (e ∷ es, seq, some (conflict_at i expected e.aggregate_version))
      else (stamp (add64 seq 1) expected (clock i) e ∷ rest.0, rest.1, rest.2)

  -- The second loop of AppendEvents.
  unfoldable pub record_events : List (Event D) → Store D → Store D
  record_events [] s = s
  record_events (e ∷ es) s = record_events es (notify_subscribers e (record_event e s))

  -- `events[len(events)-1].AggregateVersion`
  abbrev pub last_version : Int64 → List (Event D) → Int64
  last_version v [] = v
  last_version v (e ∷ es) = last_version e.aggregate_version es

  -- AppendEvents below its first checks, for a batch of the aggregate `agg`.
  unfoldable pub append_batch :
      (ℕ → ℕ) → String → List (Event D) → Store D → Store D × List (Event D) × Option StoreError
  append_batch clock agg es s =
      let current = lookup_or 0 agg s.aggregate_versions in
      let (es', seq, r) = assign_versions clock current 0 s.sequence_counter es in
      let s' = record_events es' (record s { sequence_counter = seq }) in
      elim r [
        | some x ↦ (record s { sequence_counter = seq }, es', some x)
        | none ↦ (
          record s' {
            aggregate_versions = insert agg (last_version current es') s'.aggregate_versions;
          },
          es',
          none,
        )
      ]

  unfoldable pub append_events :
      Option CtxError
      → (ℕ → ℕ)
      → List (Event D)
      → Store D
      → Store D × List (Event D) × Option StoreError
  append_events (some x) clock es s = (s, es, some (ctx_error x))
  append_events none clock [] s = (s, [], none)
  append_events none clock (e ∷ es) s =
      if any (λ e'. not (str_eq e'.aggregate_id e.aggregate_id)) (e ∷ es)
      then (s, e ∷ es, some mixed_aggregates)
      else if s.closed
      then (s, e ∷ es, some store_closed)
      else append_batch clock e.aggregate_id (e ∷ es) s

  -- CreateSnapshot
  unfoldable pub create_snapshot :
      Option CtxError → ℕ → String → String → Int64 → D → Store D → Store D × Option StoreError
  create_snapshot (some x) now agg agg_type version d s = (s, some (ctx_error x))
  create_snapshot none now agg agg_type version d s =
      let snap : Snapshot D = record {
        aggregate_id = agg;
        aggregate_type = agg_type;
        aggregate_version = version;
        snapshot_data = d;
        created_at = now;
      } in
      (record s { snapshots = insert agg snap s.snapshots }, none)

  -- Close
  unfoldable pub close : Store D → Store D
  close s =
      if s.closed
      then s
      else record s { closed = true; subscribers = []; released = s.released ++ s.subscribers }
