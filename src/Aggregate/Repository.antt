-- ===== src/Aggregate/Repository.antt =====
-- pkg/eventstore/aggregate.go: AggregateRepository, over the in-memory event store. The clock's
-- readings are inputs.
use draftea_payment.Prelude.{
  ℕ, ◌-◌, ◌%◌, String, Int64, Bool, false, Option, none, some, List, [], ◌∷◌, map, CtxError, Result,
  ok, err, if◌then◌else◌, ◌==◌, word, add64, lt64,
}
use draftea_payment.EventStore.Event.{Event, no_filter}
use draftea_payment.EventStore.Memory.{
  Store, StoreError, append_events, create_snapshot, get_snapshot, get_events,
  get_events_by_aggregate, get_aggregate_version,
}
use draftea_payment.Aggregate.Base.{Aggregate, mark_events_as_committed, set_version}

pub data LoadError (X : Type 0) : Type 0 where
  snapshot_unread : StoreError → LoadError X
  snapshot_broken : LoadError X
  events_unread : StoreError → LoadError X
  apply_failed : String → X → LoadError X

-- What the call gives besides its data: the context, the readings of the clock, the cause and the
-- correlation.
pub record SaveCall : Type 0 where
  pub ctx : Option CtxError
  pub clock : ℕ → ℕ
  pub snapshot_time : ℕ
  pub caused_by : String
  pub correlation_id : String

-- `a % b` on int64, for `b` above 0, as far as the test against 0 goes.
abbrev pub divides64 : Int64 → Int64 → Bool
divides64 b a = (if lt64 a 0 then word - a else a) % b == 0

-- The metadata that Save writes to an event.
abbrev pub label : {D : Type 0} → String → String → SaveCall → Event D → Event D
label id kind c e = record e {
  aggregate_id = id;
  aggregate_type = kind;
  caused_by = c.caused_by;
  correlation_id = c.correlation_id;
}

module _ {X D A : Type 0} (agg : Aggregate X D A) where
  -- shouldCreateSnapshot
  unfoldable pub should_create_snapshot : Int64 → A → Bool
  should_create_snapshot frequency a =
      if lt64 0 frequency then divides64 frequency (agg.base a).version else false

  -- createSnapshot, whose error Save only prints.
  unfoldable pub snapshot_aggregate : SaveCall → A → Store D → Store D
  snapshot_aggregate c a s = elim (agg.create_snapshot a) [
    | none ↦ s
    | some d ↦
        (create_snapshot c.ctx c.snapshot_time (agg.base a).id (agg.get_type a) (agg.base a).version
          d s).0
  ]

  -- Save: the store, the aggregate and the error. The store stamps the events of the aggregate, also
  -- where it then refuses them.
  unfoldable pub save_aggregate : Int64 → SaveCall → A → Store D → Store D × A × Option StoreError
  save_aggregate frequency c a s =
      let b = agg.base a in
      let es = map (label b.id (agg.get_type a) c) b.uncommitted_events in
      let (s', es', failure) = append_events c.ctx c.clock es s in
      let a' = agg.with_base (mark_events_as_committed b) a in
      elim b.uncommitted_events [
        | [] ↦ (s, a, none)
        | _ ∷ _ ↦ elim failure [
          | some x ↦ (s', agg.with_base (record b { uncommitted_events = es' }) a, some x)
          | none ↦ (
            if should_create_snapshot frequency a' then snapshot_aggregate c a' s' else s',
            a',
            none,
          )
        ]
      ]

  -- The loop of Load and LoadVersion over the events.
  unfoldable pub apply_all : List (Event D) → A → Result (LoadError X) A
  apply_all [] a = ok a
  apply_all (e ∷ es) a =
      let (a', failure) = agg.apply_event e a in
      let rest = apply_all es (set_version agg e.aggregate_version a') in
      elim failure [ some x ↦ err (apply_failed e.id x) | none ↦ rest ]

  -- The end of Load: the events from a version on.
  unfoldable pub replay_from :
      Option CtxError → String → Store D → A → Int64 → Result (LoadError X) A
  replay_from ctx id s a from = elim (get_events_by_aggregate ctx id from s) [
    | err x ↦ err (events_unread x)
    | ok es ↦ apply_all es a
  ]

  -- Load, with what the factory makes.
  unfoldable pub load_aggregate : Option CtxError → String → A → Store D → Result (LoadError X) A
  load_aggregate ctx id fresh s = elim (get_snapshot ctx id s) [
    | err x ↦ err (snapshot_unread x)
    | ok none ↦ replay_from ctx id s fresh 0
    | ok (some snap) ↦ elim (agg.load_from_snapshot snap.snapshot_data fresh) [
      | none ↦ err snapshot_broken
      | some a ↦
          replay_from ctx id s (set_version agg snap.aggregate_version a)
            (add64 snap.aggregate_version 1)
    ]
  ]

  -- The end of LoadVersion: the events from a version on, to another.
  unfoldable pub replay_between :
      Option CtxError → String → Store D → Int64 → A → Int64 → Result (LoadError X) A
  replay_between ctx id s version a from =
      elim (get_events ctx
        (record no_filter {
          aggregate_id = some id;
          from_aggregate_version = some from;
          to_aggregate_version = some version;
        })
        s) [ err x ↦ err (events_unread x) | ok es ↦ apply_all es a ]

  -- LoadVersion: a snapshot of a later version is left aside.
  unfoldable pub load_version :
      Option CtxError → String → Int64 → A → Store D → Result (LoadError X) A
  load_version ctx id version fresh s = elim (get_snapshot ctx id s) [
    | err x ↦ err (snapshot_unread x)
    | ok none ↦ replay_between ctx id s version fresh 0
    | ok (some snap) ↦
        if lt64 version snap.aggregate_version
        then replay_between ctx id s version fresh 0
        else elim (agg.load_from_snapshot snap.snapshot_data fresh) [
          | none ↦ err snapshot_broken
          | some a ↦
              replay_between ctx id s version (set_version agg snap.aggregate_version a)
                (add64 snap.aggregate_version 1)
        ]
  ]

-- Exists
unfoldable pub exists_aggregate :
    {D : Type 0} → Option CtxError → String → Store D → Result StoreError Bool
exists_aggregate ctx id s = elim (get_aggregate_version ctx id s) [
  | err x ↦ err x
  | ok v ↦ ok (lt64 0 v)
]
