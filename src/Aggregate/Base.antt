-- ===== src/Aggregate/Base.antt =====
-- pkg/eventstore/aggregate.go: BaseAggregate, the interface Aggregate and the two event routers.
use draftea_payment.Prelude.{
  String, Int64, Option, none, some, List, [], ◌∷◌, ◌++◌, add64, Dict, ◌≡◌, lookup, insert,
}
use draftea_payment.EventStore.Event.{Event}

-- `uncommitted_events` are pointers in the source: a write to one of them is a write to this list.
pub record BaseAggregate (D : Type 0) : Type 0 where
  pub id : String
  pub aggregate_type : String
  pub version : Int64
  pub uncommitted_events : List (Event D)

-- NewPaymentAggregate and NewWalletAggregate begin with it.
abbrev pub new_base : {D : Type 0} → String → String → BaseAggregate D
new_base id kind = record { id = id; aggregate_type = kind; version = 0; uncommitted_events = [] }

-- AddUncommittedEvent: the aggregate, and the event with its version.
unfoldable pub add_uncommitted_event :
    {D : Type 0} → Event D → BaseAggregate D → BaseAggregate D × Event D
add_uncommitted_event e b =
    let e' = record e { aggregate_version = add64 b.version 1 } in
    (
      record b {
        uncommitted_events = b.uncommitted_events ++ e' ∷ [];
        version = add64 b.version 1;
      },
      e',
    )

-- MarkEventsAsCommitted
abbrev pub mark_events_as_committed : {D : Type 0} → BaseAggregate D → BaseAggregate D
mark_events_as_committed b = record b { uncommitted_events = [] }

-- The interface Aggregate, for an aggregate of type `A` with errors `X`. BaseAggregate has the first
-- four methods and the lists of events; `with_base` writes back what they change.
pub record Aggregate (X D A : Type 0) : Type 0 where
  pub base : A → BaseAggregate D
  pub with_base : BaseAggregate D → A → A
  pub get_type : A → String
  pub apply_event : Event D → A → A × Option X
  pub create_snapshot : A → Option D
  pub load_from_snapshot : D → A → Option A

module _ {X D A : Type 0} (agg : Aggregate X D A) where
  -- SetVersion
  abbrev pub set_version : Int64 → A → A
  set_version v a = agg.with_base (record (agg.base a) { version = v }) a

  -- GetVersion
  abbrev pub get_version : A → Int64
  get_version a = (agg.base a).version

-- What an Aggregate's `base` and `with_base` have to do with each other.
pub record IsLens {X D A : Type 0} (agg : Aggregate X D A) : Type 0 where
  pub base-with_base : (b : BaseAggregate D) (a : A) → agg.base (agg.with_base b a) ≡ b

-- EventRouter: RegisterApplier and ApplyEvent.
abbrev pub register_applier :
    {X D A : Type 0}
    → String
    → (A → Event D → A × Option X)
    → Dict (A → Event D → A × Option X)
    → Dict (A → Event D → A × Option X)
register_applier kind applier appliers = insert kind applier appliers

pub data RouteError (X : Type 0) : Type 0 where
  no_applier : String → RouteError X
  applier_failed : X → RouteError X

unfoldable pub route_event :
    {X D A : Type 0} → Dict (A → Event D → A × Option X) → A → Event D → A × Option (RouteError X)
route_event appliers a e = elim (lookup e.event_type appliers) [
  | none ↦ (a, some (no_applier e.event_type))
  | some applier ↦
      let (a', failure) = applier a e in
      elim failure [ none ↦ (a', none) | some x ↦ (a', some (applier_failed x)) ]
]
