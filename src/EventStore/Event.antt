-- ===== src/EventStore/Event.antt =====
-- pkg/eventstore/eventstore.go: events, filters and snapshots, and the test of an event against a
-- filter (matchesFilter of memory_store.go). `D` stands for json.RawMessage, which the store only
-- carries. A time is a number of nanoseconds, 0 for Go's zero time.
use draftea_payment.Prelude.{
  ℕ, String, Int64, Bool, true, not, ◌&&◌, Option, none, some, List, [], ◌∷◌, any, str_eq, ltb,
  lt64,
}

pub record Event (D : Type 0) : Type 0 where
  pub id : String
  pub aggregate_id : String
  pub aggregate_type : String
  pub event_type : String
  pub aggregate_version : Int64
  pub sequence_number : Int64
  pub event_data : D
  pub metadata : D
  pub created_at : ℕ
  pub caused_by : String
  pub correlation_id : String

-- A nil pointer of the source is `none`.
pub record EventFilter : Type 0 where
  pub aggregate_id : Option String
  pub aggregate_type : Option String
  pub event_types : List String
  pub from_aggregate_version : Option Int64
  pub to_aggregate_version : Option Int64
  pub from_sequence_number : Option Int64
  pub to_sequence_number : Option Int64
  pub from_timestamp : Option ℕ
  pub to_timestamp : Option ℕ
  pub limit : Option Int64
  pub offset : Option Int64

pub record Snapshot (D : Type 0) : Type 0 where
  pub aggregate_id : String
  pub aggregate_type : String
  pub aggregate_version : Int64
  pub snapshot_data : D
  pub created_at : ℕ

-- The filter that every event passes.
abbrev pub no_filter : EventFilter
no_filter = record {
  aggregate_id = none;
  aggregate_type = none;
  event_types = [];
  from_aggregate_version = none;
  to_aggregate_version = none;
  from_sequence_number = none;
  to_sequence_number = none;
  from_timestamp = none;
  to_timestamp = none;
  limit = none;
  offset = none;
}

-- A criterion that is not set passes.
abbrev pub passes {ℓ} : {A : Type ℓ} → Option A → (A → Bool) → Bool
passes none test = true
passes (some a) test = test a

abbrev matches_types : List String → String → Bool
matches_types [] t = true
matches_types (x ∷ xs) t = any (λ y. str_eq t y) (x ∷ xs)

unfoldable pub matches_filter : {D : Type 0} → Event D → EventFilter → Bool
matches_filter e f =
    passes f.aggregate_id (λ a. str_eq e.aggregate_id a)
    && passes f.aggregate_type (λ t. str_eq e.aggregate_type t)
    && matches_types f.event_types e.event_type
    && passes f.from_aggregate_version (λ v. not (lt64 e.aggregate_version v))
    && passes f.to_aggregate_version (λ v. not (lt64 v e.aggregate_version))
    && passes f.from_sequence_number (λ n. lt64 n e.sequence_number)
    && passes f.to_sequence_number (λ n. not (lt64 n e.sequence_number))
    && passes f.from_timestamp (λ t. not (ltb e.created_at t))
    && passes f.to_timestamp (λ t. not (ltb t e.created_at))

-- NewEvent. The identifier and the clock's readings come from outside, and so do the encoded data
-- and metadata; `none` is a failed encoding.
unfoldable pub new_event :
    {D : Type 0}
    → String
    → ℕ
    → Option D
    → Option D
    → String
    → String
    → String
    → String
    → String
    → Option (Event D)
new_event uuid now none meta agg agg_type ev_type by corr = none
new_event uuid now (some d) none agg agg_type ev_type by corr = none
new_event uuid now (some d) (some m) agg agg_type ev_type by corr = some (record {
  id = uuid;
  aggregate_id = agg;
  aggregate_type = agg_type;
  event_type = ev_type;
  aggregate_version = 0;
  sequence_number = 0;
  event_data = d;
  metadata = m;
  created_at = now;
  caused_by = by;
  correlation_id = corr;
})
