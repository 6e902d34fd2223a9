-- ===== src/Events/Publisher.antt =====
-- internal/events/publisher.go: KafkaPublisher. The writer is the kafka-go library's, and enters as
-- the function `write`, which answers for a list of messages whether they were written; `encode` is
-- json.Marshal, which may refuse a value.
use draftea_payment.Prelude.{ℕ, Bool, Option, none, some, List, [], ◌∷◌, if◌then◌else◌}
use draftea_payment.Events.Types.{
  EventType, BaseEvent, DomainEvent, bare, initiated, completed, failed, deducted, refunded,
  response_received,
}

pub data PublishError : Type 0 where
  not_a_base_event marshal_failed write_failed : PublishError

-- A Kafka message: its key, its value and its three headers.
pub record Message (V : Type 0) : Type 0 where
  pub key : ℕ
  pub value : V
  pub event_type : EventType
  pub correlation_id : ℕ
  pub timestamp : ℕ

-- The type assertion `event.(BaseEvent)`: it holds of the type itself, and not of a structure that
-- embeds it.
unfoldable pub as_base_event : {R : Type 0} → DomainEvent R → Option BaseEvent
as_base_event (bare b) = some b
as_base_event (initiated e) = none
as_base_event (completed e) = none
as_base_event (failed e) = none
as_base_event (deducted e) = none
as_base_event (refunded e) = none
as_base_event (response_received e) = none

abbrev pub to_message : {V : Type 0} → BaseEvent → V → Message V
to_message b v = record {
  key = b.aggregate_id;
  value = v;
  event_type = b.event_type;
  correlation_id = b.correlation_id;
  timestamp = b.timestamp;
}

module _ {R V : Type 0} (encode : DomainEvent R → Option V) (write : List (Message V) → Bool) where
  -- Publish: the messages that reached the writer, and the error.
  unfoldable pub publish : DomainEvent R → List (Message V) × Option PublishError
  unfolding as_base_event
  publish e = elim (as_base_event e) [
    | none ↦ ([], some not_a_base_event)
    | some b ↦ elim (encode e) [
      | none ↦ ([], some marshal_failed)
      | some v ↦
          let m : List (Message V) = to_message b v ∷ [] in
          if write m then (m, none) else (m, some write_failed)
    ]
  ]

  -- The loop of PublishBatch: an event that cannot be encoded is skipped, one that is not a
  -- BaseEvent ends the call.
  unfoldable pub collect : List (DomainEvent R) → Option (List (Message V))
  unfolding as_base_event
  collect [] = some []
  collect (e ∷ es) =
      let rest = collect es in
      elim (as_base_event e) [
        | none ↦ none
        | some b ↦ elim (encode e) [
          | none ↦ rest
          | some v ↦ elim rest [ none ↦ none | some ms ↦ some (to_message b v ∷ ms) ]
        ]
      ]

  -- PublishBatch
  unfoldable pub publish_batch : List (DomainEvent R) → List (Message V) × Option PublishError
  unfolding collect
  publish_batch es = elim (collect es) [
    | none ↦ ([], some not_a_base_event)
    | some ms ↦ if write ms then (ms, none) else (ms, some write_failed)
  ]
