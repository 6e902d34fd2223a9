-- ===== src/Tests/Publishing.antt =====
-- Examples for the publisher: a batch of three events, one of which cannot be encoded.
use draftea_payment.Prelude.{
  ℕ, ◌≡◌, Bool, true, Option, none, some, List, [], ◌∷◌, if◌then◌else◌, ◌==◌,
}
use draftea_payment.Events.Types.{BaseEvent, EventType, DomainEvent, bare}
use draftea_payment.Events.Publisher.{Message, publish_batch, to_message}
use draftea_payment.Events.Delivery.{publish_batch_lem}

abbrev base : BaseEvent
base = record {
  id = 1;
  event_type = EventType.payment_completed;
  aggregate_id = 40;
  version = 1;
  timestamp = 5;
  correlation_id = 3;
  metadata = [];
}

-- The same event of another version, which the encoder refuses.
abbrev odd : BaseEvent
odd = record base { version = 9 }

abbrev encode : DomainEvent ℕ → Option ℕ
encode (bare b) = if b.version == 9 then none else some 1
encode _ = some 1

abbrev broker : List (Message ℕ) → Bool
broker ms = true

publish_batch_lem_example :
    publish_batch encode broker (bare base ∷ bare odd ∷ bare base ∷ [])
    ≡ (to_message base 1 ∷ to_message base 1 ∷ [], none)
publish_batch_lem_example = publish_batch_lem encode broker (bare base ∷ bare odd ∷ bare base ∷ [])
