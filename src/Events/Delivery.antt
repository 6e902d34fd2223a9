-- ===== src/Events/Delivery.antt =====
-- Which events a KafkaPublisher passes on to its writer.
use draftea_payment.Prelude.{
  ◌≡◌, refl, Bool, true, false, not, Option, none, some, List, [], ◌∷◌, arith, any, if◌then◌else◌,
  Option-cases, Bool-cases, inl, inr,
}
use draftea_payment.Events.Types.{DomainEvent, bare}
use draftea_payment.Events.Publisher.{
  Message, not_a_base_event, collect, publish_batch, to_message, write_failed,
}

abbrev pub is_bare : {R : Type 0} → DomainEvent R → Bool
is_bare (bare b) = true
is_bare _ = false

module _ {R V : Type 0} (encode : DomainEvent R → Option V) (write : List (Message V) → Bool) where
  collect_embedded :
      (es : List (DomainEvent R))
      → any (λ e. not (is_bare e)) es ≡ true
      → collect encode write es ≡ none
  unfolding collect
  collect_embedded [] h = cc
  collect_embedded (bare b ∷ es) h = ground (arith, collect_embedded es h)
  collect_embedded (_ ∷ es) h = refl

  -- The messages for the events of a batch that are bare and can be encoded, in their order.
  abbrev pub messages : List (DomainEvent R) → List (Message V)
  messages [] = []
  messages (bare b ∷ es) = elim (encode (bare b)) [
    | none ↦ messages es
    | some v ↦ to_message b v ∷ messages es
  ]
  messages (_ ∷ es) = messages es

  collect-messages :
      (es : List (DomainEvent R))
      → any (λ e. not (is_bare e)) es ≡ false
      → collect encode write es ≡ some (messages es)
  unfolding collect
  collect-messages [] h = refl
  collect-messages (bare b ∷ es) h =
      let rest = collect-messages es h in
      elim (Option-cases (encode (bare b))) [
        | inl unread ↦ rw (unread, rest, messages)
        | inr (v, read) ↦ rw (read, rest, messages)
      ]
  collect-messages (_ ∷ es) h = absurd (cc h)

  -- PublishBatch hands nothing to the writer and returns its error where any event of the batch,
  -- at any place, embeds a BaseEvent and is none. Otherwise it hands over, at one go, the
  -- messages for the events that can be encoded, in their order, and returns the writer's error.
  pub publish_batch_lem :
      (es : List (DomainEvent R))
      → publish_batch encode write es ≡ (
          if any (λ e. not (is_bare e)) es
          then ([], some not_a_base_event)
          else (messages es, if write (messages es) then none else some write_failed))
  unfolding publish_batch
  publish_batch_lem es = elim (Bool-cases (any (λ e. not (is_bare e)) es)) [
    | inl embedded ↦ rw (embedded, collect_embedded es embedded, publish_batch)
    | inr pure ↦ elim (Bool-cases (write (messages es))) [
      | inl fine ↦ rw (pure, collect-messages es pure, publish_batch, fine)
      | inr failed ↦ rw (pure, collect-messages es pure, publish_batch, failed)
    ]
  ]
