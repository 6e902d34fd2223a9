-- ===== src/Aggregate/Lifecycle.antt =====
-- The states that a PaymentAggregate passes through.
use draftea_payment.Prelude.{
  ℕ, ◌≡◌, refl, String, Bool, true, false, not, Option, none, some, str_eq, if◌then◌else◌,
  Option-cases, inl, inr, some-injective, ap, sym, ◌∙◌,
}
use draftea_payment.EventStore.Event.{Event, new_event}
use draftea_payment.Aggregate.Base.{BaseAggregate, add_uncommitted_event}
use draftea_payment.Aggregate.Payment.{
  PaymentAggregate, PaymentCodecs, AggregateError, Command, new_payment_aggregate,
  apply_payment_event, raise_payment_event, initiate_payment, complete_payment,
  fail_payment_aggregate, cannot_complete, PaymentSnapshot, snapshot_payment, load_payment_snapshot,
}

module _ {F D : Type 0} (codecs : PaymentCodecs F D) where
  -- What can be done to a payment, one call after the other: the commands, an event, a snapshot
  -- that a payment gave, and what a load or a save does to the base of the aggregate.
  pub data Reachable : PaymentAggregate F D → Type 0 where
    start :
        (id user : String) (amount : F) (currency method : String) (now : ℕ)
        → Reachable (new_payment_aggregate id user amount currency method now)
    initiates :
        (c : Command D) (p : PaymentAggregate F D)
        → Reachable p
        → Reachable (initiate_payment codecs c p).0
    completes :
        (c : Command D) (txn : String) (p : PaymentAggregate F D)
        → Reachable p
        → Reachable (complete_payment codecs c txn p).0
    fails :
        (c : Command D) (reason : String) (p : PaymentAggregate F D)
        → Reachable p
        → Reachable (fail_payment_aggregate codecs c reason p).0
    applies :
        (e : Event D) (p : PaymentAggregate F D)
        → Reachable p
        → Reachable (apply_payment_event codecs e p).0
    restores :
        (snap : D) (q p p' : PaymentAggregate F D)
        → Reachable q
        → Reachable p
        → snapshot_payment codecs q ≡ some snap
        → load_payment_snapshot codecs snap p ≡ some p'
        → Reachable p'
    rebases :
        (b : BaseAggregate D) (p : PaymentAggregate F D)
        → Reachable p
        → Reachable (record p { base = b })

  abbrev NotProcessing : PaymentAggregate F D → Type 0
  NotProcessing p = str_eq p.status "processing" ≡ false

  if-NotProcessing :
      (b : Bool) (q r : PaymentAggregate F D × Option AggregateError)
      → NotProcessing q.0
      → NotProcessing r.0
      → NotProcessing (if b then q else r).0
  if-NotProcessing true q r h k = h
  if-NotProcessing false q r h k = k

  read-NotProcessing :
      {A : Type 0} (o : Option A) (q : PaymentAggregate F D × Option AggregateError)
      (f : A → PaymentAggregate F D × Option AggregateError)
      → NotProcessing q.0
      → ((a : A) → NotProcessing (f a).0)
      → NotProcessing
          (elim o as (λ x. PaymentAggregate F D × Option AggregateError) [
            | none ↦ q
            | some a ↦ f a
          ]).0
  read-NotProcessing none q f h k = h
  read-NotProcessing (some a) q f h k = k a

  apply_payment_event-NotProcessing :
      (e : Event D) (p : PaymentAggregate F D)
      → NotProcessing p
      → NotProcessing (apply_payment_event codecs e p).0
  unfolding apply_payment_event
  apply_payment_event-NotProcessing e p h =
      if-NotProcessing (str_eq e.event_type "PaymentInitiated") _ _
        (read-NotProcessing (codecs.initiated.unmarshal e.event_data) _ _ h (λ x. refl))
        (if-NotProcessing (str_eq e.event_type "PaymentCompleted") _ _
          (read-NotProcessing (codecs.completed.unmarshal e.event_data) _ _ h (λ x. refl))
          (if-NotProcessing (str_eq e.event_type "PaymentFailed") _ _
            (read-NotProcessing (codecs.failed.unmarshal e.event_data) _ _ h (λ x. refl)) h))

  raise_payment_event-NotProcessing :
      (c : Command D) (kind : String) (d : Option D) (p : PaymentAggregate F D)
      → NotProcessing p
      → NotProcessing (raise_payment_event codecs c kind d p).0
  unfolding raise_payment_event
  raise_payment_event-NotProcessing c kind d p h =
      elim (Option-cases (
        new_event c.event_id c.now d c.event_metadata p.base.id "payment" kind p.user_id
          c.correlation_id)) [
            | inl unmade ↦ rw (unmade, raise_payment_event) h
            | inr (e, made) ↦
                let (b, e') = add_uncommitted_event e p.base in
                rw (made, raise_payment_event)
                  (apply_payment_event-NotProcessing e' (record p { base = b }) h)
          ]

  restored-NotProcessing :
      (snap : D) (q p p' : PaymentAggregate F D)
      → ((x y : PaymentSnapshot F) (d : D)
          → codecs.snapshot.marshal x ≡ some d
          → codecs.snapshot.unmarshal d ≡ some y
          → y.status ≡ x.status)
      → NotProcessing q
      → snapshot_payment codecs q ≡ some snap
      → load_payment_snapshot codecs snap p ≡ some p'
      → NotProcessing p'
  unfolding snapshot_payment load_payment_snapshot
  restored-NotProcessing snap q p p' kept h written read =
      elim (Option-cases (codecs.snapshot.unmarshal snap)) [
        | inl unread ↦ absurd (cc (rw (unread, load_payment_snapshot) at read))
        | inr (y, found) ↦
            let same = kept _ y snap written found in
            let loaded =
              ap (λ (v : PaymentAggregate F D). v.status)
                (some-injective (rw (found, load_payment_snapshot) at read)) in
            ap (λ text. str_eq text "processing") (sym loaded ∙ same) ∙ h
      ]

  -- No call leaves a payment in the state "processing".
  pub Reachable-NotProcessing :
      ((x y : PaymentSnapshot F) (d : D)
        → codecs.snapshot.marshal x ≡ some d
        → codecs.snapshot.unmarshal d ≡ some y
        → y.status ≡ x.status)
      → (p : PaymentAggregate F D) → Reachable p
      → NotProcessing p
  unfolding initiate_payment complete_payment fail_payment_aggregate
  Reachable-NotProcessing kept _ (start id user amount currency method now) = refl
  Reachable-NotProcessing kept _ (initiates c p r) =
      let h = Reachable-NotProcessing kept p r in
      if-NotProcessing (not (str_eq p.status "pending")) _ _ h
        (raise_payment_event-NotProcessing c "PaymentInitiated" _ p h)
  Reachable-NotProcessing kept _ (completes c txn p r) =
      let h = Reachable-NotProcessing kept p r in
      if-NotProcessing (not (str_eq p.status "processing")) _ _ h
        (raise_payment_event-NotProcessing c "PaymentCompleted" _ p h)
  Reachable-NotProcessing kept _ (fails c reason p r) =
      let h = Reachable-NotProcessing kept p r in
      if-NotProcessing (str_eq p.status "completed") _ _ h
        (raise_payment_event-NotProcessing c "PaymentFailed" _ p h)
  Reachable-NotProcessing kept _ (applies e p r) =
      apply_payment_event-NotProcessing e p (Reachable-NotProcessing kept p r)
  Reachable-NotProcessing kept _ (restores snap q p p' rq rp written read) =
      restored-NotProcessing snap q p p' kept (Reachable-NotProcessing kept q rq) written read
  Reachable-NotProcessing kept _ (rebases b p r) = Reachable-NotProcessing kept p r

  -- CompletePayment refuses every payment that NewPaymentAggregate makes and that calls, events and
  -- the snapshots of such payments change, and leaves it as it is: it wants the state "processing",
  -- which none of them gives, where a snapshot is read with the status that it was written with.
  pub complete_payment_refused :
      (c : Command D) (txn : String) (p : PaymentAggregate F D)
      → ((x y : PaymentSnapshot F) (d : D)
          → codecs.snapshot.marshal x ≡ some d
          → codecs.snapshot.unmarshal d ≡ some y
          → y.status ≡ x.status)
      → Reachable p
      → complete_payment codecs c txn p ≡ (p, some (cannot_complete p.status))
  unfolding complete_payment
  complete_payment_refused c txn p kept r = rw (Reachable-NotProcessing kept p r) refl
