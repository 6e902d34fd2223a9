-- ===== src/Recovery/Retried.antt =====
-- RetryFromDLQ: which entry of the queue it tries, and what is left of the queue.
use draftea_payment.Prelude.{
  ◌≡◌, ◌≢◌, ◌⊎◌, refl, sym, ap, ◌∙◌, String, Option, none, some, List, [], ◌∷◌, ◌++◌, Bool-cases,
  Option-cases, inl, inr, str_eq, some-injective, eq_iff,
}
use draftea_payment.EventStore.Event.{Event}
use draftea_payment.Recovery.DeadLetters.{
  FailedEvent, DeadLetterQueue, DlqStorage, take_failed, retry_from_dlq,
}
use draftea_payment.Recovery.Queue.{Absent, ids}

-- The entry `f` is the first one of the event `id` in `fs`, and `gs` is `fs` without it.
abbrev pub IsTaken :
    {D : Type 0} → String → List (FailedEvent D) → FailedEvent D → List (FailedEvent D) → Type 0
IsTaken {D} id fs f gs =
    (before after : List (FailedEvent D)) × (fs ≡ before ++ f ∷ after)
    × (gs ≡ before ++ after)
    × Absent id (ids before)
    × (f.original_event.id ≡ id)

module _ {D : Type 0} where
  take_failed-Absent :
      (id : String) (fs : List (FailedEvent D)) → take_failed id fs ≡ none → Absent id (ids fs)
  unfolding take_failed
  take_failed-Absent id [] h = tt
  take_failed-Absent id (f ∷ fs) h = elim (Bool-cases (str_eq f.original_event.id id)) [
    | inl found ↦ absurd (cc (rw found at h))
    | inr other ↦ elim (Option-cases (take_failed id fs)) [
      | inl missing ↦ (other, take_failed-Absent id fs missing)
      | inr (r, later) ↦ absurd (cc (rw (other, later) at h))
    ]
  ]

  take_failed-IsTaken :
      (id : String) (fs gs : List (FailedEvent D)) (g : FailedEvent D)
      → take_failed id fs ≡ some (g, gs)
      → IsTaken id fs g gs
  unfolding take_failed
  take_failed-IsTaken id [] gs g h = absurd (cc h)
  take_failed-IsTaken id (f ∷ fs) gs g h = elim (Bool-cases (str_eq f.original_event.id id)) [
    | inl found ↦
        let whole = some-injective (rw found at h) in
        let same = ap (λ r. r.0) whole in
        (
          [],
          fs,
          ap (λ x. x ∷ fs) same,
          sym (ap (λ r. r.1) whole),
          tt,
          ap (λ (x : FailedEvent D). x.original_event.id) (sym same)
              ∙ (eq_iff f.original_event.id id).0 found,
        )
    | inr other ↦ elim (Option-cases (take_failed id fs)) [
      | inl missing ↦ absurd (cc (rw (other, missing) at h))
      | inr ((g', gs'), later) ↦
          let whole = some-injective (rw (other, later) at h) in
          let same = ap (λ r. r.0) whole in
          let (before, after, split, left, none_before, key) =
            take_failed-IsTaken id fs gs' g' later in
          (
            f ∷ before,
            after,
            ap (λ l. f ∷ l) split ∙ ap (λ x. f ∷ before ++ x ∷ after) same,
            sym (ap (λ r. r.1) whole) ∙ ap (λ l. f ∷ l) left,
            (other, none_before),
            ap (λ (x : FailedEvent D). x.original_event.id) (sym same) ∙ key,
          )
    ]
  ]

module _ {D S E : Type 0} (env : DlqStorage D S E) where
  -- RetryFromDLQ hands the first entry of the event to the processor. It returns no error exactly
  -- where there is such an entry and the processor takes its event; this entry, and no other, is
  -- then out of the queue, whatever the storage answers. Otherwise the queue is as it was, and
  -- either it has no entry of the event or the processor refused the event.
  pub retry_from_dlq_takes :
      {P : Type 0} (id : String) (processor : Event D → P → P × Option E) (q : DeadLetterQueue D S)
      (p : P)
      → let (q', p', r) = retry_from_dlq env id processor q p in
        ((r ≡ none)
          × ((f : FailedEvent D) × IsTaken id q.events f q'.events
              × (processor f.original_event p ≡ (p', none))))
        ⊎ ((r ≢ none)
            × (q' ≡ q)
            × ((Absent id (ids q.events) × (p' ≡ p))
                ⊎ ((f : FailedEvent D) × (gs : List (FailedEvent D)) × (x : E) × IsTaken id q.events
                      f gs
                    × (processor f.original_event p ≡ (p', some x)))))
  unfolding retry_from_dlq
  retry_from_dlq_takes id processor q p = elim (Option-cases (take_failed id q.events)) [
    | inl missing ↦
        rw (missing, retry_from_dlq)
          (inr (λ h. absurd (cc h), refl, inl (take_failed-Absent id q.events missing, refl)))
    | inr ((f, fs), found) ↦
        let (p', failure) = processor f.original_event p in
        let taken = take_failed-IsTaken id q.events fs f found in
        elim (Option-cases failure) [
          | inr (x, broken) ↦
              rw (found, retry_from_dlq, broken, retry_from_dlq)
                (inr (λ h. absurd (cc h), refl, inr (f, fs, x, taken, ap (λ o. (p', o)) broken)))
          | inl fine ↦
              rw (found, retry_from_dlq, fine, retry_from_dlq)
                (inl (refl, (f, taken, ap (λ o. (p', o)) fine)))
        ]
  ]
