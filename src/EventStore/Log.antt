-- ===== src/EventStore/Log.antt =====
-- What the event store promises: one log, in which the sequence numbers rise and the events of each
-- aggregate are numbered 1, 2, 3, …; the maps of the store are views of that log.
use draftea_payment.Prelude.{
  ℕ, suc, ◌+◌, ◌≤◌, ◌<◌, ◌≡◌, ◌∙◌, String, half, Bool, List, [], ◌∷◌, ◌++◌, arith, str_eq, eq_iff,
  Dict, if◌then◌else◌, Bool-cases, inl, inr, lookup_or, insert, lookup_or-insert, length, keep,
}
use draftea_payment.EventStore.Event.{Event}
use draftea_payment.EventStore.Memory.{Store, record_event, notify_subscribers}

module _ {D : Type 0} where
  -- The events of one aggregate, in the order of the log.
  abbrev pub of_aggregate : String → List (Event D) → List (Event D)
  of_aggregate agg = keep (λ e. str_eq e.aggregate_id agg)

  abbrev pub Numbered : ℕ → List (Event D) → Type 0
  Numbered n [] = Unit
  Numbered n (e ∷ es) = (e.aggregate_version ≡ suc n) × Numbered (suc n) es

  abbrev pub Ascending : ℕ → List (Event D) → ℕ → Type 0
  Ascending lo [] hi = lo ≤ hi
  Ascending lo (e ∷ es) hi = (lo < e.sequence_number) × Ascending e.sequence_number es hi

  -- The log and its index, with every number in the log at most `top`.
  pub record IsLog (top : ℕ) (es : List (Event D)) (index : Dict (List (Event D))) : Type 0 where
    pub ascending : Ascending 0 es top
    pub indexed : (agg : String) → lookup_or [] agg index ≡ of_aggregate agg es
    pub numbered : (agg : String) → Numbered 0 (of_aggregate agg es)

  pub record IsConsistent (s : Store D) : Type 0 where
    pub is_log : IsLog s.sequence_counter s.events s.events_by_aggregate
    pub counted :
        (agg : String) → lookup_or 0 agg s.aggregate_versions ≡ length (of_aggregate agg s.events)
    pub bounded : s.sequence_counter < half

  pub Ascending-append :
      (lo hi : ℕ) (es : List (Event D)) (e : Event D)
      → Ascending lo es hi
      → hi < e.sequence_number
      → Ascending lo (es ++ e ∷ []) e.sequence_number
  Ascending-append lo hi [] e h k = omega arith
  Ascending-append lo hi (x ∷ es) e h k = (h.0, Ascending-append x.sequence_number hi es e h.1 k)

  pub Ascending-weaken :
      (lo hi hi' : ℕ) (es : List (Event D)) → Ascending lo es hi → hi ≤ hi' → Ascending lo es hi'
  Ascending-weaken lo hi hi' [] h k = omega arith
  Ascending-weaken lo hi hi' (x ∷ es) h k =
      (h.0, Ascending-weaken x.sequence_number hi hi' es h.1 k)

  pub length-Ascending :
      (lo hi : ℕ) (es : List (Event D)) → Ascending lo es hi → length es + lo ≤ hi
  length-Ascending lo hi [] h = omega arith
  length-Ascending lo hi (x ∷ es) h = omega (arith, length-Ascending x.sequence_number hi es h.1)

  pub Numbered-append :
      (n : ℕ) (es : List (Event D)) (e : Event D)
      → Numbered n es
      → e.aggregate_version ≡ suc (n + length es)
      → Numbered n (es ++ e ∷ [])
  Numbered-append n [] e h k = (omega arith, tt)
  Numbered-append n (x ∷ es) e h k = (h.0, Numbered-append (suc n) es e h.1 (omega arith))

  pub length-keep-le : (p : Event D → Bool) (es : List (Event D)) → length (keep p es) ≤ length es
  length-keep-le p [] = omega arith
  length-keep-le p (e ∷ es) = ground (arith, length-keep-le p es)

  pub of_aggregate_snoc :
      (agg : String) (es : List (Event D)) (e : Event D)
      → of_aggregate agg (es ++ e ∷ [])
        ≡ (if str_eq e.aggregate_id agg then of_aggregate agg es ++ e ∷ [] else of_aggregate agg es)
  of_aggregate_snoc agg [] e = ground arith
  of_aggregate_snoc agg (x ∷ es) e = ground (arith, of_aggregate_snoc agg es e)

  -- No aggregate has more versions than there are sequence numbers.
  pub length-of_aggregate-le :
      (top : ℕ) (es : List (Event D)) (agg : String)
      → Ascending 0 es top
      → length (of_aggregate agg es) ≤ top
  length-of_aggregate-le top es agg h =
      omega (arith, length-keep-le (λ e. str_eq e.aggregate_id agg) es, length-Ascending 0 top es h)

  indexed_snoc :
      (agg : String) (e : Event D) (s : Store D)
      → ((a : String) → lookup_or [] a s.events_by_aggregate ≡ of_aggregate a s.events)
      → lookup_or [] agg (
          insert e.aggregate_id
            (lookup_or [] e.aggregate_id s.events_by_aggregate ++ e ∷ [])
            s.events_by_aggregate)
        ≡ of_aggregate agg (s.events ++ e ∷ [])
  indexed_snoc agg e s h = elim (Bool-cases (str_eq e.aggregate_id agg)) [
    | inl same ↦
        rw (lookup_or-insert, of_aggregate_snoc agg s.events e, same, h e.aggregate_id)
          (rw ((eq_iff e.aggregate_id agg).0 same))
    | inr other ↦ rw (lookup_or-insert, of_aggregate_snoc agg s.events e, other) (h agg)
  ]

  Numbered-snoc :
      (agg : String) (e : Event D) (es : List (Event D))
      → Numbered 0 (of_aggregate agg es)
      → e.aggregate_version ≡ suc (length (of_aggregate e.aggregate_id es))
      → Numbered 0 (of_aggregate agg (es ++ e ∷ []))
  Numbered-snoc agg e es h v = elim (Bool-cases (str_eq e.aggregate_id agg)) [
    | inl same ↦
        rw (of_aggregate_snoc agg es e, same)
          (Numbered-append 0 (of_aggregate agg es) e h
            (v ∙ rw ((eq_iff e.aggregate_id agg).0 same) (omega arith)))
    | inr other ↦ rw (of_aggregate_snoc agg es e, other) h
  ]

  -- Recording an event that has the next version and a higher number keeps the log.
  pub record_event-IsLog :
      (top : ℕ) (e : Event D) (s : Store D)
      → IsLog top s.events s.events_by_aggregate
      → top < e.sequence_number
      → e.aggregate_version ≡ suc (length (of_aggregate e.aggregate_id s.events))
      → let s' = notify_subscribers e (record_event e s) in
        IsLog e.sequence_number s'.events s'.events_by_aggregate
  unfolding record_event notify_subscribers
  record_event-IsLog top e s h k v = record {
    ascending = Ascending-append 0 top s.events e h.ascending k;
    indexed = λ agg. indexed_snoc agg e s h.indexed;
    numbered = λ agg. Numbered-snoc agg e s.events (h.numbered agg) v;
  }
