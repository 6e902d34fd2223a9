-- ===== src/EventStore/Reads.antt =====
-- What the queries return on a consistent store.
use draftea_payment.Prelude.{
  ℕ, zero, suc, ◌+◌, ◌-◌, ◌≤◌, ◌<◌, ◌≡◌, sym, ap, subst, ◌∙◌, ◌⊎◌, String, Int64, half, Bool, true,
  false, not, Option, none, some, List, [], ◌∷◌, ◌++◌, arith, Bool-cases, inl, inr, lookup_or,
  lookup, length, leb, ltb, keep, take, drop, leb→le, length-take-le, drop-drop, take-append-drop,
  drop_all, take_all, lt64, lt64_small, ok,
}
use draftea_payment.EventStore.Event.{Event, EventFilter, matches_filter}
use draftea_payment.EventStore.Memory.{
  Store, get_events, get_events_by_aggregate, apply_offset, apply_limit,
}
use draftea_payment.EventStore.Log.{
  of_aggregate, IsConsistent, Numbered, Ascending, length-of_aggregate-le,
}

module _ {D : Type 0} where
  -- In a numbered list the events from version `from` on are a suffix.
  keep_from_version :
      (n from : ℕ) (es : List (Event D))
      → Numbered n es
      → n + length es < half
      → from < half
      → keep (λ e. not (lt64 e.aggregate_version from)) es ≡ drop (from - suc n) es
  keep_from_version n from [] h k f = sym (drop_all (from - suc n) [] (omega arith))
  keep_from_version n from (e ∷ es) (version, later) k f =
      let tail = keep_from_version (suc n) from es later (omega arith) f in
      let signed = lt64_small e.aggregate_version from (omega arith) f in
      elim (Bool-cases (ltb (suc n) from)) [
        | inl behind ↦
            let before : lt64 e.aggregate_version from ≡ true = signed ∙ rw version behind in
            let more : from - suc n ≡ suc (from - suc (suc n)) = ground arith in
            rw (before, more) tail
        | inr reached ↦
            let after : lt64 e.aggregate_version from ≡ false = signed ∙ rw version reached in
            let all : from - suc n ≡ 0 = ground arith in
            let all' : from - suc (suc n) ≡ 0 = ground arith in
            rw (after, all) (ap (λ l. e ∷ l) (tail ∙ rw all'))
      ]

  lookup_of_lookup_or :
      (agg : String) (s : Store D) {es : List (Event D)}
      → lookup_or [] agg s.events_by_aggregate ≡ es
      → (lookup agg s.events_by_aggregate ≡ some es)
        ⊎ ((lookup agg s.events_by_aggregate ≡ none) × (es ≡ []))
  unfolding lookup_or
  lookup_of_lookup_or agg s h = ground arith

  -- GetEventsByAggregate returns the aggregate's events of the log from the given version on, in
  -- version order, none missing and none besides.
  pub get_events_by_aggregate_lem :
      (agg : String) (from : Int64) (s : Store D)
      → IsConsistent s
      → from < half
      → get_events_by_aggregate none agg from s ≡ ok (drop (from - 1) (of_aggregate agg s.events))
  unfolding get_events_by_aggregate
  get_events_by_aggregate_lem agg from s c h =
      elim (lookup_of_lookup_or agg s (c.is_log.indexed agg)) [
        | inl found ↦
            rw (found, get_events_by_aggregate)
              (ap ok (
                keep_from_version 0 from (of_aggregate agg s.events) (c.is_log.numbered agg)
                  (omega (
                    arith,
                    c.bounded,
                    length-of_aggregate-le s.sequence_counter s.events agg c.is_log.ascending,
                  ))
                  h))
        | inr (missing, nil) ↦
            rw (missing, nil, get_events_by_aggregate)
              (ap ok (sym (drop_all (from - 1) [] (omega arith))))
      ]

  Ascending-lower :
      (lo lo' hi : ℕ) (es : List (Event D)) → Ascending lo es hi → lo' ≤ lo → Ascending lo' es hi
  Ascending-lower lo lo' hi [] h k = omega arith
  Ascending-lower lo lo' hi (e ∷ es) h k = (omega arith, h.1)

  Ascending-keep :
      (p : Event D → Bool) (lo hi : ℕ) (es : List (Event D))
      → Ascending lo es hi
      → Ascending lo (keep p es) hi
  Ascending-keep p lo hi [] h = h
  Ascending-keep p lo hi (e ∷ es) h =
      let later = Ascending-keep p e.sequence_number hi es h.1 in
      elim (Bool-cases (p e)) [
        | inl passed ↦ rw passed (h.0, later)
        | inr failed ↦
            rw failed (Ascending-lower e.sequence_number lo hi (keep p es) later (omega arith))
      ]

  Ascending-drop :
      (n lo hi : ℕ) (es : List (Event D)) → Ascending lo es hi → Ascending lo (drop n es) hi
  Ascending-drop zero lo hi es h = h
  Ascending-drop (suc n) lo hi [] h = h
  Ascending-drop (suc n) lo hi (e ∷ es) h =
      Ascending-lower e.sequence_number lo hi (drop n es)
        (Ascending-drop n e.sequence_number hi es h.1) (omega arith)

  Ascending-le : (lo hi : ℕ) (es : List (Event D)) → Ascending lo es hi → lo ≤ hi
  Ascending-le lo hi [] h = h
  Ascending-le lo hi (e ∷ es) h = omega (arith, Ascending-le e.sequence_number hi es h.1)

  Ascending-take :
      (n lo hi : ℕ) (es : List (Event D)) → Ascending lo es hi → Ascending lo (take n es) hi
  Ascending-take zero lo hi es h = Ascending-le lo hi es h
  Ascending-take (suc n) lo hi [] h = h
  Ascending-take (suc n) lo hi (e ∷ es) h = (h.0, Ascending-take n e.sequence_number hi es h.1)

  apply_offset-Ascending :
      (o : Option Int64) (lo hi : ℕ) (es : List (Event D))
      → Ascending lo es hi
      → Ascending lo (apply_offset o es) hi
  unfolding apply_offset
  apply_offset-Ascending none lo hi es h = h
  apply_offset-Ascending (some k) lo hi es h = elim (Bool-cases (lt64 0 k)) [
    | inr unset ↦ rw unset h
    | inl positive ↦ elim (Bool-cases (leb (length es) k)) [
      | inl past ↦ rw (positive, past) (Ascending-le lo hi es h)
      | inr inside ↦ rw (positive, inside) (Ascending-drop k lo hi es h)
    ]
  ]

  apply_limit-Ascending :
      (o : Option Int64) (lo hi : ℕ) (es : List (Event D))
      → Ascending lo es hi
      → Ascending lo (apply_limit o es) hi
  unfolding apply_limit
  apply_limit-Ascending none lo hi es h = h
  apply_limit-Ascending (some k) lo hi es h = elim (Bool-cases (lt64 0 k)) [
    | inr unset ↦ rw unset h
    | inl positive ↦ elim (Bool-cases (ltb k (length es))) [
      | inl more ↦ rw (positive, more) (Ascending-take k lo hi es h)
      | inr fits ↦ rw (positive, fits) h
    ]
  ]

  -- GetEvents with any filter, offset and limit returns events in strictly rising sequence order.
  pub get_events-Ascending :
      (f : EventFilter) (s : Store D) {es : List (Event D)}
      → IsConsistent s
      → get_events none f s ≡ ok es
      → Ascending 0 es s.sequence_counter
  unfolding get_events
  get_events-Ascending f s {es} c h =
      let chosen = keep (λ e. matches_filter e f) s.events in
      let result : apply_limit f.limit (apply_offset f.offset chosen) ≡ es = cc h in
      subst (λ l. Ascending 0 l s.sequence_counter) result
        (apply_limit-Ascending f.limit 0 s.sequence_counter (apply_offset f.offset chosen) (
          apply_offset-Ascending f.offset 0 s.sequence_counter chosen (
            Ascending-keep (λ e. matches_filter e f) 0 s.sequence_counter s.events
              c.is_log.ascending)))

  apply_offset-drop :
      (k : ℕ) (es : List (Event D)) → k < half → apply_offset (some k) es ≡ drop k es
  unfolding apply_offset
  apply_offset-drop zero es h = rw (lt64_small 0 0 h h)
  apply_offset-drop (suc k) es h =
      let positive : lt64 0 (suc k) ≡ true = lt64_small 0 (suc k) (omega arith) h ∙ ground arith in
      elim (Bool-cases (leb (length es) (suc k))) [
        | inl past ↦ rw (positive, past) (sym (drop_all (suc k) es (leb→le _ _ past)))
        | inr inside ↦ rw (positive, inside)
      ]

  apply_limit-take :
      (n : ℕ) (es : List (Event D)) → 0 < n → n < half → apply_limit (some n) es ≡ take n es
  unfolding apply_limit
  apply_limit-take n es h k =
      let positive : lt64 0 n ≡ true = lt64_small 0 n (omega arith) k ∙ ground arith in
      elim (Bool-cases (ltb n (length es))) [
        | inl more ↦ rw (positive, more)
        | inr fits ↦ rw (positive, fits) (sym (take_all n es (ground arith)))
      ]

  -- A page of `n` events from `k` on, and what follows it from `k + n` on, make up all that
  -- GetEvents returns from `k` on: no page boundary loses or repeats an event.
  pub get_events_pages :
      (f : EventFilter) (k n : ℕ) (s : Store D)
      → 0 < n
      → k + n < half
      → (page rest : List (Event D)) × (get_events none
            (record f { offset = some k; limit = some n })
            s
          ≡ ok page)
        × (get_events none (record f { offset = some (k + n); limit = none }) s ≡ ok rest)
        × (get_events none (record f { offset = some k; limit = none }) s ≡ ok (page ++ rest))
        × (length page ≤ n)
  unfolding get_events matches_filter
  get_events_pages f k n s h room =
      let chosen = keep (λ e. matches_filter e f) s.events in
      let first = apply_offset-drop k chosen (omega arith) in
      (
        take n (drop k chosen),
        drop (k + n) chosen,
        ap ok
            (ap (apply_limit (some n)) first ∙ apply_limit-take n (drop k chosen) h (omega arith)),
        ap ok (unfold apply_limit in apply_offset-drop (k + n) chosen room),
        ap ok (
            unfold apply_limit in
            first ∙ sym (rw (← drop-drop k n chosen) (take-append-drop n (drop k chosen)))),
        length-take-le n (drop k chosen),
      )
