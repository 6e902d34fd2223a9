-- ===== src/EventStore/Atomic.antt =====
-- AppendEvents as its callers see it: what a refused and what an accepted batch leaves behind.
use draftea_payment.Prelude.{
  CtxError, ℕ, suc, ◌+◌, ◌≤◌, ◌<◌, ◌≡◌, refl, sym, ap, subst, ◌∙◌, ◌⊎◌, String, Int64, half, false,
  not, Option, none, some, List, [], ◌∷◌, ◌++◌, arith, str_eq, eq_iff, Bool-cases, Option-cases,
  inl, inr, lookup_or, insert, length, any, map,
}
use mathlib.Core.List.{append-nil}
use draftea_payment.EventStore.Event.{Event}
use draftea_payment.EventStore.Memory.{
  Store, StoreError, ctx_error, mixed_aggregates, store_closed, conflict_at, assign_versions,
  append_batch, append_events, record_events, last_version,
}
use draftea_payment.EventStore.Log.{
  of_aggregate, IsConsistent, length-of_aggregate-le, Ascending-weaken, IsLog,
}
use draftea_payment.EventStore.Batch.{
  Stamped, AllOf, content, content-assign_versions, assign_versions-Stamped,
  assign_versions_conflict, events-record_events, record_events-IsLog, counter-record_events,
  versions-record_events, counted_batch, append_batch_conflict, append_batch_stored,
}

module _ {D : Type 0} where
  -- A higher counter is no inconsistency.
  raise-IsConsistent :
      (n : ℕ) (s : Store D)
      → IsConsistent s
      → s.sequence_counter ≤ n
      → n < half
      → IsConsistent (record s { sequence_counter = n })
  raise-IsConsistent n s c h k = record {
    is_log = record {
      ascending = Ascending-weaken 0 s.sequence_counter n s.events c.is_log.ascending h;
      indexed = c.is_log.indexed;
      numbered = c.is_log.numbered;
    };
    counted = c.counted;
    bounded = k;
  }

  stored_batch-IsConsistent :
      (agg : String) (es : List (Event D)) (s : Store D) (seq : ℕ)
      → IsConsistent s
      → Stamped agg (length (of_aggregate agg s.events)) s.sequence_counter es
      → seq ≡ s.sequence_counter + length es
      → seq < half
      → let s' = record_events es (record s { sequence_counter = seq }) in
        IsConsistent (record s' {
          aggregate_versions =
              insert agg
                (last_version (lookup_or 0 agg s.aggregate_versions) es)
                s'.aggregate_versions;
        })
  stored_batch-IsConsistent agg es s seq c marks total room =
      let base = record s { sequence_counter = seq } in
      let s' = record_events es base in
      let counter = counter-record_events es base in
      record {
        is_log =
            subst (λ t. IsLog t s'.events s'.events_by_aggregate) (sym total ∙ sym counter)
              (record_events-IsLog agg _ s.sequence_counter es base c.is_log marks refl);
        counted = λ other.
            rw (versions-record_events es base, events-record_events es base)
              (counted_batch agg other s.sequence_counter es s c marks);
        bounded = omega arith;
      }

  module _ (clock : ℕ → ℕ) (agg : String) (es : List (Event D)) (s : Store D) (c : IsConsistent s)
      (own : AllOf agg es) (room : s.sequence_counter + length es < half) where
    versions_fit : length (of_aggregate agg s.events) + length es < half
    versions_fit =
        omega (arith, length-of_aggregate-le s.sequence_counter s.events agg c.is_log.ascending)

    -- A refused batch stopped at a conflict at some index `j`, and has moved the counter by `j`.
    pub append_batch_refused :
        {x : StoreError}
        → (append_batch clock agg es s).2 ≡ some x
        → (j : ℕ) × (got : Int64) × (x
            ≡ conflict_at j (suc (length (of_aggregate agg s.events) + j)) got)
          × (j < length es)
          × ((append_batch clock agg es s).0
              ≡ record s { sequence_counter = s.sequence_counter + j })
    append_batch_refused {x} h =
        elim (Option-cases
          (assign_versions clock (lookup_or 0 agg s.aggregate_versions) 0 s.sequence_counter
            es).2) [
              | inl done ↦ absurd (cc (h, ap (λ r. r.2) (append_batch_stored clock agg es s done)))
              | inr (y, found) ↦
                  let stopped = append_batch_conflict clock agg es s found in
                  let (j, got, same, below, counter) =
                    assign_versions_conflict clock (lookup_or 0 agg s.aggregate_versions) 0
                      s.sequence_counter (length (of_aggregate agg s.events)) es
                      (omega (arith, c.counted agg)) versions_fit room found in
                  (j, got, ground (arith, ap (λ r. r.2) stopped), below, rw stopped (rw counter))
            ]

    -- An accepted batch stands at the end of the log, stamped with the next numbers and versions.
    pub append_batch_accepted :
        (append_batch clock agg es s).2 ≡ none
        → let (s', es', _) = append_batch clock agg es s in
          IsConsistent s'
          × (s'.events ≡ s.events ++ es')
          × Stamped agg (length (of_aggregate agg s.events)) s.sequence_counter es'
          × (length es' ≡ length es)
          × (s'.sequence_counter ≡ s.sequence_counter + length es)
          × (map content es' ≡ map content es)
    append_batch_accepted h =
        elim (Option-cases
          (assign_versions clock (lookup_or 0 agg s.aggregate_versions) 0 s.sequence_counter
            es).2) [
              | inr (y, found) ↦
                  absurd (cc (h, ap (λ r. r.2) (append_batch_conflict clock agg es s found)))
              | inl done ↦
                  let r =
                    assign_versions clock (lookup_or 0 agg s.aggregate_versions) 0
                      s.sequence_counter es in
                  let (marks, counter, count) =
                    assign_versions-Stamped clock agg (lookup_or 0 agg s.aggregate_versions) 0
                      s.sequence_counter (length (of_aggregate agg s.events)) es
                      (omega (arith, c.counted agg)) own versions_fit room done in
                  rw (append_batch_stored clock agg es s done) (
                    stored_batch-IsConsistent agg r.0 s r.1 c marks (omega arith) (omega arith),
                    events-record_events r.0 (record s { sequence_counter = r.1 }),
                    marks,
                    count,
                    counter-record_events r.0 (record s { sequence_counter = r.1 }) ∙ counter,
                    content-assign_versions clock (lookup_or 0 agg s.aggregate_versions) 0
                        s.sequence_counter es,
                  )
            ]

  any-AllOf :
      (agg : String) (es : List (Event D))
      → any (λ e. not (str_eq e.aggregate_id agg)) es ≡ false
      → AllOf agg es
  any-AllOf agg [] h = tt
  any-AllOf agg (e ∷ es) h = ground (arith, eq_iff e.aggregate_id agg, any-AllOf agg es)

  -- The calls that do not reach the loops of AppendEvents leave the store alone; the others are
  -- a batch of one aggregate.
  append_events_cases :
      (ctx : Option CtxError) (clock : ℕ → ℕ) (es : List (Event D)) (s : Store D)
      → ((r : Option StoreError) × (append_events ctx clock es s ≡ (s, es, r))
          × ((r ≡ none) → es ≡ []))
        ⊎ ((agg : String) × (append_events ctx clock es s ≡ append_batch clock agg es s)
            × AllOf agg es)
  append_events_cases (some x) clock es s =
      inl (some (ctx_error x), unfold append_events in refl, λ h. absurd (cc h))
  append_events_cases none clock [] s = inl (none, unfold append_events in refl, λ h. refl)
  append_events_cases none clock (e ∷ es) s =
      elim (Bool-cases (any (λ e'. not (str_eq e'.aggregate_id e.aggregate_id)) (e ∷ es))) [
        | inl mixed ↦
            inl (some mixed_aggregates, unfold append_events in rw mixed, λ h. absurd (cc h))
        | inr pure ↦ elim (Bool-cases s.closed) [
          | inl shut ↦
              inl (some store_closed, unfold append_events in rw (pure, shut), λ h. absurd (cc h))
          | inr live ↦ inr (
            e.aggregate_id,
            unfold append_events in rw (pure, live),
            any-AllOf e.aggregate_id (e ∷ es) pure,
          )
        ]
      ]

  -- A batch that AppendEvents refuses, for whatever reason, leaves no trace in the log, its index,
  -- the versions, the snapshots or the subscriptions: at most the sequence
  -- counter has moved, by no more than the length of the batch, if a store that is consistent has
  -- room for the batch.
  pub append_events_refused :
      (ctx : Option CtxError) (clock : ℕ → ℕ) (es : List (Event D)) (s : Store D) {x : StoreError}
      → IsConsistent s
      → s.sequence_counter + length es < half
      → (append_events ctx clock es s).2 ≡ some x
      → (k : ℕ) × (k ≤ length es)
        × ((append_events ctx clock es s).0
            ≡ record s { sequence_counter = s.sequence_counter + k })
  append_events_refused ctx clock es s c room h = elim (append_events_cases ctx clock es s) [
    | inl (r, same, _) ↦
        (0, omega arith, rw same (ap (λ n. record s { sequence_counter = n }) (omega arith)))
    | inr (agg, batch, own) ↦
        let (k, got, _, below, changed) =
          append_batch_refused clock agg es s c own room (sym (ap (λ t. t.2) batch) ∙ h) in
        (k, omega arith, rw batch changed)
  ]

  -- A batch that AppendEvents accepts is appended to the log, event by event in its order, each with
  -- what it says unchanged but for its number, its version and its time; the events are numbered on
  -- from the sequence counter and versioned on from their aggregate's last version. The store is
  -- consistent before the call and has room for the batch.
  pub append_events_accepted :
      (ctx : Option CtxError) (clock : ℕ → ℕ) (es : List (Event D)) (s : Store D)
      → IsConsistent s
      → s.sequence_counter + length es < half
      → (append_events ctx clock es s).2 ≡ none
      → let (s', es', _) = append_events ctx clock es s in
        (agg : String) × AllOf agg es
        × (s'.events ≡ s.events ++ es')
        × Stamped agg (length (of_aggregate agg s.events)) s.sequence_counter es'
        × (length es' ≡ length es)
        × (s'.sequence_counter ≡ s.sequence_counter + length es)
        × (map content es' ≡ map content es)
  append_events_accepted ctx clock es s c room h = elim (append_events_cases ctx clock es s) [
    | inl (r, same, empty) ↦
        let nil = empty (sym (ap (λ t. t.2) same) ∙ h) in
        (
          "",
          rw nil tt,
          rw (same, nil) (sym (append-nil s.events)),
          rw (same, nil) tt,
          rw same,
          rw (same, nil) (omega arith),
          rw same,
        )
    | inr (agg, batch, own) ↦
        let (_, log, marks, count, counter, kept) =
          append_batch_accepted clock agg es s c own room (sym (ap (λ t. t.2) batch) ∙ h) in
        (agg, own, rw batch log, rw batch marks, rw batch count, rw batch counter, rw batch kept)
  ]

  -- Whatever the outcome of AppendEvents, the store stays consistent.
  pub append_events-IsConsistent :
      (ctx : Option CtxError) (clock : ℕ → ℕ) (es : List (Event D)) (s : Store D)
      → IsConsistent s
      → s.sequence_counter + length es < half
      → IsConsistent (append_events ctx clock es s).0
  append_events-IsConsistent ctx clock es s c room = elim (append_events_cases ctx clock es s) [
    | inl (r, same, _) ↦ rw same c
    | inr (agg, batch, own) ↦ elim (Option-cases (append_batch clock agg es s).2) [
      | inl done ↦ rw batch (append_batch_accepted clock agg es s c own room done).0
      | inr (x, refused) ↦
          let (j, _, _, below, changed) = append_batch_refused clock agg es s c own room refused in
          rw (batch, changed)
            (raise-IsConsistent (s.sequence_counter + j) s c (omega arith) (omega arith))
    ]
  ]
