-- ===== src/EventStore/Batch.antt =====
-- AppendEvents against the log: a batch goes in whole, with consecutive numbers and versions, or
-- not at all but for the numbers that it used up.
use draftea_payment.Prelude.{
  ℕ, suc, ◌+◌, ◌<◌, ◌≡◌, refl, sym, ap, subst, ◌∙◌, String, Int64, half, true, false, none, some,
  List, [], ◌∷◌, ◌++◌, arith, str_eq, eq_iff, Bool-cases, inl, inr, lookup_or, insert,
  lookup_or-insert, length, length-append, add64, keep-append, map,
}
use mathlib.Core.List.{append-nil, append_assoc}
use draftea_payment.EventStore.Event.{Event}
use draftea_payment.EventStore.Memory.{
  Store, StoreError, conflict_at, record_event, notify_subscribers, stamp, assign_versions,
  record_events, last_version, append_batch, version_conflicts,
}
use draftea_payment.EventStore.Log.{
  of_aggregate, IsLog, IsConsistent, record_event-IsLog, of_aggregate_snoc,
}

module _ {D : Type 0} where
  -- Events of one aggregate with the versions after `v` and the numbers after `seq`.
  abbrev pub Stamped : String → ℕ → ℕ → List (Event D) → Type 0
  Stamped agg v seq [] = Unit
  Stamped agg v seq (e ∷ es) =
      (e.aggregate_id ≡ agg)
      × (e.aggregate_version ≡ suc v)
      × (e.sequence_number ≡ suc seq)
      × Stamped agg (suc v) (suc seq) es

  abbrev pub AllOf : String → List (Event D) → Type 0
  AllOf agg [] = Unit
  AllOf agg (e ∷ es) = (e.aggregate_id ≡ agg) × AllOf agg es

  -- What an event says, without the number, the version and the time that the store gives it.
  abbrev pub content : Event D → Event D
  content e = record e { sequence_number = 0; aggregate_version = 0; created_at = 0 }

  pub content-assign_versions :
      (clock : ℕ → ℕ) (v i seq : ℕ) (es : List (Event D))
      → map content (assign_versions clock v i seq es).0 ≡ map content es
  unfolding assign_versions stamp
  content-assign_versions clock v i seq [] = refl
  content-assign_versions clock v i seq (e ∷ es) =
      let rest = content-assign_versions clock v (suc i) (add64 seq 1) es in
      elim (Bool-cases (version_conflicts e (add64 (add64 v i) 1))) [
        | inl stop ↦ rw stop
        | inr pass ↦ rw pass (ap (λ cs. content e ∷ cs) rest)
      ]

  -- One round of the loop, where the counters are in range: `w` is the version before it.
  pub assign_versions_stop :
      (clock : ℕ → ℕ) (v i seq w : ℕ) (e : Event D) (es : List (Event D))
      → v + i ≡ w
      → w + 1 < half
      → version_conflicts e (suc w) ≡ true
      → assign_versions clock v i seq (e ∷ es)
        ≡ (e ∷ es, seq, some (conflict_at i (suc w) e.aggregate_version))
  unfolding assign_versions add64
  assign_versions_stop clock v i seq w e es eq h stop =
      let next : add64 (add64 v i) 1 ≡ suc w = unfold add64 in omega arith in rw (next, stop)

  pub assign_versions_go :
      (clock : ℕ → ℕ) (v i seq w : ℕ) (e : Event D) (es : List (Event D))
      → v + i ≡ w
      → w + 1 < half
      → seq + 1 < half
      → version_conflicts e (suc w) ≡ false
      → let rest = assign_versions clock v (suc i) (suc seq) es in
        assign_versions clock v i seq (e ∷ es)
        ≡ (stamp (suc seq) (suc w) (clock i) e ∷ rest.0, rest.1, rest.2)
  unfolding assign_versions
  assign_versions_go clock v i seq w e es eq h k pass =
      let next : add64 (add64 v i) 1 ≡ suc w = unfold add64 in omega arith in
      let number : add64 seq 1 ≡ suc seq = unfold add64 in omega arith in rw (next, number, pass)

  stamp-Stamped :
      (agg : String) (w seq now : ℕ) (e : Event D) (es : List (Event D))
      → e.aggregate_id ≡ agg
      → Stamped agg (suc w) (suc seq) es
      → Stamped agg w seq (stamp (suc seq) (suc w) now e ∷ es)
  unfolding stamp
  stamp-Stamped agg w seq now e es h k = (h, refl, refl, k)

  pub assign_versions-Stamped :
      (clock : ℕ → ℕ) (agg : String) (v i seq w : ℕ) (es : List (Event D))
      → v + i ≡ w
      → AllOf agg es
      → w + length es < half
      → seq + length es < half
      → (assign_versions clock v i seq es).2 ≡ none
      → let r = assign_versions clock v i seq es in
        Stamped agg w seq r.0 × (r.1 ≡ seq + length es) × (length r.0 ≡ length es)
  assign_versions-Stamped clock agg v i seq w [] eq a h k done =
      unfold assign_versions in (tt, omega arith, refl)
  assign_versions-Stamped clock agg v i seq w (e ∷ es) eq a h k done =
      elim (Bool-cases (version_conflicts e (suc w))) [
        | inl stop ↦
            absurd
              (cc (ap (λ r. r.2) (assign_versions_stop clock v i seq w e es eq (omega arith) stop)))
        | inr pass ↦
            let go = assign_versions_go clock v i seq w e es eq (omega arith) (omega arith) pass in
            let (marks, counter, count) =
              assign_versions-Stamped clock agg v (suc i) (suc seq) (suc w) es (omega arith) a.1
                (omega arith) (omega arith) (sym (ap (λ r. r.2) go) ∙ done) in
            rw go (stamp-Stamped agg w seq (clock i) e _ a.0 marks, omega arith, omega arith)
      ]

  -- A conflict at index `j` has used up the numbers of the events before it.
  pub assign_versions_conflict :
      (clock : ℕ → ℕ) (v i seq w : ℕ) (es : List (Event D)) {x : StoreError}
      → v + i ≡ w
      → w + length es < half
      → seq + length es < half
      → (assign_versions clock v i seq es).2 ≡ some x
      → (j : ℕ) × (got : Int64) × (x ≡ conflict_at (i + j) (suc (w + j)) got)
        × (j < length es)
        × ((assign_versions clock v i seq es).1 ≡ seq + j)
  assign_versions_conflict clock v i seq w [] eq h k found =
      absurd (unfold assign_versions in cc found)
  assign_versions_conflict clock v i seq w (e ∷ es) eq h k found =
      elim (Bool-cases (version_conflicts e (suc w))) [
        | inl stop ↦
            let at = assign_versions_stop clock v i seq w e es eq (omega arith) stop in
            (
              0,
              e.aggregate_version,
              ground (arith, ap (λ r. r.2) at),
              omega arith,
              ground (arith, ap (λ r. r.1) at),
            )
        | inr pass ↦
            let go = assign_versions_go clock v i seq w e es eq (omega arith) (omega arith) pass in
            let (j, got, same, below, counter) =
              assign_versions_conflict clock v (suc i) (suc seq) (suc w) es (omega arith)
                (omega arith) (omega arith) (sym (ap (λ r. r.2) go) ∙ found) in
            (suc j, got, ground arith, omega arith, ground (arith, ap (λ r. r.1) go))
      ]

  pub events-record_events :
      (es : List (Event D)) (s : Store D) → (record_events es s).events ≡ s.events ++ es
  unfolding record_events notify_subscribers record_event
  events-record_events [] s = sym (append-nil s.events)
  events-record_events (e ∷ es) s = events-record_events es _ ∙ append_assoc s.events (e ∷ []) es

  keep_Stamped :
      (agg : String) (v seq : ℕ) (es : List (Event D))
      → Stamped agg v seq es
      → of_aggregate agg es ≡ es
  keep_Stamped agg v seq [] h = refl
  keep_Stamped agg v seq (e ∷ es) h =
      ground (arith, eq_iff e.aggregate_id agg, keep_Stamped agg (suc v) (suc seq) es h.3)

  keep_Stamped_other :
      (agg other : String) (v seq : ℕ) (es : List (Event D))
      → Stamped agg v seq es
      → str_eq agg other ≡ false
      → of_aggregate other es ≡ []
  keep_Stamped_other agg other v seq [] h d = refl
  keep_Stamped_other agg other v seq (e ∷ es) h d =
      ground (arith, keep_Stamped_other agg other (suc v) (suc seq) es h.3)

  length-of_aggregate_record :
      (agg : String) (e : Event D) (s : Store D)
      → e.aggregate_id ≡ agg
      → length (of_aggregate agg (notify_subscribers e (record_event e s)).events)
        ≡ suc (length (of_aggregate agg s.events))
  unfolding notify_subscribers record_event
  length-of_aggregate_record agg e s h =
      rw (of_aggregate_snoc agg s.events e, (eq_iff e.aggregate_id agg).1 h)
        (omega (arith, length-append (of_aggregate agg s.events) (e ∷ [])))

  pub record_events-IsLog :
      (agg : String) (v seq : ℕ) (es : List (Event D)) (s : Store D)
      → IsLog seq s.events s.events_by_aggregate
      → Stamped agg v seq es
      → length (of_aggregate agg s.events) ≡ v
      → let s' = record_events es s in IsLog (seq + length es) s'.events s'.events_by_aggregate
  unfolding record_events
  record_events-IsLog agg v seq [] s l h n =
      subst (λ t. IsLog t s.events s.events_by_aggregate) (omega arith) l
  record_events-IsLog agg v seq (e ∷ es) s l (here, version, number, later) n =
      let l' = record_event-IsLog seq e s l (omega arith) (version ∙ ap suc (sym n) ∙ rw here) in
      let s' = notify_subscribers e (record_event e s) in
      let n' : length (of_aggregate agg s'.events) ≡ suc v =
        length-of_aggregate_record agg e s here ∙ ap suc n in
      subst (λ t. IsLog t (record_events es s').events (record_events es s').events_by_aggregate)
        (omega arith)
        (record_events-IsLog agg (suc v) (suc seq) es s'
          (subst (λ t. IsLog t s'.events s'.events_by_aggregate) number l') later n')

  pub counter-record_events :
      (es : List (Event D)) (s : Store D)
      → (record_events es s).sequence_counter ≡ s.sequence_counter
  unfolding record_events notify_subscribers record_event
  counter-record_events [] s = refl
  counter-record_events (e ∷ es) s = counter-record_events es _

  pub versions-record_events :
      (es : List (Event D)) (s : Store D)
      → (record_events es s).aggregate_versions ≡ s.aggregate_versions
  unfolding record_events notify_subscribers record_event
  versions-record_events [] s = refl
  versions-record_events (e ∷ es) s = versions-record_events es _

  last_version-Stamped :
      (agg : String) (v w seq : ℕ) (es : List (Event D))
      → Stamped agg w seq es
      → v ≡ w
      → last_version v es ≡ w + length es
  last_version-Stamped agg v w seq [] h eq = omega arith
  last_version-Stamped agg v w seq (e ∷ es) h eq =
      last_version-Stamped agg e.aggregate_version (suc w) (suc seq) es h.3 h.1 ∙ omega arith

  pub counted_batch :
      (agg other : String) (seq : ℕ) (es : List (Event D)) (s : Store D)
      → IsConsistent s
      → Stamped agg (length (of_aggregate agg s.events)) seq es
      → lookup_or 0 other
          (insert agg (last_version (lookup_or 0 agg s.aggregate_versions) es) s.aggregate_versions)
        ≡ length (of_aggregate other (s.events ++ es))
  counted_batch agg other seq es s c h = elim (Bool-cases (str_eq agg other)) [
    | inl same ↦
        rw (lookup_or-insert, same, keep-append (λ e. str_eq e.aggregate_id other) s.events es)
          (last_version-Stamped agg _ _ seq es h (c.counted agg)
            ∙ sym (
                subst
                  (λ a.
                    length (of_aggregate a s.events ++ of_aggregate a es)
                    ≡ length (of_aggregate agg s.events) + length es)
                  ((eq_iff agg other).0 same)
                  (rw (keep_Stamped agg _ seq es h)
                    (length-append (of_aggregate agg s.events) es))))
    | inr differs ↦
        rw
          (
            lookup_or-insert,
            differs,
            keep-append (λ e. str_eq e.aggregate_id other) s.events es,
            keep_Stamped_other agg other _ seq es h differs,
            append-nil (of_aggregate other s.events),
          )
          (c.counted other)
  ]

  -- What AppendEvents does below its checks, by how its first loop ends.
  pub append_batch_conflict :
      (clock : ℕ → ℕ) (agg : String) (es : List (Event D)) (s : Store D) {x : StoreError}
      → (assign_versions clock (lookup_or 0 agg s.aggregate_versions) 0 s.sequence_counter es).2
        ≡ some x
      → let r =
          assign_versions clock (lookup_or 0 agg s.aggregate_versions) 0 s.sequence_counter es in
        append_batch clock agg es s ≡ (record s { sequence_counter = r.1 }, r.0, some x)
  unfolding append_batch
  append_batch_conflict clock agg es s h = rw (h, append_batch)

  pub append_batch_stored :
      (clock : ℕ → ℕ) (agg : String) (es : List (Event D)) (s : Store D)
      → (assign_versions clock (lookup_or 0 agg s.aggregate_versions) 0 s.sequence_counter es).2
        ≡ none
      → let r =
          assign_versions clock (lookup_or 0 agg s.aggregate_versions) 0 s.sequence_counter es in
        let s' = record_events r.0 (record s { sequence_counter = r.1 }) in
        append_batch clock agg es s ≡ (
          record s' {
            aggregate_versions =
                insert agg
                  (last_version (lookup_or 0 agg s.aggregate_versions) r.0)
                  s'.aggregate_versions;
          },
          r.0,
          none,
        )
  unfolding append_batch
  append_batch_stored clock agg es s h = rw (h, append_batch)
