-- ===== src/EventStore/Append.antt =====
-- AppendEvent against the log: what each outcome does, and that the log stays consistent.
use draftea_payment.Prelude.{
  CtxError, ℕ, suc, ◌+◌, ◌≤◌, ◌<◌, ◌≡◌, refl, ap, ◌∙◌, ◌≢◌, word, ◌↔◌, ◌⊎◌, String, Int64, half,
  true, false, Option, none, some, [], ◌∷◌, ◌++◌, arith, str_eq, eq_iff, eq_refl, Bool-cases, inl,
  inr, lookup_or, insert, lookup_or-insert, length, length-append, add64, add64_small, lt64,
  lt64_small,
}
use draftea_payment.EventStore.Event.{Event}
use draftea_payment.EventStore.Memory.{
  Store, StoreError, conflict, store_closed, missing_fields, record_event, notify_subscribers,
  stamp, commit_event, append_event, version_conflicts, has_required,
}
use draftea_payment.EventStore.Log.{
  of_aggregate, of_aggregate_snoc, IsConsistent, record_event-IsLog, length-of_aggregate-le,
}

unsigned_iff : (v : Int64) → v < word → (lt64 0 v ≡ false) ↔ ((v ≡ 0) ⊎ (half ≤ v))
unfolding lt64
unsigned_iff v int = (λ h. ground arith, λ h. ground arith)

module _ {D : Type 0} where
  -- The number and the version that the next event of an aggregate gets, before they wrap around.
  next_numbers :
      (agg : String) (s : Store D)
      → IsConsistent s
      → s.sequence_counter + 1 < half
      → (add64 s.sequence_counter 1 ≡ suc s.sequence_counter)
        × (add64 (lookup_or 0 agg s.aggregate_versions) 1
            ≡ suc (length (of_aggregate agg s.events)))
  next_numbers agg s c h =
      let n = length-of_aggregate-le s.sequence_counter s.events agg c.is_log.ascending in
      (
        add64_small s.sequence_counter 1 h ∙ omega arith,
        rw (c.counted agg)
            (add64_small (length (of_aggregate agg s.events)) 1 (omega arith) ∙ omega arith),
      )

  counted_snoc :
      (agg : String) (e : Event D) (s : Store D)
      → ((a : String) → lookup_or 0 a s.aggregate_versions ≡ length (of_aggregate a s.events))
      → e.aggregate_version ≡ suc (length (of_aggregate e.aggregate_id s.events))
      → lookup_or 0 agg (insert e.aggregate_id e.aggregate_version s.aggregate_versions)
        ≡ length (of_aggregate agg (s.events ++ e ∷ []))
  counted_snoc agg e s h v = elim (Bool-cases (str_eq e.aggregate_id agg)) [
    | inl same ↦
        rw (lookup_or-insert, of_aggregate_snoc agg s.events e, same)
          (v
            ∙ ap (λ a. suc (length (of_aggregate a s.events))) ((eq_iff e.aggregate_id agg).0 same)
            ∙ omega (arith, length-append (of_aggregate agg s.events) (e ∷ [])))
    | inr other ↦ rw (lookup_or-insert, of_aggregate_snoc agg s.events e, other) (h agg)
  ]

  -- What is appended is numbered next in the log and next in its aggregate.
  pub commit_event-IsConsistent :
      (now : ℕ) (e : Event D) (s : Store D)
      → IsConsistent s
      → s.sequence_counter + 1 < half
      → IsConsistent (commit_event now e s).0
  unfolding commit_event stamp record_event notify_subscribers
  commit_event-IsConsistent now e s c h =
      let (seq, version) = next_numbers e.aggregate_id s c h in
      let e' = (commit_event now e s).1 in
      record {
        is_log = record_event-IsLog s.sequence_counter e' s c.is_log (omega (arith, seq)) version;
        counted = λ agg. counted_snoc agg e' s c.counted version;
        bounded = omega (arith, seq);
      }

  pub append_event_outcome :
      (now : ℕ) (e : Event D) (s : Store D)
      → ((x : StoreError) × (append_event none now e s ≡ (s, e, some x)))
        ⊎ (append_event none now e s ≡ ((commit_event now e s).0, (commit_event now e s).1, none))
  unfolding append_event
  append_event_outcome now e s = elim (Bool-cases s.closed) [
    | inl shut ↦ inl (store_closed, rw shut)
    | inr live ↦ elim (Bool-cases (has_required e)) [
      | inr lacking ↦ inl (missing_fields, rw (live, lacking))
      | inl full ↦
          elim (Bool-cases
            (version_conflicts e (add64 (lookup_or 0 e.aggregate_id s.aggregate_versions) 1))) [
              | inl late ↦ inl (
                conflict (add64 (lookup_or 0 e.aggregate_id s.aggregate_versions) 1)
                    e.aggregate_version,
                rw (live, full, late),
              )
              | inr fresh ↦ inr (rw (live, full, fresh))
            ]
    ]
  ]

  -- Whatever the outcome of AppendEvent, the store stays consistent, as long as the counter has
  -- not reached the end of its range.
  pub append_event-IsConsistent :
      (ctx : Option CtxError) (now : ℕ) (e : Event D) (s : Store D)
      → IsConsistent s
      → s.sequence_counter + 1 < half
      → IsConsistent (append_event ctx now e s).0
  append_event-IsConsistent (some x) now e s c h = unfold append_event in c
  append_event-IsConsistent none now e s c h = elim (append_event_outcome now e s) [
    | inl (x, refused) ↦ rw refused c
    | inr stored ↦ rw stored (commit_event-IsConsistent now e s c h)
  ]

  -- AppendEvent that returns an error has changed neither the store nor the event.
  pub append_event_error :
      (ctx : Option CtxError) (now : ℕ) (e : Event D) (s : Store D) {x : StoreError}
      → (append_event ctx now e s).2 ≡ some x
      → ((append_event ctx now e s).0 ≡ s) × ((append_event ctx now e s).1 ≡ e)
  append_event_error (some y) now e s h = unfold append_event in (refl, refl)
  append_event_error none now e s h = elim (append_event_outcome now e s) [
    | inl (x, refused) ↦ (rw refused, rw refused)
    | inr stored ↦ absurd (cc (ap (λ r. r.2) stored))
  ]

  abbrev IsAccepted : Event D → Store D → Type 0
  IsAccepted e s =
      (s.closed ≡ false)
      × (has_required e ≡ true)
      × ((lt64 0 e.aggregate_version ≡ false)
          ⊎ (e.aggregate_version ≡ add64 (lookup_or 0 e.aggregate_id s.aggregate_versions) 1))

  -- Under a live context AppendEvent succeeds exactly when the store is open, the event names its
  -- aggregate, type and kind, and it either expects no version (0 or less) or the next one.
  append_event_ok_iff :
      (now : ℕ) (e : Event D) (s : Store D)
      → ((append_event none now e s).2 ≡ none) ↔ IsAccepted e s
  unfolding append_event version_conflicts
  append_event_ok_iff now e s = (λ h. (ground arith, ground arith, ground arith), λ h. ground arith)

  -- What AppendEvent asks of an event: `v` is the number of its aggregate's events in the log.
  abbrev pub IsNext : Event D → Store D → Type 0
  IsNext e s =
      (s.closed ≡ false)
      × (e.aggregate_id ≢ "")
      × (e.aggregate_type ≢ "")
      × (e.event_type ≢ "")
      × ((e.aggregate_version ≡ 0)
          ⊎ (half ≤ e.aggregate_version)
          ⊎ (e.aggregate_version ≡ length (of_aggregate e.aggregate_id s.events) + 1))

  required_iff :
      (e : Event D)
      → (has_required e ≡ true)
        ↔ ((e.aggregate_id ≢ "") × (e.aggregate_type ≢ "") × (e.event_type ≢ ""))
  required_iff e =
      let id = eq_iff e.aggregate_id "" in
      let type = eq_iff e.aggregate_type "" in
      let kind = eq_iff e.event_type "" in (λ h. ground arith, λ h. ground arith)

  -- Under a live context, on a consistent store whose numbers are not used up, AppendEvent succeeds
  -- exactly when the store is open, the event names its aggregate, its type and its kind, and the
  -- version that it expects is 0, negative, or one more than the log has events of its aggregate.
  pub append_event_ok-IsNext :
      (now : ℕ) (e : Event D) (s : Store D)
      → IsConsistent s
      → s.sequence_counter + 1 < half
      → e.aggregate_version < word
      → ((append_event none now e s).2 ≡ none) ↔ IsNext e s
  append_event_ok-IsNext now e s c room int =
      let (_, next) = next_numbers e.aggregate_id s c room in
      let same = append_event_ok_iff now e s in
      let named = required_iff e in
      let signed = unsigned_iff e.aggregate_version int in
      (
        λ h.
            let (live, full, version) = same.0 h in
            let (id, type, kind) = named.0 full in
            (
              live,
              id,
              type,
              kind,
              elim version [
                | inl free ↦ elim (signed.0 free) [ inl z ↦ inl z | inr neg ↦ inr (inl neg) ]
                | inr exact ↦ inr (inr (omega (arith, exact, next)))
              ],
            ),
        λ h.
            let (live, id, type, kind, version) = h in
            same.1 (
              live,
              named.1 (id, type, kind),
              elim version [
                | inl z ↦ inl (signed.1 (inl z))
                | inr (inl neg) ↦ inl (signed.1 (inr neg))
                | inr (inr exact) ↦ inr (omega (arith, exact, next))
              ],
            ),
      )

  version-commit_event :
      (now : ℕ) (e : Event D) (s : Store D)
      → lookup_or 0 e.aggregate_id (commit_event now e s).0.aggregate_versions
        ≡ add64 (lookup_or 0 e.aggregate_id s.aggregate_versions) 1
  unfolding commit_event stamp record_event notify_subscribers
  version-commit_event now e s = rw (lookup_or-insert, eq_refl)

  append_event_late :
      (now : ℕ) (e : Event D) (s : Store D) (expected : Int64)
      → s.closed ≡ false
      → has_required e ≡ true
      → 0 < e.aggregate_version
      → e.aggregate_version < half
      → add64 (lookup_or 0 e.aggregate_id s.aggregate_versions) 1 ≡ expected
      → e.aggregate_version ≢ expected
      → append_event none now e s ≡ (s, e, some (conflict expected e.aggregate_version))
  unfolding append_event version_conflicts
  append_event_late now e s expected live full pos small next differs =
      let signed : lt64 0 e.aggregate_version ≡ true =
        lt64_small 0 e.aggregate_version (omega arith) small ∙ ground arith in
      ground arith

  took_next :
      (e : Event D) (next : Int64)
      → 0 < e.aggregate_version
      → e.aggregate_version < half
      → (lt64 0 e.aggregate_version ≡ false) ⊎ (e.aggregate_version ≡ next)
      → e.aggregate_version ≡ next
  took_next e next pos small version =
      let signed = lt64_small 0 e.aggregate_version (omega arith) small in ground arith

  pub append_event_stored :
      (now : ℕ) (e : Event D) (s : Store D)
      → (append_event none now e s).2 ≡ none
      → append_event none now e s ≡ ((commit_event now e s).0, (commit_event now e s).1, none)
  append_event_stored now e s h = elim (append_event_outcome now e s) [
    | inl (x, refused) ↦ absurd (cc (ap (λ r. r.2) refused))
    | inr stored ↦ stored
  ]

  -- An event that expects the version that another one has just taken is refused, with the
  -- versions in the message: of two writers that read the same version the first wins.
  pub append_event_race :
      (now now' : ℕ) (e e' : Event D) (s : Store D)
      → IsConsistent s
      → s.sequence_counter + 1 < half
      → 0 < e.aggregate_version
      → e.aggregate_version < half
      → e'.aggregate_version ≡ e.aggregate_version
      → e'.aggregate_id ≡ e.aggregate_id
      → has_required e' ≡ true
      → (append_event none now e s).2 ≡ none
      → let s' = (append_event none now e s).0 in
        append_event none now' e' s'
        ≡ (s', e', some (conflict (e.aggregate_version + 1) e.aggregate_version))
  append_event_race now now' e e' s c h pos small same_version same_id full won =
      let (live, _, version) = (append_event_ok_iff now e s).0 won in
      let (_, next) = next_numbers e.aggregate_id s c h in
      let took : e.aggregate_version ≡ add64 (lookup_or 0 e.aggregate_id s.aggregate_versions) 1 =
        took_next e _ pos small version in
      let stored = append_event_stored now e s won in
      let s' = (commit_event now e s).0 in
      let late =
        append_event_late now' e' s' (e.aggregate_version + 1)
          (unfold commit_event record_event notify_subscribers in live) full (omega arith)
          (omega arith)
          (rw (same_id, version-commit_event now e s, ← took) (unfold add64 in omega arith))
          (omega arith) in
      rw stored (late ∙ rw same_version)
