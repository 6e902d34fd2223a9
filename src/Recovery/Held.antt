-- ===== src/Recovery/Held.antt =====
-- What SendToDLQ promises: one entry for an event, within the limit.
use draftea_payment.Prelude.{
  ℕ, ◌+◌, ◌≤◌, ◌<◌, ◌≡◌, ◌-◌, refl, sym, ap, ◌∙◌, subst, String, Int64, half, true, false, Option,
  none, some, List, [], ◌∷◌, ◌++◌, arith, length, length-append, lt64, lt64_small, Bool-cases,
  Option-cases, inl, inr, str_eq, some-injective, ltb, drop, eq_refl,
}
use draftea_payment.EventStore.Event.{Event}
use draftea_payment.Recovery.Substring.{Text}
use draftea_payment.Recovery.DeadLetters.{
  FailedEvent, DeadLetterQueue, DlqStorage, DlqError, returned, fail_again, failed_event,
  update_failed, push_failed, take_failed, send_to_dlq, not_persisted, not_stored,
}
use draftea_payment.Recovery.Queue.{
  Absent, NoRepeats, NoRepeats-snoc, ids, ids-append, ids-update_failed, update_failed-Absent,
  length-ids,
}

module _ {D : Type 0} where
  take_failed_last :
      (fs : List (FailedEvent D)) (f : FailedEvent D)
      → Absent f.original_event.id (ids fs)
      → take_failed f.original_event.id (fs ++ f ∷ []) ≡ some (f, fs)
  unfolding take_failed
  take_failed_last [] f h = let own = eq_refl f.original_event.id in rw own refl
  take_failed_last (x ∷ fs) f h = rw (h.0, take_failed, take_failed_last fs f h.1, take_failed) refl

  take_failed-update_failed :
      (id : String) (change : FailedEvent D → FailedEvent D) (fs fs' : List (FailedEvent D))
      (f' : FailedEvent D)
      → ((f : FailedEvent D) → (change f).original_event.id ≡ f.original_event.id)
      → update_failed id change fs ≡ some (f', fs')
      → (f : FailedEvent D) × (rest : List (FailedEvent D)) × (f' ≡ change f)
        × (take_failed id fs' ≡ some (f', rest))
  unfolding update_failed take_failed
  take_failed-update_failed id change [] fs' f' same h = absurd (cc h)
  take_failed-update_failed id change (f ∷ fs) fs' f' same h =
      elim (Bool-cases (str_eq f.original_event.id id)) [
        | inl found ↦
            let whole = some-injective (rw found at h) in
            let still : str_eq (change f).original_event.id id ≡ true = rw (same f) found in
            (
              f,
              fs,
              sym (ap (λ r. r.0) whole),
              subst (λ r. take_failed id r.1 ≡ some (r.0, fs)) whole (rw (still, take_failed) refl),
            )
        | inr other ↦ elim (Option-cases (update_failed id change fs)) [
          | inl missing ↦ absurd (cc (rw (other, missing) at h))
          | inr ((g, gs), later) ↦
              let whole = some-injective (rw (other, later) at h) in
              let (was, rest, changed, found) =
                take_failed-update_failed id change fs gs g same later in
              (
                was,
                f ∷ rest,
                sym (ap (λ r. r.0) whole) ∙ changed,
                subst (λ r. take_failed id r.1 ≡ some (r.0, f ∷ rest)) whole
                    (rw (other, take_failed, found, take_failed) refl),
              )
        ]
      ]

  NoRepeats-grown :
      (fs : List (FailedEvent D)) (f : FailedEvent D)
      → Absent f.original_event.id (ids fs)
      → NoRepeats (ids fs)
      → NoRepeats (ids (fs ++ f ∷ []))
  NoRepeats-grown fs f h d =
      subst NoRepeats (sym (ids-append fs (f ∷ [])))
        (NoRepeats-snoc (ids fs) f.original_event.id h d)

  drop_one :
      (fs : List (FailedEvent D))
      → NoRepeats (ids fs)
      → NoRepeats (ids (drop 1 fs)) × (length (drop 1 fs) ≡ length fs - 1)
  drop_one [] d = (tt, omega arith)
  drop_one (f ∷ fs) d = (d.1, omega arith)

  -- The append of a new entry: within the limit, and there unless the limit is 0.
  push_failed_lem :
      (max_size : Int64) (f : FailedEvent D) (fs : List (FailedEvent D))
      → max_size + 1 < half
      → length fs ≤ max_size
      → Absent f.original_event.id (ids fs)
      → NoRepeats (ids fs)
      → NoRepeats (ids (push_failed max_size f fs))
        × (length (push_failed max_size f fs) ≤ max_size)
  unfolding push_failed
  push_failed_lem max_size f fs room fits absent distinct =
      let count = length-append fs (f ∷ []) in
      let test : lt64 max_size (length (fs ++ f ∷ [])) ≡ ltb max_size (length fs + 1) =
        ap (lt64 max_size) count
        ∙ lt64_small max_size (length fs + 1) (omega arith) (omega arith) in
      let distinct' = NoRepeats-grown fs f absent distinct in
      elim (Bool-cases (ltb max_size (length fs + 1))) [
        | inr within ↦ rw (test, within, push_failed) (distinct', ground arith)
        | inl beyond ↦
            let rest = drop_one (fs ++ f ∷ []) distinct' in
            rw (test, beyond, push_failed) (rest.0, ground (arith, rest.1))
      ]

  -- The new entry is there, unless the limit is 0.
  push_failed_found :
      (max_size : Int64) (f : FailedEvent D) (fs : List (FailedEvent D))
      → max_size + 1 < half
      → 0 < max_size
      → length fs ≤ max_size
      → Absent f.original_event.id (ids fs)
      → (rest : List (FailedEvent D)) × (take_failed f.original_event.id (push_failed max_size f fs)
          ≡ some (f, rest))
  unfolding push_failed
  push_failed_found max_size f [] room some_room fits absent =
      let within : lt64 max_size 1 ≡ false =
        rw (lt64_small max_size 1 (omega arith) (omega arith)) (ground arith) in
      let own = eq_refl f.original_event.id in
      ([], rw (within, push_failed) (unfold take_failed in rw own refl))
  push_failed_found max_size f (x ∷ fs) room some_room fits absent =
      elim (Bool-cases (lt64 max_size (length (x ∷ fs ++ f ∷ [])))) [
        | inl beyond ↦ (fs, rw (beyond, push_failed) (take_failed_last fs f absent.1))
        | inr within ↦ (x ∷ fs, rw (within, push_failed) (take_failed_last (x ∷ fs) f absent))
      ]

-- A queue within its limit, with one entry for an event.
pub record IsWell {D S : Type 0} (q : DeadLetterQueue D S) : Type 0 where
  pub distinct : NoRepeats (ids q.events)
  pub fits : length q.events ≤ q.max_size
  pub small : q.max_size + 1 < half

module _ {D S E : Type 0} (env : DlqStorage D S E) where
  -- SendToDLQ with an error, on a queue whose limit is above 0, returns, also where the storage
  -- fails; it leaves the queue within its limit and with one entry for an event, and the event
  -- has an entry with the new count and the new error.
  pub send_to_dlq_held :
      (clock : ℕ → ℕ) (e : Event D) (reason : String) (error_text : Text) (count : Int64)
      (q : DeadLetterQueue D S)
      → IsWell q
      → 0 < q.max_size
      → (q' : DeadLetterQueue D S) × (r : Option (DlqError E)) × (send_to_dlq env clock e reason
            (some error_text)
            count
            q
          ≡ returned (q', r))
        × IsWell q'
        × (f : FailedEvent D) × (rest : List (FailedEvent D)) × (take_failed e.id q'.events
            ≡ some (f, rest))
        × (f.failure_count ≡ count)
        × (f.last_error ≡ error_text)
  unfolding send_to_dlq
  send_to_dlq_held clock e reason error_text count q well some_room =
      let f = failed_event env clock e reason error_text count in
      let change = fail_again count (clock 3) error_text in
      elim (Option-cases (update_failed e.id change q.events)) [
        | inl missing ↦
            let absent = update_failed-Absent e.id change q.events missing in
            let (distinct', fits') =
              push_failed_lem q.max_size f q.events well.small well.fits absent well.distinct in
            let (rest, found) =
              push_failed_found q.max_size f q.events well.small some_room well.fits absent in
            (
              record q {
                events = push_failed q.max_size f q.events;
                storage = (env.store f q.storage).0;
              },
              elim (env.store f q.storage).1 [ none ↦ none | some x ↦ some (not_persisted x) ],
              rw (missing, send_to_dlq) refl,
              record { distinct = distinct'; fits = fits'; small = well.small },
              f,
              rest,
              found,
              refl,
              refl,
            )
        | inr ((f', fs), old) ↦
            let same_ids = ids-update_failed e.id change q.events fs f' (λ g. refl) old in
            let (was, rest, changed, found) =
              take_failed-update_failed e.id change q.events fs f' (λ g. refl) old in
            (
              record q { events = fs; storage = (env.store f' q.storage).0 },
              elim (env.store f' q.storage).1 [ none ↦ none | some x ↦ some (not_stored x) ],
              rw (old, send_to_dlq) refl,
              record {
                distinct = subst NoRepeats (sym same_ids) well.distinct;
                fits =
                    subst (λ n. n ≤ q.max_size)
                      (sym (length-ids q.events) ∙ sym (ap length same_ids) ∙ length-ids fs)
                      well.fits;
                small = well.small;
              },
              f',
              rest,
              found,
              ap (λ g. g.failure_count) changed,
              ap (λ g. g.last_error) changed,
            )
      ]
