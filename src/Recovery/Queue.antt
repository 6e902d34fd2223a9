-- ===== src/Recovery/Queue.antt =====
-- The dead letter queue as a bounded map from events to their last failures.
use draftea_payment.Prelude.{
  suc, ◌≡◌, refl, sym, ap, ◌∙◌, subst, String, false, none, some, List, [], ◌∷◌, ◌++◌, arith,
  length, Bool-cases, Option-cases, inl, inr, All, All-append, str_eq, eq_iff, some-injective,
}
use draftea_payment.Recovery.DeadLetters.{FailedEvent, update_failed, take_failed}

-- The texts are not among the others.
abbrev pub Absent : String → List String → Type 0
Absent id = All (λ i. str_eq i id ≡ false)

abbrev pub NoRepeats : List String → Type 0
NoRepeats [] = Unit
NoRepeats (i ∷ is) = Absent i is × NoRepeats is

pub NoRepeats-snoc :
    (is : List String) (i : String) → Absent i is → NoRepeats is → NoRepeats (is ++ i ∷ [])
NoRepeats-snoc [] i h d = (tt, tt)
NoRepeats-snoc (x ∷ is) i h d =
    let differ : str_eq i x ≡ false = ground (arith, eq_iff i x, eq_iff x i, h.0) in
    (All-append _ is (i ∷ []) d.0 (differ, tt), NoRepeats-snoc is i h.1 d.1)

module _ {D : Type 0} where
  abbrev pub ids : List (FailedEvent D) → List String
  ids [] = []
  ids (f ∷ fs) = f.original_event.id ∷ ids fs

  pub ids-append : (fs gs : List (FailedEvent D)) → ids (fs ++ gs) ≡ ids fs ++ ids gs
  ids-append [] gs = refl
  ids-append (f ∷ fs) gs = ap (λ l. f.original_event.id ∷ l) (ids-append fs gs)

  pub length-ids : (fs : List (FailedEvent D)) → length (ids fs) ≡ length fs
  length-ids [] = refl
  length-ids (f ∷ fs) = ap suc (length-ids fs)

  pub ids-update_failed :
      (id : String) (change : FailedEvent D → FailedEvent D) (fs fs' : List (FailedEvent D))
      (f' : FailedEvent D)
      → ((f : FailedEvent D) → (change f).original_event.id ≡ f.original_event.id)
      → update_failed id change fs ≡ some (f', fs')
      → ids fs' ≡ ids fs
  unfolding update_failed
  ids-update_failed id change [] fs' f' same h = absurd (cc h)
  ids-update_failed id change (f ∷ fs) fs' f' same h =
      elim (Bool-cases (str_eq f.original_event.id id)) [
        | inl found ↦
            let whole = ap (λ r. r.1) (some-injective (rw found at h)) in
            ap ids (sym whole) ∙ ap (λ i. i ∷ ids fs) (same f)
        | inr other ↦ elim (Option-cases (update_failed id change fs)) [
          | inl missing ↦ absurd (cc (rw (other, missing) at h))
          | inr ((g, gs), later) ↦
              let whole = ap (λ r. r.1) (some-injective (rw (other, later) at h)) in
              ap ids (sym whole)
              ∙ ap (λ l. f.original_event.id ∷ l) (ids-update_failed id change fs gs g same later)
        ]
      ]

  pub update_failed-Absent :
      (id : String) (change : FailedEvent D → FailedEvent D) (fs : List (FailedEvent D))
      → update_failed id change fs ≡ none
      → Absent id (ids fs)
  unfolding update_failed
  update_failed-Absent id change [] h = tt
  update_failed-Absent id change (f ∷ fs) h = elim (Bool-cases (str_eq f.original_event.id id)) [
    | inl found ↦ absurd (cc (rw found at h))
    | inr other ↦ elim (Option-cases (update_failed id change fs)) [
      | inl missing ↦ (other, update_failed-Absent id change fs missing)
      | inr (r, later) ↦ absurd (cc (rw (other, later) at h))
    ]
  ]

  Absent-take_failed :
      (id key : String) (fs gs : List (FailedEvent D)) (g : FailedEvent D)
      → take_failed id fs ≡ some (g, gs)
      → Absent key (ids fs)
      → Absent key (ids gs)
  unfolding take_failed
  Absent-take_failed id key [] gs g h a = absurd (cc h)
  Absent-take_failed id key (f ∷ fs) gs g h a = elim (Bool-cases (str_eq f.original_event.id id)) [
    | inl found ↦
        subst (λ l. Absent key (ids l)) (ap (λ r. r.1) (some-injective (rw found at h))) a.1
    | inr other ↦ elim (Option-cases (take_failed id fs)) [
      | inl missing ↦ absurd (cc (rw (other, missing) at h))
      | inr ((g', gs'), later) ↦
          subst (λ l. Absent key (ids l)) (ap (λ r. r.1) (some-injective (rw (other, later) at h)))
            (a.0, Absent-take_failed id key fs gs' g' later a.1)
    ]
  ]

  -- What is left after an entry is taken out: no two of one event, and none of this one.
  pub NoRepeats-take_failed :
      (id : String) (fs gs : List (FailedEvent D)) (g : FailedEvent D)
      → take_failed id fs ≡ some (g, gs)
      → NoRepeats (ids fs)
      → NoRepeats (ids gs)
        × Absent id (ids gs)
        × (length fs ≡ suc (length gs))
        × (g.original_event.id ≡ id)
  unfolding take_failed
  NoRepeats-take_failed id [] gs g h d = absurd (cc h)
  NoRepeats-take_failed id (f ∷ fs) gs g h d = elim (Bool-cases (str_eq f.original_event.id id)) [
    | inl found ↦
        let key = (eq_iff f.original_event.id id).0 found in
        let whole = some-injective (rw found at h) in
        let rest = ap (λ r. r.1) whole in
        (
          subst (λ l. NoRepeats (ids l)) rest d.1,
          subst (λ l. Absent id (ids l)) rest (subst (λ i. Absent i (ids fs)) key d.0),
          ap (λ l. suc (length l)) rest,
          ap (λ r. r.0.original_event.id) (sym whole) ∙ key,
        )
    | inr other ↦ elim (Option-cases (take_failed id fs)) [
      | inl missing ↦ absurd (cc (rw (other, missing) at h))
      | inr ((g', gs'), later) ↦
          let whole = some-injective (rw (other, later) at h) in
          let rest = ap (λ r. r.1) whole in
          let (kept, gone, count, key) = NoRepeats-take_failed id fs gs' g' later d.1 in
          (
            subst (λ l. NoRepeats (ids l)) rest
                (Absent-take_failed id f.original_event.id fs gs' g' later d.0, kept),
            subst (λ l. Absent id (ids l)) rest (other, gone),
            ap suc count ∙ ap (λ l. suc (length l)) rest,
            ap (λ r. r.0.original_event.id) (sym whole) ∙ key,
          )
    ]
  ]
