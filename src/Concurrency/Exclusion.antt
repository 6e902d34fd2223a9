-- ===== src/Concurrency/Exclusion.antt =====
-- What the user's lock promises, and what becomes of it after a timeout.
use draftea_payment.Prelude.{
  ℕ, zero, suc, ◌≡◌, ◌≢◌, ◌⊎◌, refl, sym, ap, ◌∙◌, subst, true, false, some, List, [], ◌∷◌, ◌++◌,
  arith, get_elem?, set, length, inl, inr, some-injective,
}
use draftea_payment.Concurrency.Locks.{
  Kind, exclusive, shared, conflicts, Phase, signalled, owns, released, gave_up, orphaned, LockCall,
  holds, IsFree, in_phase, Step, starts, locks, returns, unlocks, times_out, times_out_late,
  locks_late, Steps, stay, move,
}

pub get_elem?-set :
    {A : Type 0} (s : List A) (i j : ℕ) (c v : A)
    → get_elem? s i ≡ some c
    → ((i ≡ j) × (get_elem? (set s i v) j ≡ some v))
      ⊎ ((i ≢ j) × (get_elem? (set s i v) j ≡ get_elem? s j))
get_elem?-set [] i j c v h = absurd (cc h)
get_elem?-set (x ∷ s) zero zero c v h = inl (refl, refl)
get_elem?-set (x ∷ s) zero (suc j) c v h = inr (λ e. omega arith, refl)
get_elem?-set (x ∷ s) (suc i) zero c v h = inr (λ e. omega arith, refl)
get_elem?-set (x ∷ s) (suc i) (suc j) c v h = elim (get_elem?-set s i j c v h) [
  | inl (same, at) ↦ inl (ap suc same, at)
  | inr (other, at) ↦ inr (λ e. other (omega arith), at)
]

get_elem?-snoc :
    {A : Type 0} (s : List A) (j : ℕ) (v d : A)
    → get_elem? (s ++ v ∷ []) j ≡ some d
    → (get_elem? s j ≡ some d) ⊎ (v ≡ d)
get_elem?-snoc [] zero v d h = inr (some-injective h)
get_elem?-snoc [] (suc j) v d h = absurd (cc h)
get_elem?-snoc (x ∷ s) zero v d h = inl h
get_elem?-snoc (x ∷ s) (suc j) v d h = get_elem?-snoc s j v d h

pub get_elem?-snoc_kept :
    {A : Type 0} (s : List A) (j : ℕ) (v d : A)
    → get_elem? s j ≡ some d
    → get_elem? (s ++ v ∷ []) j ≡ some d
get_elem?-snoc_kept [] j v d h = absurd (cc h)
get_elem?-snoc_kept (x ∷ s) zero v d h = h
get_elem?-snoc_kept (x ∷ s) (suc j) v d h = get_elem?-snoc_kept s j v d h

conflicts_sym : (k l : Kind) → conflicts k l ≡ conflicts l k
conflicts_sym exclusive exclusive = refl
conflicts_sym exclusive shared = refl
conflicts_sym shared exclusive = refl
conflicts_sym shared shared = refl

-- A lock that is free for a kind has no holder that the kind excludes.
IsFree-holds :
    (kind : Kind) (s : List LockCall) (j : ℕ) (d : LockCall)
    → IsFree kind s
    → get_elem? s j ≡ some d
    → holds d ≡ true
    → conflicts kind d.kind ≡ false
IsFree-holds kind [] j d free h k = absurd (cc h)
IsFree-holds kind (c ∷ s) zero d free h k =
    let same = some-injective h in
    elim free.0 [
      | inl idle ↦ absurd (cc (sym k ∙ ap holds (sym same) ∙ idle))
      | inr fine ↦ ap (λ e. conflicts kind e.kind) (sym same) ∙ fine
    ]
IsFree-holds kind (c ∷ s) (suc j) d free h k = IsFree-holds kind s j d free.1 h k

-- Where a holder comes from: it held the lock before, or the lock was free for it and the step is
-- its.
abbrev Source : List LockCall → ℕ → ℕ → LockCall → Type 0
Source s i j d =
    ((c : LockCall) × (get_elem? s j ≡ some c) × (holds c ≡ true) × (c.kind ≡ d.kind))
    ⊎ (IsFree d.kind s × (j ≡ i))

abbrev actor : {s t : List LockCall} → Step s t → ℕ
actor (starts s kind) = length s
actor (locks s i c h p f) = i
actor (returns s i c h p) = i
actor (unlocks s i c h p) = i
actor (times_out s i c h p) = i
actor (times_out_late s i c h p) = i
actor (locks_late s i c h p f) = i

-- A change of a call's phase that keeps or drops the lock.
set-Source :
    (s : List LockCall) (i j : ℕ) (c d : LockCall) (p : Phase)
    → get_elem? s i ≡ some c
    → (holds (in_phase p c) ≡ false) ⊎ (holds c ≡ true)
    → get_elem? (set s i (in_phase p c)) j ≡ some d
    → holds d ≡ true
    → Source s i j d
set-Source s i j c d p at old h k = elim (get_elem?-set s i j c (in_phase p c) at) [
  | inr (other, same) ↦ inl (d, sym same ∙ h, k, refl)
  | inl (same, there) ↦
      let now = some-injective (sym there ∙ h) in
      elim old [
        | inl idle ↦ absurd (cc (sym k ∙ ap holds (sym now) ∙ idle))
        | inr held ↦ inl (c, ap (get_elem? s) (sym same) ∙ at, held, ap (λ e. e.kind) now)
      ]
]

-- A goroutine that takes the lock.
set_taken-Source :
    (s : List LockCall) (i j : ℕ) (c d : LockCall) (p : Phase)
    → get_elem? s i ≡ some c
    → IsFree c.kind s
    → get_elem? (set s i (in_phase p c)) j ≡ some d
    → holds d ≡ true
    → Source s i j d
set_taken-Source s i j c d p at free h k = elim (get_elem?-set s i j c (in_phase p c) at) [
  | inr (other, same) ↦ inl (d, sym same ∙ h, k, refl)
  | inl (same, there) ↦
      let now = some-injective (sym there ∙ h) in
      inr (subst (λ e. IsFree e.kind s) now free, sym same)
]

Step-Source :
    (s t : List LockCall) (st : Step s t) (j : ℕ) (d : LockCall)
    → get_elem? t j ≡ some d
    → holds d ≡ true
    → Source s (actor st) j d
Step-Source _ _ (starts s kind) j d h k = elim (get_elem?-snoc s j _ d h) [
  | inl old ↦ inl (d, old, k, refl)
  | inr new ↦ absurd (cc (sym k ∙ ap holds (sym new)))
]
Step-Source _ _ (locks s i c at p free) j d h k = set_taken-Source s i j c d signalled at free h k
Step-Source _ _ (returns s i c at p) j d h k = set-Source s i j c d owns at (inr (rw p refl)) h k
Step-Source _ _ (unlocks s i c at p) j d h k = set-Source s i j c d released at (inl refl) h k
Step-Source _ _ (times_out s i c at p) j d h k = set-Source s i j c d gave_up at (inl refl) h k
Step-Source _ _ (times_out_late s i c at p) j d h k =
    set-Source s i j c d orphaned at (inr (rw p refl)) h k
Step-Source _ _ (locks_late s i c at p free) j d h k =
    set_taken-Source s i j c d orphaned at free h k

pub one_holder :
    (s : List LockCall) (i j : ℕ) (c d : LockCall)
    → Steps [] s
    → get_elem? s i ≡ some c
    → get_elem? s j ≡ some d
    → holds c ≡ true
    → holds d ≡ true
    → conflicts c.kind d.kind ≡ true
    → i ≡ j
one_holder _ i j c d (stay _) hc hd kc kd clash = absurd (cc hc)
one_holder _ i j c d (move r s t steps st) hc hd kc kd clash = elim (Step-Source s t st i c hc kc) [
  | inl (c', at, held, kind) ↦ elim (Step-Source s t st j d hd kd) [
    | inl (d', at', held', kind') ↦
        one_holder s i j c' d' steps at at' held held' (rw (kind, kind') clash)
    | inr (free, mine) ↦
        let fine = IsFree-holds d.kind s i c' free at held in
        absurd
          (cc (sym clash ∙ conflicts_sym c.kind d.kind ∙ ap (conflicts d.kind) (sym kind) ∙ fine))
  ]
  | inr (free, mine) ↦ elim (Step-Source s t st j d hd kd) [
    | inl (d', at', held', kind') ↦
        let fine = IsFree-holds c.kind s j d' free at' held' in
        absurd (cc (sym clash ∙ ap (conflicts c.kind) (sym kind') ∙ fine))
    | inr (free', mine') ↦ mine ∙ sym mine'
  ]
]
