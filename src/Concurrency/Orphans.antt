-- ===== src/Concurrency/Orphans.antt =====
-- A lock that a goroutine took for a caller that had given up.
use draftea_payment.Prelude.{
  ℕ, ◌≡◌, ◌≢◌, refl, sym, ap, ◌∙◌, true, some, List, [], get_elem?, set, inl, inr, some-injective,
}
use draftea_payment.Concurrency.Locks.{
  exclusive, conflicts, owns, orphaned, LockCall, holds, Step, starts, locks, returns, unlocks,
  times_out, times_out_late, locks_late, Steps, stay, move,
}
use draftea_payment.Concurrency.Exclusion.{get_elem?-set, get_elem?-snoc_kept, one_holder}

set_elsewhere :
    (s : List LockCall) (k i : ℕ) (c c' v : LockCall)
    → get_elem? s k ≡ some c'
    → c'.phase ≢ orphaned
    → get_elem? s i ≡ some c
    → c.phase ≡ orphaned
    → get_elem? (set s k v) i ≡ some c
set_elsewhere s k i c c' v at lively h lost = elim (get_elem?-set s k i c' v at) [
  | inr (other, same) ↦ same ∙ h
  | inl (here, _) ↦
      let same = some-injective (sym at ∙ ap (get_elem? s) here ∙ h) in
      absurd (lively (ap (λ e. e.phase) same ∙ lost))
]

orphan_stays :
    (s t : List LockCall) (i : ℕ) (c : LockCall)
    → Step s t
    → get_elem? s i ≡ some c
    → c.phase ≡ orphaned
    → get_elem? t i ≡ some c
orphan_stays _ _ i c (starts s kind) h lost = get_elem?-snoc_kept s i _ c h
orphan_stays _ _ i c (locks s k c' at p free) h lost =
    set_elsewhere s k i c c' _ at (λ e. absurd (cc (p, e))) h lost
orphan_stays _ _ i c (returns s k c' at p) h lost =
    set_elsewhere s k i c c' _ at (λ e. absurd (cc (p, e))) h lost
orphan_stays _ _ i c (unlocks s k c' at p) h lost =
    set_elsewhere s k i c c' _ at (λ e. absurd (cc (p, e))) h lost
orphan_stays _ _ i c (times_out s k c' at p) h lost =
    set_elsewhere s k i c c' _ at (λ e. absurd (cc (p, e))) h lost
orphan_stays _ _ i c (times_out_late s k c' at p) h lost =
    set_elsewhere s k i c c' _ at (λ e. absurd (cc (p, e))) h lost
orphan_stays _ _ i c (locks_late s k c' at p free) h lost =
    set_elsewhere s k i c c' _ at (λ e. absurd (cc (p, e))) h lost

orphan_remains :
    (s t : List LockCall) (i : ℕ) (c : LockCall)
    → Steps s t
    → get_elem? s i ≡ some c
    → c.phase ≡ orphaned
    → get_elem? t i ≡ some c
orphan_remains _ _ i c (stay s) h lost = h
orphan_remains _ _ i c (move s t u before st) h lost =
    orphan_stays t u i c st (orphan_remains s t i c before h lost) lost

Steps-trans : (s t u : List LockCall) → Steps s t → Steps t u → Steps s u
Steps-trans s t _ h (stay _) = h
Steps-trans s t _ h (move _ v u before st) = move s v u (Steps-trans s t v h before) st

-- Once the goroutine of a call of LockUser that gave up has taken the user's lock, no caller ever
-- has the lock of that user again, to write or to read, whatever happens after.
pub orphan_locks_user :
    (s t : List LockCall) (i j : ℕ) (c d : LockCall)
    → Steps [] s
    → get_elem? s i ≡ some c
    → c.kind ≡ exclusive
    → c.phase ≡ orphaned
    → Steps s t
    → get_elem? t j ≡ some d
    → d.phase ≢ owns
orphan_locks_user s t i j c d before at kind lost after there = λ owner.
    let still = orphan_remains s t i c after at lost in
    let held : holds c ≡ true = rw lost refl in
    let held' : holds d ≡ true = rw owner refl in
    let clash : conflicts c.kind d.kind ≡ true = rw kind refl in
    let same =
      one_holder t i j c d (Steps-trans [] s t before after) still there held held' clash in
    let one = some-injective (sym still ∙ ap (get_elem? t) same ∙ there) in
    absurd (cc (sym lost ∙ ap (λ e. e.phase) one ∙ owner))
