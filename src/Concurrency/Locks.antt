-- ===== src/Concurrency/Locks.antt =====
-- pkg/eventstore/concurrency_control.go: UserLockManager, one user's lock, which LockTable says is
-- the only one of the user. Each call of LockUser or RLockUser starts a goroutine that takes the
-- lock, and waits for it, for the end of its context, or for the timeout, whichever comes first.
use draftea_payment.Prelude.{
  ℕ, ◌≡◌, ◌⊎◌, Bool, true, false, some, List, [], ◌∷◌, ◌++◌, get_elem?, set, All,
}

-- Sharing: of Lock, or of RLock.
pub data Kind : Type 0 where
  exclusive shared : Kind

-- Where a call stands: its goroutine waits for the lock; the goroutine has the lock and the
-- caller has not seen it; the caller has the lock; the caller has released it; the caller gave up
-- and the goroutine still waits; the caller gave up and the goroutine has the lock.
pub data Phase : Type 0 where
  waits signalled owns released gave_up orphaned : Phase

pub record LockCall : Type 0 where
  pub kind : Kind
  pub phase : Phase

-- A call holds the lock from its goroutine's Lock to its caller's Unlock.
abbrev pub holds : LockCall → Bool
holds c = elim (c.phase) [
  | waits ↦ false
  | signalled ↦ true
  | owns ↦ true
  | released ↦ false
  | gave_up ↦ false
  | orphaned ↦ true
]

abbrev pub conflicts : Kind → Kind → Bool
conflicts shared shared = false
conflicts shared exclusive = true
conflicts exclusive k = true

-- What sync.RWMutex documents: it lets a call in unless a holder's kind excludes it. The steps take
-- this as given.
abbrev pub IsFree : Kind → List LockCall → Type 0
IsFree kind = All (λ c. (holds c ≡ false) ⊎ (conflicts kind c.kind ≡ false))

abbrev pub in_phase : Phase → LockCall → LockCall
in_phase p c = record c { phase = p }

-- The calls so far, in the order of their starts, and what can happen next.
pub data Step : List LockCall → List LockCall → Type 0 where
  starts :
      (s : List LockCall) (kind : Kind) → Step s (s ++ record { kind = kind; phase = waits } ∷ [])
  locks :
      (s : List LockCall) (i : ℕ) (c : LockCall)
      → get_elem? s i ≡ some c
      → c.phase ≡ waits
      → IsFree c.kind s
      → Step s (set s i (in_phase signalled c))
  returns :
      (s : List LockCall) (i : ℕ) (c : LockCall)
      → get_elem? s i ≡ some c
      → c.phase ≡ signalled
      → Step s (set s i (in_phase owns c))
  unlocks :
      (s : List LockCall) (i : ℕ) (c : LockCall)
      → get_elem? s i ≡ some c
      → c.phase ≡ owns
      → Step s (set s i (in_phase released c))
  times_out :
      (s : List LockCall) (i : ℕ) (c : LockCall)
      → get_elem? s i ≡ some c
      → c.phase ≡ waits
      → Step s (set s i (in_phase gave_up c))
  times_out_late :
      (s : List LockCall) (i : ℕ) (c : LockCall)
      → get_elem? s i ≡ some c
      → c.phase ≡ signalled
      → Step s (set s i (in_phase orphaned c))
  locks_late :
      (s : List LockCall) (i : ℕ) (c : LockCall)
      → get_elem? s i ≡ some c
      → c.phase ≡ gave_up
      → IsFree c.kind s
      → Step s (set s i (in_phase orphaned c))

pub data Steps : List LockCall → List LockCall → Type 0 where
  stay : (s : List LockCall) → Steps s s
  move : (s t u : List LockCall) → Steps s t → Step t u → Steps s u
