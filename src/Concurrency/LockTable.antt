-- ===== src/Concurrency/LockTable.antt =====
-- pkg/eventstore/concurrency_control.go: the table of the users' locks and getLock, whose calls
-- find a lock under the read lock of the table, or else look again and make one under its write
-- lock. The two sections are steps: sync.RWMutex keeps a write apart from every read and write.
use draftea_payment.Prelude.{
  ℕ, suc, ◌≡◌, String, none, some, List, [], ◌∷◌, ◌++◌, get_elem?, set, Dict, lookup, insert,
}

-- A call of getLock has not looked yet, has found no lock under the read lock, or has returned one.
pub data Progress : Type 0 where
  called missed : Progress
  returned : ℕ → Progress

pub record GetLock : Type 0 where
  pub user_id : String
  pub progress : Progress

-- The field `locks`, a lock being a number; `next_lock` is the number of the next one made; and the
-- calls of getLock so far.
pub record LockTable : Type 0 where
  pub locks : Dict ℕ
  pub next_lock : ℕ
  pub calls : List GetLock

-- NewUserLockManager
abbrev pub new_user_lock_manager : LockTable
new_user_lock_manager = record { locks = []; next_lock = 0; calls = [] }

-- getLock under the read lock.
unfoldable pub find_lock : String → LockTable → Progress
find_lock user t = elim (lookup user t.locks) [ none ↦ missed | some lock ↦ returned lock ]

-- getLock under the write lock: the second look, and the new lock.
unfoldable pub make_lock : String → LockTable → LockTable × ℕ
make_lock user t = elim (lookup user t.locks) [
  | some lock ↦ (t, lock)
  | none ↦ (
    record t { locks = insert user t.next_lock t.locks; next_lock = suc t.next_lock },
    t.next_lock,
  )
]

abbrev pub after_call : ℕ → String → Progress → LockTable → LockTable
after_call i user p t = record t { calls = set t.calls i (record { user_id = user; progress = p }) }

-- What can happen next: a call starts, a call looks, or a call that found nothing makes the lock.
pub data LockStep : LockTable → LockTable → Type 0 where
  starts :
      (t : LockTable) (user : String)
      → LockStep t
          (record t { calls = t.calls ++ record { user_id = user; progress = called } ∷ [] })
  looks :
      (t : LockTable) (i : ℕ) (user : String)
      → get_elem? t.calls i ≡ some (record { user_id = user; progress = called })
      → LockStep t (after_call i user (find_lock user t) t)
  makes :
      (t : LockTable) (i : ℕ) (user : String)
      → get_elem? t.calls i ≡ some (record { user_id = user; progress = missed })
      → LockStep t (after_call i user (returned (make_lock user t).1) (make_lock user t).0)

pub data LockSteps : LockTable → LockTable → Type 0 where
  idle : (t : LockTable) → LockSteps t t
  then : (t u v : LockTable) → LockSteps t u → LockStep u v → LockSteps t v
