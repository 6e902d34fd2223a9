-- ===== src/Tests/Concurrents.antt =====
-- Examples for the concurrency control of wallets and the routing of events.
use draftea_payment.Prelude.{
  ℕ, ◌+◌, ◌%◌, ◌<◌, ◌≡◌, ◌≢◌, ◌⊎◌, ◌↔◌, refl, String, word, none, some, List, [], ◌∷◌, arith,
  if◌then◌else◌, ◌==◌, str_eq, length, Bool-cases, inl, inr, lookup, lookup_or, insert, get_elem?,
  ◌≤◌,
}
use draftea_payment.EventStore.Event.{Event}
use draftea_payment.Tests.Aggregates.{whole}
use draftea_payment.Concurrency.Partition.{
  PartitionedEventProcessor, partition_not_found, channel_full, partition_of, hash_runes,
  process_event, new_partitioned_event_processor, new_workers,
}
use draftea_payment.Concurrency.Routing.{channels, add_at, process_event_routes, process_event_lost}
use draftea_payment.Concurrency.Balances.{Balances, deduct_rounds, deduct_locked}
use draftea_payment.Concurrency.Steps.{Call, deducts}
use draftea_payment.Concurrency.Optimistic.{calling, Explained, deduct_rounds_linear}
use draftea_payment.Concurrency.Locks.{
  exclusive, waits, signalled, owns, orphaned, LockCall, starts, locks, times_out_late, Steps, stay,
  move, in_phase,
}
use draftea_payment.Concurrency.LockTable.{
  Progress, called, missed, returned, GetLock, LockTable, new_user_lock_manager, find_lock,
  make_lock, LockStep, looks, makes, LockSteps, idle,
}
use draftea_payment.Concurrency.OneLock.{get_lock_unique}
use draftea_payment.Concurrency.Orphans.{orphan_locks_user}

-- The user "user-0000000001", whose hash is negative, and the user "a".
abbrev runes : String → List ℕ
runes user =
    if str_eq user "a"
    then 97 ∷ []
    else 117 ∷ 115 ∷ 101 ∷ 114 ∷ 45 ∷ 48 ∷ 48 ∷ 48 ∷ 48 ∷ 48 ∷ 48 ∷ 48 ∷ 48 ∷ 48 ∷ 49 ∷ []

abbrev event_of : String → Event ℕ
event_of user = record {
  id = "e1";
  aggregate_id = "a1";
  aggregate_type = "payment";
  event_type = "PaymentInitiated";
  aggregate_version = 0;
  sequence_number = 0;
  event_data = 0;
  metadata = 0;
  created_at = 0;
  caused_by = user;
  correlation_id = "";
}

abbrev four : PartitionedEventProcessor ℕ
four = new_partitioned_event_processor 4

process_event_routes_example :
    let i = hash_runes 0 (97 ∷ []) % length four.partitions in
    let (p, r) = process_event runes (event_of "a") four in
    (i < length four.partitions)
    × (((r ≡ none) × (channels p.partitions ≡ add_at i (event_of "a") (channels four.partitions)))
        ⊎ ((r ≡ some (channel_full (i + 1)))
            × (p ≡ four)
            × (q : List (Event ℕ)) × (get_elem? (channels four.partitions) i ≡ some q)
            × (100 ≤ length q)))
unfolding new_workers hash_runes
process_event_routes_example =
    process_event_routes runes (event_of "a") four refl (omega arith) (omega arith) (omega arith)

process_event_lost_example :
    process_event runes (event_of "user-0000000001") four
    ≡ (four, some (partition_not_found (partition_of 4 (runes "user-0000000001"))))
unfolding new_workers hash_runes
process_event_lost_example =
    process_event_lost runes (event_of "user-0000000001") four refl (omega arith) (omega arith)
      (omega arith) (λ h. omega arith)

-- A balance of 100, of which somebody else takes 10 between the read and the write of the first
-- round.
abbrev hundred : Balances ℕ
hundred =
    (
      "u",
      (
        "USD",
        record {
          user_id = "u";
          currency = "USD";
          balance = 100;
          version = 1;
          last_updated = 0;
          transaction_count = 0;
        },
      )
          ∷ [],
    )
    ∷ []

abbrev during : ℕ → List (Call ℕ)
during i = if i == 4 then deducts "u" "USD" 10 6 ∷ [] else []

abbrev waiting : ℕ → List (Call ℕ)
waiting i = []

during_few : (i : ℕ) → length (during i) < word
during_few i = elim (Bool-cases (i == 4)) [
  | inl h ↦ rw h (omega arith)
  | inr h ↦ rw h (omega arith)
]

deduct_rounds_linear_example :
    Explained whole during waiting during_few "u" "USD" 30 7
      (deduct_locked whole "u" "USD" 30 7)
      5
      hundred
      (deduct_rounds whole 5 (calling whole during waiting) "u" "USD" 30 7 hundred)
unfolding lookup lookup_or
deduct_rounds_linear_example =
    deduct_rounds_linear whole during waiting during_few "u" "USD" 30 7 5 hundred (omega arith)

-- Two calls of LockUser, the first of which times out just when its goroutine has the lock.
abbrev waiter : LockCall
waiter = record { kind = exclusive; phase = waits }

abbrev locked : List LockCall
locked = in_phase signalled waiter ∷ waiter ∷ []

abbrev lost : List LockCall
lost = in_phase orphaned waiter ∷ waiter ∷ []

locked_reached : Steps [] locked
locked_reached =
    move [] (waiter ∷ waiter ∷ []) locked
      (move [] (waiter ∷ []) (waiter ∷ waiter ∷ [])
        (move [] [] (waiter ∷ []) (stay []) (starts [] exclusive)) (starts (waiter ∷ []) exclusive))
      (locks (waiter ∷ waiter ∷ []) 0 waiter refl refl (inl refl, (inl refl, tt)))

lost_reached : Steps [] lost
lost_reached =
    move [] locked lost locked_reached
      (times_out_late locked 0 (in_phase signalled waiter) refl refl)

-- Two calls of getLock for one user that both find no lock before either makes one.
abbrev ask : Progress → GetLock
ask p = record { user_id = "u"; progress = p }

abbrev both : List GetLock → LockTable
both cs = record new_user_lock_manager { calls = cs }

abbrev made : List GetLock → LockTable
made cs = record { locks = ("u", 0) ∷ []; next_lock = 1; calls = cs }

both_missed : LockSteps new_user_lock_manager (both (ask missed ∷ ask missed ∷ []))
unfolding find_lock lookup
both_missed =
    LockSteps.then _ (both (ask missed ∷ ask called ∷ [])) _
      (LockSteps.then _ (both (ask called ∷ ask called ∷ [])) _
        (LockSteps.then _ (both (ask called ∷ [])) _
          (LockSteps.then _ new_user_lock_manager _ (idle new_user_lock_manager)
            (LockStep.starts _ "u"))
          (LockStep.starts _ "u"))
        (looks _ 0 "u" refl))
      (looks _ 1 "u" refl)

both_made : LockSteps new_user_lock_manager (made (ask (returned 0) ∷ ask (returned 0) ∷ []))
unfolding find_lock make_lock lookup insert
both_made =
    LockSteps.then _ (made (ask (returned 0) ∷ ask missed ∷ [])) _
      (LockSteps.then _ (both (ask missed ∷ ask missed ∷ [])) _ both_missed (makes _ 0 "u" refl))
      (makes _ 1 "u" refl)

abbrev asker : String
asker = "u"

abbrev first_lock : ℕ
first_lock = 0

get_lock_unique_example : (asker ≡ asker) ↔ (first_lock ≡ first_lock)
get_lock_unique_example =
    get_lock_unique (made (ask (returned 0) ∷ ask (returned 0) ∷ [])) 0 1 "u" "u" 0 0 both_made refl
      refl

orphan_locks_user_example : waits ≢ owns
orphan_locks_user_example =
    orphan_locks_user lost lost 0 1 (in_phase orphaned waiter) waiter lost_reached refl refl refl
      (stay lost) refl
