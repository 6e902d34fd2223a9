-- ===== src/Concurrency/Partition.antt =====
-- pkg/eventstore/concurrency_control.go: PartitionedEventProcessor, and getPartitionForUser of both
-- types. `runes` gives a text's characters. A worker is its channel, of 100 events, and what it took
-- from it.
use draftea_payment.Prelude.{
  ℕ, zero, suc, ◌+◌, ◌-◌, ◌*◌, ◌%◌, ◌≡◌, String, Int64, word, Bool, true, false, Option, none, some,
  List, [], ◌∷◌, ◌++◌, if◌then◌else◌, ◌==◌, ltb, str_eq, length, add64, sub64, lt64, any, map,
}
use draftea_payment.EventStore.Event.{Event}

-- The loop of both functions called getPartitionForUser, on int64.
unfoldable pub hash_runes : Int64 → List ℕ → Int64
hash_runes hash [] = hash
hash_runes hash (c ∷ cs) = hash_runes ((hash * 31 + c) % word) cs

-- Go's `a % n` on int64, for `n` above 0: the result has the sign of `a`.
unfoldable pub remainder64 : Int64 → Int64 → Int64
remainder64 a n = if lt64 a 0 then sub64 0 ((word - a) % n) else a % n

-- `(hash % n) + 1`
unfoldable pub partition_of : Int64 → List ℕ → Int64
partition_of n runes = add64 (remainder64 (hash_runes 0 runes) n) 1

pub record PartitionWorker (D : Type 0) : Type 0 where
  pub event_chan : List (Event D)
  pub processed : List (Event D)
  pub stop_closed : Bool
  pub running : Bool

pub record PartitionedEventProcessor (D : Type 0) : Type 0 where
  pub partitions : List (PartitionWorker D)

abbrev pub new_worker : {D : Type 0} → PartitionWorker D
new_worker = record { event_chan = []; processed = []; stop_closed = false; running = true }

-- NewPartitionedEventProcessor: the worker of partition `i` is the `i`-th, from 1 on.
unfoldable pub new_workers : {D : Type 0} → ℕ → List (PartitionWorker D)
new_workers zero = []
new_workers (suc n) = new_worker ∷ new_workers n

abbrev pub new_partitioned_event_processor : {D : Type 0} → ℕ → PartitionedEventProcessor D
new_partitioned_event_processor n = record { partitions = new_workers n }

pub data RouteFault : Type 0 where
  missing_user division_by_zero : RouteFault
  partition_not_found channel_full : Int64 → RouteFault

-- The channel takes the event unless it is full.
abbrev offer : {D : Type 0} → Event D → PartitionWorker D → Option (PartitionWorker D)
offer e w =
    if ltb (length w.event_chan) 100
    then some (record w { event_chan = w.event_chan ++ e ∷ [] })
    else none

-- The send to the worker of partition `i`, counted from 0.
unfoldable pub send_to :
    {D : Type 0} → Event D → ℕ → List (PartitionWorker D) → List (PartitionWorker D) × Option Bool
send_to e i [] = ([], none)
send_to e zero (w ∷ ws) = elim (offer e w) [
  | none ↦ (w ∷ ws, some false)
  | some w' ↦ (w' ∷ ws, some true)
]
send_to e (suc i) (w ∷ ws) = let (ws', r) = send_to e i ws in (w ∷ ws', r)

module _ {D : Type 0} (runes : String → List ℕ) where
  -- ProcessEvent. Without partitions `hash % 0` panics.
  unfoldable pub process_event :
      Event D → PartitionedEventProcessor D → PartitionedEventProcessor D × Option RouteFault
  process_event e p =
      let n = length p.partitions in
      let id = partition_of n (runes e.caused_by) in
      let (ws, r) = send_to e (id - 1) p.partitions in
      if str_eq e.caused_by ""
      then (p, some missing_user)
      else if n == 0
      then (p, some division_by_zero)
      else if id == 0
      then (p, some (partition_not_found id))
      else elim r [
        | none ↦ (p, some (partition_not_found id))
        | some false ↦ (p, some (channel_full id))
        | some true ↦ (record p { partitions = ws }, none)
      ]

-- One round of a worker's loop: the first event of its channel, or the signal to stop.
pub data WorkerStep {D : Type 0} : PartitionWorker D → PartitionWorker D → Type 0 where
  takes :
      (w : PartitionWorker D) (e : Event D) (es : List (Event D))
      → w.running ≡ true
      → w.event_chan ≡ e ∷ es
      → WorkerStep w (record w { event_chan = es; processed = w.processed ++ e ∷ [] })
  stops :
      (w : PartitionWorker D)
      → w.running ≡ true
      → w.stop_closed ≡ true
      → WorkerStep w (record w { running = false })

-- Stop: `none` is the panic of closing a channel twice.
unfoldable pub stop_workers :
    {D : Type 0} → PartitionedEventProcessor D → Option (PartitionedEventProcessor D)
stop_workers p =
    if any (λ w. w.stop_closed) p.partitions
    then none
    else some (record p {
      partitions = map {A = PartitionWorker _} (λ w. record w { stop_closed = true }) p.partitions;
    })
