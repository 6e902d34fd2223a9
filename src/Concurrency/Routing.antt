-- ===== src/Concurrency/Routing.antt =====
-- Which partition an event goes to, and which events go to none.
use draftea_payment.Prelude.{
  ℕ, zero, suc, ◌+◌, ◌-◌, ◌*◌, ◌%◌, ◌≤◌, ◌<◌, ◌≡◌, ◌≢◌, ◌⊎◌, refl, ap, ◌∙◌, String, Int64, half,
  word, true, false, none, some, List, [], ◌∷◌, ◌++◌, arith, ◌==◌, ltb, str_eq, length,
  length-append, add64, sub64, lt64, lt64_small, Bool-cases, inl, inr, map, All, get_elem?, ==_iff,
}
use native.Mathlib.Nat.{mod-lt}
use draftea_payment.EventStore.Event.{Event}
use draftea_payment.Concurrency.Partition.{
  hash_runes, remainder64, partition_of, PartitionWorker, PartitionedEventProcessor,
  partition_not_found, channel_full, send_to, process_event,
}

hash_runes-lt-word : (hash : Int64) (cs : List ℕ) → hash < word → hash_runes hash cs < word
unfolding hash_runes
hash_runes-lt-word hash [] h = h
hash_runes-lt-word hash (c ∷ cs) h = hash_runes-lt-word ((hash * 31 + c) % word) cs (omega arith)

-- A hash that is not negative gives one of the partitions.
partition_of_nonneg :
    (n : Int64) (cs : List ℕ)
    → 0 < n
    → n < half
    → hash_runes 0 cs < half
    → partition_of n cs ≡ suc (hash_runes 0 cs % n)
unfolding partition_of remainder64 add64
partition_of_nonneg n cs some_parts few h =
    let sign : lt64 (hash_runes 0 cs) 0 ≡ false = lt64_small _ 0 h (omega arith) ∙ ground arith in
    let small = mod-lt (hash_runes 0 cs) some_parts in rw sign (omega arith)

-- A negative hash that the number of partitions does not divide gives none.
partition_of_negative :
    (n : Int64) (cs : List ℕ)
    → 0 < n
    → n < half
    → half ≤ hash_runes 0 cs
    → (word - hash_runes 0 cs) % n ≢ 0
    → (partition_of n cs ≡ 0) ⊎ (half ≤ partition_of n cs)
unfolding partition_of remainder64 add64 sub64
partition_of_negative n cs some_parts few h uneven =
    let top = hash_runes-lt-word 0 cs (omega arith) in
    let sign : lt64 (hash_runes 0 cs) 0 ≡ true = unfold lt64 in ground arith in
    let small = mod-lt (word - hash_runes 0 cs) some_parts in
    elim (Bool-cases ((word - hash_runes 0 cs) % n == 1)) [
      | inl one ↦ let k = (==_iff _ 1).0 one in inl (rw sign (omega arith))
      | inr more ↦
          let k : 1 < (word - hash_runes 0 cs) % n = ground arith in inr (rw sign (omega arith))
    ]

-- The channels of the workers, and the channels with an event added to the `i`-th.
abbrev pub channels : {D : Type 0} → List (PartitionWorker D) → List (List (Event D))
channels ws = map (λ w. w.event_chan) ws

abbrev pub add_at : {D : Type 0} → ℕ → Event D → List (List (Event D)) → List (List (Event D))
add_at i e [] = []
add_at zero e (q ∷ qs) = (q ++ e ∷ []) ∷ qs
add_at (suc i) e (q ∷ qs) = q ∷ add_at i e qs

module _ {D : Type 0} where
  send_to-beyond :
      (e : Event D) (i : ℕ) (ws : List (PartitionWorker D))
      → length ws ≤ i
      → (send_to e i ws).1 ≡ none
  unfolding send_to
  send_to-beyond e i [] h = refl
  send_to-beyond e zero (w ∷ ws) h = absurd (omega arith)
  send_to-beyond e (suc i) (w ∷ ws) h = send_to-beyond e i ws (omega arith)

  abbrev pub IsBounded : PartitionWorker D → Type 0
  IsBounded w = length w.event_chan ≤ 100

  send_to-within :
      (e : Event D) (i : ℕ) (ws : List (PartitionWorker D))
      → i < length ws
      → (((send_to e i ws).1 ≡ some false)
          × (q : List (Event D)) × (get_elem? (channels ws) i ≡ some q)
          × (100 ≤ length q))
        ⊎ (((send_to e i ws).1 ≡ some true)
            × (channels (send_to e i ws).0 ≡ add_at i e (channels ws)))
  unfolding send_to
  send_to-within e i [] h = absurd (omega arith)
  send_to-within e zero (w ∷ ws) h = elim (Bool-cases (ltb (length w.event_chan) 100)) [
    | inl free ↦ inr (rw (free, send_to) refl, rw (free, send_to) refl)
    | inr full ↦ inl (rw (full, send_to) refl, w.event_chan, refl, ground arith)
  ]
  send_to-within e (suc i) (w ∷ ws) h = elim (send_to-within e i ws (omega arith)) [
    | inl full ↦ inl full
    | inr (sent, added) ↦ inr (sent, ap (λ qs. w.event_chan ∷ qs) added)
  ]

  send_to-IsBounded :
      (e : Event D) (i : ℕ) (ws : List (PartitionWorker D))
      → All IsBounded ws
      → All IsBounded (send_to e i ws).0
  unfolding send_to
  send_to-IsBounded e i [] b = tt
  send_to-IsBounded e zero (w ∷ ws) b = elim (Bool-cases (ltb (length w.event_chan) 100)) [
    | inl free ↦ rw (free, send_to) (ground (arith, length-append w.event_chan (e ∷ [])), b.1)
    | inr full ↦ rw (full, send_to) b
  ]
  send_to-IsBounded e (suc i) (w ∷ ws) b = (b.0, send_to-IsBounded e i ws b.1)

module _ {D : Type 0} (runes : String → List ℕ) where
  process_event_partitions :
      (e : Event D) (p : PartitionedEventProcessor D)
      → let id = partition_of (length p.partitions) (runes e.caused_by) in
        ((process_event runes e p).0.partitions ≡ p.partitions)
        ⊎ ((process_event runes e p).0.partitions ≡ (send_to e (id - 1) p.partitions).0)
  unfolding process_event
  process_event_partitions e p = ground arith

  -- ProcessEvent never puts more than 100 events into a channel.
  pub process_event-IsBounded :
      (e : Event D) (p : PartitionedEventProcessor D)
      → All IsBounded p.partitions
      → All IsBounded (process_event runes e p).0.partitions
  unfolding process_event
  process_event-IsBounded e p b =
      let id = partition_of (length p.partitions) (runes e.caused_by) in
      let b' = send_to-IsBounded e (id - 1) p.partitions b in
      elim (process_event_partitions e p) [ inl same ↦ rw same b | inr sent ↦ rw sent b' ]

  -- An event of a user whose hash is not negative goes to the end of the channel of the partition
  -- that the hash gives, always the same one for the user, and to no other; or the event is
  -- refused and nothing changes, which is only where that channel holds 100 events or more.
  pub process_event_routes :
      (e : Event D) (p : PartitionedEventProcessor D)
      → str_eq e.caused_by "" ≡ false
      → 0 < length p.partitions
      → length p.partitions < half
      → hash_runes 0 (runes e.caused_by) < half
      → let i = hash_runes 0 (runes e.caused_by) % length p.partitions in
        let (p', r) = process_event runes e p in
        (i < length p.partitions)
        × (((r ≡ none) × (channels p'.partitions ≡ add_at i e (channels p.partitions)))
            ⊎ ((r ≡ some (channel_full (suc i)))
                × (p' ≡ p)
                × (q : List (Event D)) × (get_elem? (channels p.partitions) i ≡ some q)
                × (100 ≤ length q)))
  unfolding process_event
  process_event_routes e p named some_parts few h =
      let n = length p.partitions in
      let i = hash_runes 0 (runes e.caused_by) % n in
      let small = mod-lt (hash_runes 0 (runes e.caused_by)) some_parts in
      let id : partition_of n (runes e.caused_by) ≡ suc i =
        partition_of_nonneg n (runes e.caused_by) some_parts few h in
      let busy : (n == 0) ≡ false = ground arith in
      let index : suc i - 1 ≡ i = omega arith in
      let there : (suc i == 0) ≡ false = ground arith in
      (
        small,
        elim (send_to-within e i p.partitions small) [
          | inl (full, q, found, many) ↦
              let whole : process_event runes e p ≡ (p, some (channel_full (suc i))) =
                simp (named, busy, id, there, index, full) in
              inr (ap (λ r. r.1) whole, ap (λ r. r.0) whole, q, found, many)
          | inr (sent, added) ↦
              let whole : process_event runes e p
                  ≡ (record p { partitions = (send_to e i p.partitions).0 }, none) =
                simp (named, busy, id, there, index, sent) in
              inl (ap (λ r. r.1) whole, ap (λ r. channels r.0.partitions) whole ∙ added)
        ],
      )

  -- An event of a user whose hash is negative, and not a multiple of the number of partitions,
  -- reaches no partition: ProcessEvent refuses it and nothing changes, whatever room the channels
  -- have.
  pub process_event_lost :
      (e : Event D) (p : PartitionedEventProcessor D)
      → str_eq e.caused_by "" ≡ false
      → 0 < length p.partitions
      → length p.partitions < half
      → half ≤ hash_runes 0 (runes e.caused_by)
      → (word - hash_runes 0 (runes e.caused_by)) % length p.partitions ≢ 0
      → process_event runes e p
        ≡ (p, some (partition_not_found (partition_of (length p.partitions) (runes e.caused_by))))
  unfolding process_event
  process_event_lost e p named some_parts few h uneven =
      let n = length p.partitions in
      let id = partition_of n (runes e.caused_by) in
      let busy : (n == 0) ≡ false = ground arith in
      elim (partition_of_negative n (runes e.caused_by) some_parts few h uneven) [
        | inl none_at ↦ let at : (id == 0) ≡ true = ground arith in rw (named, busy, at) refl
        | inr far ↦
            let at : (id == 0) ≡ false = ground arith in
            let beyond = send_to-beyond e (id - 1) p.partitions (omega arith) in
            rw (named, busy, at, beyond) refl
      ]
