-- ===== src/Aggregate/Versions.antt =====
-- The versions of an aggregate against those of its events: a command raises the version of the
-- aggregate twice, as it adds its event and as it applies it.
use draftea_payment.Prelude.{
  ℕ, suc, ◌+◌, ◌<◌, ◌≡◌, refl, sym, ap, ◌∙◌, String, Int64, half, true, false, none, some, List, [],
  ◌∷◌, ◌++◌, arith, length, lookup_or, add64, Option-cases, inl, inr, eq_refl, Dict, Bool-cases,
  eq_iff, str_eq, keep-append, length-append, subst, Float, lt64_small,
}
use draftea_payment.EventStore.Event.{Event, Snapshot, new_event}
use draftea_payment.EventStore.Memory.{
  Store, StoreError, conflict_at, append_events, create_snapshot, append_batch, version_conflicts,
}
use draftea_payment.EventStore.Log.{of_aggregate, IsConsistent}
use draftea_payment.EventStore.Batch.{Stamped, assign_versions_stop, append_batch_conflict}
use draftea_payment.EventStore.Atomic.{append_events_accepted, append_events-IsConsistent}
use draftea_payment.Aggregate.Base.{
  Aggregate, add_uncommitted_event, IsLens, mark_events_as_committed,
}
use draftea_payment.Aggregate.Repository.{
  SaveCall, label, save_aggregate, snapshot_aggregate, should_create_snapshot,
}
use draftea_payment.Aggregate.Payment.{Command}
use draftea_payment.Aggregate.Wallet.{
  WalletAggregate, WalletCodecs, add_balance, raise_wallet_event, apply_wallet_event, balance_data,
}

-- An event that expects a version ahead of the next one is refused, alone as it is.
pub append_events_ahead :
    {D : Type 0} (clock : ℕ → ℕ) (e : Event D) (s : Store D) (n : ℕ)
    → IsConsistent s
    → s.closed ≡ false
    → length (of_aggregate e.aggregate_id s.events) ≡ n
    → n + 1 < e.aggregate_version
    → e.aggregate_version < half
    → append_events none clock (e ∷ []) s
      ≡ (s, e ∷ [], some (conflict_at 0 (n + 1) e.aggregate_version))
unfolding append_events
append_events_ahead clock e s n c live count ahead room =
    let version : lookup_or 0 e.aggregate_id s.aggregate_versions + 0 ≡ n =
      omega (arith, c.counted e.aggregate_id) in
    let behind : version_conflicts e (suc n) ≡ true =
      unfold version_conflicts in
      rw (lt64_small 0 e.aggregate_version (omega arith) room) (ground arith) in
    let stop =
      assign_versions_stop clock (lookup_or 0 e.aggregate_id s.aggregate_versions) 0
        s.sequence_counter n e [] version (omega arith) behind in
    let found = ap (λ r. r.2) stop in
    let whole = append_batch_conflict clock e.aggregate_id (e ∷ []) s found in
    let own = eq_refl e.aggregate_id in
    let called : append_events none clock (e ∷ []) s
        ≡ append_batch clock e.aggregate_id (e ∷ []) s =
      unfold append_events in rw (own, live) refl in
    called ∙ whole ∙ rw stop (ground arith)

module _ {F D : Type 0} (fl : Float F) (codecs : WalletCodecs F D) where
  -- What an accepted AddBalance leaves: one more event, with the next version, and an aggregate with
  -- the version after that.
  accepted_versions :
      (c : Command D) (amount : F) (description : String) (w : WalletAggregate F D)
      → (add_balance fl codecs c amount description w).1 ≡ none
      → let w' = (add_balance fl codecs c amount description w).0 in
        (e : Event D) × (e.aggregate_version ≡ add64 w.base.version 1)
        × (w'.base.version ≡ add64 (add64 w.base.version 1) 1)
        × (w'.base.id ≡ w.base.id)
        × (w'.base.uncommitted_events ≡ w.base.uncommitted_events ++ e ∷ [])
  unfolding add_balance raise_wallet_event apply_wallet_event new_event add_uncommitted_event
  accepted_versions c amount description w done =
      let d =
        codecs.added.marshal
          (balance_data fl codecs c amount (fl.add w.balance amount) description w) in
      elim (Option-cases d) [
        | inl unencoded ↦ absurd (ground arith)
        | inr (x, encoded) ↦ elim (Option-cases c.event_metadata) [
          | inl bare ↦ absurd (ground arith)
          | inr (m, labelled) ↦
              let e : Event D = record {
                id = c.event_id;
                aggregate_id = w.base.id;
                aggregate_type = "wallet";
                event_type = "BalanceAdded";
                aggregate_version = add64 w.base.version 1;
                sequence_number = 0;
                event_data = x;
                metadata = m;
                created_at = c.now;
                caused_by = w.user_id;
                correlation_id = c.correlation_id;
              } in
              (e, refl, ground arith, ground arith, ground arith)
        ]
      ]

  pub add_balance_versions :
      (c : Command D) (amount : F) (description : String) (w w' : WalletAggregate F D)
      → add_balance fl codecs c amount description w ≡ (w', none)
      → (e : Event D) × (e.aggregate_version ≡ add64 w.base.version 1)
        × (w'.base.version ≡ add64 (add64 w.base.version 1) 1)
        × (w'.base.id ≡ w.base.id)
        × (w'.base.uncommitted_events ≡ w.base.uncommitted_events ++ e ∷ [])
  add_balance_versions c amount description w w' done =
      subst
        (λ v.
          (e : Event D) × (e.aggregate_version ≡ add64 w.base.version 1)
          × (v.base.version ≡ add64 (add64 w.base.version 1) 1)
          × (v.base.id ≡ w.base.id)
          × (v.base.uncommitted_events ≡ w.base.uncommitted_events ++ e ∷ []))
        (ap (λ r. r.0) done) (accepted_versions c amount description w (ap (λ r. r.1) done))

length-Stamped :
    {D : Type 0} (id : String) (v seq : ℕ) (es : List (Event D))
    → Stamped id v seq es
    → length (of_aggregate id es) ≡ length es
length-Stamped id v seq [] marks = refl
length-Stamped id v seq (e ∷ es) marks =
    rw ((eq_iff e.aggregate_id id).1 marks.0)
      (omega (arith, length-Stamped id (suc v) (suc seq) es marks.3))

-- The log of an aggregate after a batch of its events.
length-of_aggregate-Stamped :
    {D : Type 0} (id : String) (v seq : ℕ) (es fs log : List (Event D))
    → Stamped id v seq fs
    → log ≡ es ++ fs
    → length (of_aggregate id log) ≡ length (of_aggregate id es) + length fs
length-of_aggregate-Stamped id v seq es fs log marks whole =
    rw (whole, keep-append (λ e. str_eq e.aggregate_id id) es fs)
      (omega (
        arith,
        length-append (of_aggregate id es) (of_aggregate id fs),
        length-Stamped id v seq fs marks,
      ))

-- The snapshots are no part of what makes a store consistent.
pub snapshots-IsConsistent :
    {D : Type 0} (m : Dict (Snapshot D)) (s : Store D)
    → IsConsistent s
    → IsConsistent (record s { snapshots = m })
snapshots-IsConsistent m s c = record {
  is_log = c.is_log;
  counted = c.counted;
  bounded = c.bounded;
}

module _ {X D A : Type 0} (agg : Aggregate X D A) where
  snapshot_aggregate_lem :
      (call : SaveCall) (a : A) (s : Store D)
      → (m : Dict (Snapshot D)) × (snapshot_aggregate agg call a s ≡ record s { snapshots = m })
  unfolding snapshot_aggregate create_snapshot
  snapshot_aggregate_lem call a s = ((snapshot_aggregate agg call a s).snapshots, ground arith)

  -- A Save of one event that AppendEvents accepts: at most the snapshots change besides.
  pub save_accepted :
      (frequency : Int64) (call : SaveCall) (a : A) (e : Event D) (s : Store D)
      → (agg.base a).uncommitted_events ≡ e ∷ []
      → (append_events call.ctx call.clock (label (agg.base a).id (agg.get_type a) call e ∷ []) s).2
        ≡ none
      → (m : Dict (Snapshot D)) × (save_aggregate agg frequency call a s ≡ (
        record (append_events call.ctx call.clock
            (label (agg.base a).id (agg.get_type a) call e ∷ [])
            s).0 { snapshots = m },
        agg.with_base (mark_events_as_committed (agg.base a)) a,
        none,
      ))
  save_accepted frequency call a e s one fine =
      let s' =
        (append_events call.ctx call.clock (label (agg.base a).id (agg.get_type a) call e ∷ [])
          s).0 in
      let a' = agg.with_base (mark_events_as_committed (agg.base a)) a in
      elim (Bool-cases (should_create_snapshot agg frequency a')) [
        | inl due ↦
            let (m, same) = snapshot_aggregate_lem call a' s' in
            (
              m,
              unfold save_aggregate in
                  simp (one, fine, due, save_aggregate) (ap (λ t. (t, a', none)) same),
            )
        | inr not_due ↦
            (s'.snapshots, unfold save_aggregate in simp (one, fine, not_due, save_aggregate) refl)
      ]

  pub save_refused :
      (frequency : Int64) (call : SaveCall) (a : A) (e : Event D) (s : Store D) {x : StoreError}
      → (agg.base a).uncommitted_events ≡ e ∷ []
      → (append_events call.ctx call.clock (label (agg.base a).id (agg.get_type a) call e ∷ []) s).2
        ≡ some x
      → let r =
          append_events call.ctx call.clock
            (label (agg.base a).id (agg.get_type a) call e ∷ [])
            s in
        save_aggregate agg frequency call a s
        ≡ (r.0, agg.with_base (record (agg.base a) { uncommitted_events = r.1 }) a, some x)
  save_refused frequency call a e s one bad =
      unfold save_aggregate in simp (one, bad, save_aggregate)

  -- What a successful Save of a single event leaves.
  pub save_one :
      IsLens agg
      → (frequency : Int64) (call : SaveCall) (a : A) (e : Event D) (s : Store D) → IsConsistent s
      → s.sequence_counter + 1 < half
      → (agg.base a).uncommitted_events ≡ e ∷ []
      → (save_aggregate agg frequency call a s).2 ≡ none
      → let (s', a', _) = save_aggregate agg frequency call a s in
        IsConsistent s'
        × (length (of_aggregate (agg.base a).id s'.events)
            ≡ suc (length (of_aggregate (agg.base a).id s.events)))
        × (agg.base a' ≡ mark_events_as_committed (agg.base a))
  save_one lens frequency call a e s c room one done =
      let b = agg.base a in
      let l = label b.id (agg.get_type a) call e in
      elim (Option-cases (append_events call.ctx call.clock (l ∷ []) s).2) [
        | inr (x, bad) ↦
            absurd (cc (done, ap (λ r. r.2) (save_refused frequency call a e s one bad)))
        | inl fine ↦
            let (m, same) = save_accepted frequency call a e s one fine in
            let kept = append_events-IsConsistent call.ctx call.clock (l ∷ []) s c (omega arith) in
            let (id, own, log, marks, count, _, _) =
              append_events_accepted call.ctx call.clock (l ∷ []) s c (omega arith) fine in
            let (s', es', _) = append_events call.ctx call.clock (l ∷ []) s in
            let grown : length (of_aggregate b.id s'.events)
                ≡ suc (length (of_aggregate b.id s.events)) =
              subst
                (λ i. length (of_aggregate i s'.events) ≡ suc (length (of_aggregate i s.events)))
                (sym own.0)
                (length-of_aggregate-Stamped id _ _ s.events es' s'.events marks log
                  ∙ omega arith) in
            rw same (
              snapshots-IsConsistent m _ kept,
              grown,
              lens.base-with_base (mark_events_as_committed b) a,
            )
      ]
