-- ===== src/Aggregate/Snapshots.antt =====
-- A snapshot that Save writes after a command: its version is ahead of the log.
use draftea_payment.Prelude.{
  suc, ◌+◌, ◌<◌, ◌≡◌, refl, sym, ap, ◌∙◌, subst, String, Int64, half, true, false, none, some, [],
  ◌∷◌, ◌++◌, ok, arith, length, lookup, insert, lookup-insert_self, add64, add64_small,
  Option-cases, inl, inr, Float, drop_all, ok-injective, ◌-◌, ◌≤◌,
}
use draftea_payment.EventStore.Event.{Event, Snapshot}
use draftea_payment.EventStore.Memory.{
  Store, conflict_at, append_events, create_snapshot, get_snapshot,
}
use draftea_payment.EventStore.Log.{of_aggregate, IsConsistent, length-of_aggregate-le}
use draftea_payment.Aggregate.Base.{Aggregate, mark_events_as_committed}
use draftea_payment.Aggregate.Repository.{
  SaveCall, label, save_aggregate, load_aggregate, should_create_snapshot, snapshot_aggregate,
  apply_all, replay_from,
}
use draftea_payment.Aggregate.Payment.{Command}
use draftea_payment.Aggregate.Wallet.{
  WalletAggregate, WalletCodecs, WalletSnapshot, wallet_aggregate, add_balance, snapshot_wallet,
  load_wallet_snapshot,
}
use draftea_payment.Aggregate.Replay.{replay_from_lem}
use draftea_payment.Aggregate.Versions.{add_balance_versions, save_one, save_accepted, save_refused}
use draftea_payment.Aggregate.Conflicts.{save_ahead, wallet-IsLens}

module _ {X D A : Type 0} (agg : Aggregate X D A) where
  -- A Save of one event that is due to write a snapshot leaves that snapshot.
  save_snapshots :
      (frequency : Int64) (call : SaveCall) (a : A) (e : Event D) (s : Store D) (d : D)
      → (agg.base a).uncommitted_events ≡ e ∷ []
      → call.ctx ≡ none
      → (save_aggregate agg frequency call a s).2 ≡ none
      → let a' = agg.with_base (mark_events_as_committed (agg.base a)) a in
        should_create_snapshot agg frequency a' ≡ true
        → agg.create_snapshot a' ≡ some d
        → lookup (agg.base a').id (save_aggregate agg frequency call a s).0.snapshots
          ≡ some (record {
            aggregate_id = (agg.base a').id;
            aggregate_type = agg.get_type a';
            aggregate_version = (agg.base a').version;
            snapshot_data = d;
            created_at = call.snapshot_time;
          })
  save_snapshots frequency call a e s d one ctx done due made =
      let l = label (agg.base a).id (agg.get_type a) call e in
      let a' = agg.with_base (mark_events_as_committed (agg.base a)) a in
      elim (Option-cases (append_events call.ctx call.clock (l ∷ []) s).2) [
        | inr (x, bad) ↦
            absurd (cc (done, ap (λ r. r.2) (save_refused agg frequency call a e s one bad)))
        | inl fine ↦
            let s' = (append_events call.ctx call.clock (l ∷ []) s).0 in
            let written : (save_aggregate agg frequency call a s).0
                ≡ snapshot_aggregate agg call a' s' =
              unfold save_aggregate in simp (one, fine, due, save_aggregate) in
            let written_snapshot : Snapshot D = record {
              aggregate_id = (agg.base a').id;
              aggregate_type = agg.get_type a';
              aggregate_version = (agg.base a').version;
              snapshot_data = d;
              created_at = call.snapshot_time;
            } in
            let snap : (snapshot_aggregate agg call a' s').snapshots
                ≡ insert (agg.base a').id written_snapshot s'.snapshots =
              unfold snapshot_aggregate create_snapshot in
              simp (made, ctx, snapshot_aggregate, create_snapshot) in
            ap (λ t. lookup (agg.base a').id t.snapshots) written
            ∙ ap (λ m. lookup (agg.base a').id m) snap
            ∙ lookup-insert_self (agg.base a').id written_snapshot s'.snapshots
      ]

  -- The aggregate after a successful Save of one event.
  save_marks :
      (frequency : Int64) (call : SaveCall) (a : A) (e : Event D) (s : Store D)
      → (agg.base a).uncommitted_events ≡ e ∷ []
      → (save_aggregate agg frequency call a s).2 ≡ none
      → (save_aggregate agg frequency call a s).1
        ≡ agg.with_base (mark_events_as_committed (agg.base a)) a
  save_marks frequency call a e s one done =
      let l = label (agg.base a).id (agg.get_type a) call e in
      elim (Option-cases (append_events call.ctx call.clock (l ∷ []) s).2) [
        | inr (x, bad) ↦
            absurd (cc (done, ap (λ r. r.2) (save_refused agg frequency call a e s one bad)))
        | inl fine ↦ ap (λ r. r.1) (save_accepted agg frequency call a e s one fine).1
      ]

module _ {F D : Type 0} (fl : Float F) (codecs : WalletCodecs F D) where
  -- An aggregate that is loaded from a snapshot ahead of the log has the snapshot's version.
  load_ahead :
      (fresh w' : WalletAggregate F D) (x : WalletSnapshot F) (snap : Snapshot D) (s : Store D)
      → IsConsistent s
      → lookup snap.aggregate_id s.snapshots ≡ some snap
      → codecs.snapshot.unmarshal snap.snapshot_data ≡ some x
      → snap.aggregate_version + 1 < half
      → length (of_aggregate snap.aggregate_id s.events) ≤ snap.aggregate_version
      → load_aggregate (wallet_aggregate fl codecs) none snap.aggregate_id fresh s ≡ ok w'
      → (w'.base.id ≡ x.id)
        × (w'.base.version ≡ snap.aggregate_version)
        × (w'.base.uncommitted_events ≡ fresh.base.uncommitted_events)
  load_ahead fresh w' x snap s ic found read room few loaded =
      let agg = wallet_aggregate fl codecs in
      let v = snap.aggregate_version in
      let w : WalletAggregate F D = record fresh {
        base = record (fresh.base) { id = x.id; version = v };
        user_id = x.user_id;
        currency = x.currency;
        balance = x.balance;
        created_at = x.created_at;
        updated_at = x.updated_at;
      } in
      let next : add64 v 1 ≡ suc v = add64_small v 1 room ∙ omega arith in
      let rest : replay_from agg none snap.aggregate_id s w (suc v) ≡ ok w =
        replay_from_lem agg snap.aggregate_id s w (suc v) ic (omega arith)
        ∙ ap (λ l. apply_all agg l w)
            (drop_all (suc v - 1) (of_aggregate snap.aggregate_id s.events) (omega arith))
        ∙ unfold apply_all in refl in
      let whole : load_aggregate agg none snap.aggregate_id fresh s ≡ ok w =
        unfold load_aggregate get_snapshot load_wallet_snapshot in
        rw (found, load_aggregate, read, load_aggregate, next) rest in
      let same = ok-injective (sym loaded ∙ whole) in
      (
        ap (λ a. a.base.id) same,
        ap (λ a. a.base.version) same,
        ap (λ a. a.base.uncommitted_events) same,
      )

  -- A wallet at the version of its log is changed by AddBalance, and a Save of it succeeds that
  -- is due to write a snapshot, which can be encoded and read back with the wallet's id. Let the
  -- wallet be loaded from the store that this Save leaves, before any other call changes that
  -- store, changed by another AddBalance and saved. If both Saves have live contexts and the
  -- first one left the store open, this second Save is refused with a version conflict, and the
  -- store stays as it is.
  pub snapshot_locks_wallet :
      (c c' : Command D) (x x' : F) (text text' : String) (frequency : Int64)
      (call call' : SaveCall) (w w1 w2 fresh w3 w4 : WalletAggregate F D) (y : WalletSnapshot F)
      (d : D) (s s' : Store D)
      → IsConsistent s
      → s.sequence_counter + 3 < half
      → w.base.uncommitted_events ≡ []
      → w.base.version ≡ length (of_aggregate w.base.id s.events)
      → add_balance fl codecs c x text w ≡ (w1, none)
      → save_aggregate (wallet_aggregate fl codecs) frequency call w1 s ≡ (s', w2, none)
      → should_create_snapshot (wallet_aggregate fl codecs) frequency w2 ≡ true
      → snapshot_wallet fl codecs w2 ≡ some d
      → codecs.snapshot.unmarshal d ≡ some y
      → y.id ≡ w.base.id
      → fresh.base.uncommitted_events ≡ []
      → load_aggregate (wallet_aggregate fl codecs) none w.base.id fresh s' ≡ ok w3
      → add_balance fl codecs c' x' text' w3 ≡ (w4, none)
      → s'.closed ≡ false
      → call.ctx ≡ none
      → call'.ctx ≡ none
      → let n = length (of_aggregate w.base.id s.events) in
        let r = save_aggregate (wallet_aggregate fl codecs) frequency call' w4 s' in
        (r.0 ≡ s') × (r.2 ≡ some (conflict_at 0 (n + 2) (n + 3)))
  snapshot_locks_wallet c c' x x' text text' frequency call call' w w1 w2 fresh w3 w4 y d s s' ic
        room clean fits first saved due made read named blank loaded second live ctx ctx' =
      let agg = wallet_aggregate fl codecs in
      let n = length (of_aggregate w.base.id s.events) in
      let few = length-of_aggregate-le s.sequence_counter s.events w.base.id ic.is_log.ascending in
      let (e, v, raised, same, one) = add_balance_versions fl codecs c x text w w1 first in
      let one' : w1.base.uncommitted_events ≡ e ∷ [] = one ∙ ap (λ l. l ++ e ∷ []) clean in
      let fine = ap (λ r. r.2) saved in
      let marked : w2 ≡ agg.with_base (mark_events_as_committed w1.base) w1 =
        ap (λ r. r.1) (sym saved) ∙ save_marks agg frequency call w1 e s one' fine in
      let (ic1, grown1, _) =
        save_one agg (wallet-IsLens fl codecs) frequency call w1 e s ic (omega arith) one' fine in
      let ic' : IsConsistent s' = subst IsConsistent (ap (λ r. r.0) saved) ic1 in
      let grown : length (of_aggregate w.base.id s'.events) ≡ suc n =
        ap (λ i. length (of_aggregate i s'.events)) (sym same)
        ∙ ap (λ r. length (of_aggregate w1.base.id r.0.events)) (sym saved)
        ∙ grown1
        ∙ ap (λ i. suc (length (of_aggregate i s.events))) same in
      let snap : Snapshot D = record {
        aggregate_id = w.base.id;
        aggregate_type = "wallet";
        aggregate_version = w1.base.version;
        snapshot_data = d;
        created_at = call.snapshot_time;
      } in
      let version : w1.base.version ≡ n + 2 = unfold add64 in omega arith in
      let found : lookup w.base.id s'.snapshots ≡ some snap =
        ap (λ i. lookup i s'.snapshots) (sym same)
        ∙ ap (λ r. lookup w1.base.id r.0.snapshots) (sym saved)
        ∙ save_snapshots agg frequency call w1 e s d one' ctx fine
            (ap (λ a. should_create_snapshot agg frequency a) (sym marked) ∙ due)
            (ap (λ a. snapshot_wallet fl codecs a) (sym marked) ∙ made)
        ∙ ap (λ i. some (record snap { aggregate_id = i })) same in
      let (id3, v3, none3) =
        load_ahead fresh w3 y snap s' ic' found read (omega arith) (omega arith) loaded in
      let (e', v', _, same', one'') = add_balance_versions fl codecs c' x' text' w3 w4 second in
      let id4 : w4.base.id ≡ w.base.id = same' ∙ id3 ∙ named in
      let count : length (of_aggregate w4.base.id s'.events) ≡ n + 1 =
        ap (λ i. length (of_aggregate i s'.events)) id4 ∙ grown ∙ omega arith in
      let ahead : e'.aggregate_version ≡ n + 3 = unfold add64 in omega arith in
      let r =
        save_ahead agg frequency call' w4 e' s' (n + 1) ic' live ctx' count
          (one'' ∙ ap (λ l. l ++ e' ∷ []) (none3 ∙ blank)) (omega arith) (omega arith) in
      (r.0, r.1 ∙ ground arith)
