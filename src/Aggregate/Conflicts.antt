-- ===== src/Aggregate/Conflicts.antt =====
-- Load, a command and Save, over and over: which of the saves the event store accepts.
use draftea_payment.Prelude.{
  ℕ, suc, ◌+◌, ◌<◌, ◌≡◌, refl, sym, ap, ◌∙◌, String, Int64, half, false, none, some, [], ◌∷◌, ◌++◌,
  arith, length, lookup_or, add64, subst, Float, eq_refl,
}
use draftea_payment.EventStore.Event.{Event}
use draftea_payment.EventStore.Memory.{
  Store, conflict_at, append_events, append_batch, version_conflicts, assign_versions,
}
use draftea_payment.EventStore.Log.{of_aggregate, IsConsistent, length-of_aggregate-le}
use draftea_payment.EventStore.Batch.{assign_versions_go, append_batch_stored}
use draftea_payment.Aggregate.Base.{Aggregate, mark_events_as_committed, IsLens}
use draftea_payment.Aggregate.Repository.{SaveCall, label, save_aggregate}
use draftea_payment.Aggregate.Payment.{Command}
use draftea_payment.Aggregate.Wallet.{WalletAggregate, WalletCodecs, wallet_aggregate, add_balance}
use draftea_payment.Aggregate.Versions.{
  add_balance_versions, append_events_ahead, save_one, save_refused, save_accepted,
}

-- An event with the next version is accepted.
append_events_next :
    {D : Type 0} (clock : ℕ → ℕ) (e : Event D) (s : Store D) (n : ℕ)
    → IsConsistent s
    → s.closed ≡ false
    → length (of_aggregate e.aggregate_id s.events) ≡ n
    → s.sequence_counter + 1 < half
    → e.aggregate_version ≡ n + 1
    → (append_events none clock (e ∷ []) s).2 ≡ none
append_events_next clock e s n c live count room next =
    let version : lookup_or 0 e.aggregate_id s.aggregate_versions + 0 ≡ n =
      omega (arith, c.counted e.aggregate_id) in
    let few =
      length-of_aggregate-le s.sequence_counter s.events e.aggregate_id c.is_log.ascending in
    let on_time : version_conflicts e (suc n) ≡ false = unfold version_conflicts in ground arith in
    let go =
      assign_versions_go clock (lookup_or 0 e.aggregate_id s.aggregate_versions) 0
        s.sequence_counter n e [] version (omega arith) (omega arith) on_time in
    let own = eq_refl e.aggregate_id in
    let called : append_events none clock (e ∷ []) s
        ≡ append_batch clock e.aggregate_id (e ∷ []) s =
      unfold append_events in rw (own, live) refl in
    ap (λ r. r.2)
      (called
        ∙ append_batch_stored clock e.aggregate_id (e ∷ []) s
            (ap (λ r. r.2) go ∙ unfold assign_versions in refl))

module _ {X D A : Type 0} (agg : Aggregate X D A) where
  -- Save refuses an event whose version is ahead of the log, and leaves the store as it is.
  pub save_ahead :
      (frequency : Int64) (call : SaveCall) (a : A) (e : Event D) (s : Store D) (n : ℕ)
      → IsConsistent s
      → s.closed ≡ false
      → call.ctx ≡ none
      → length (of_aggregate (agg.base a).id s.events) ≡ n
      → (agg.base a).uncommitted_events ≡ e ∷ []
      → n + 1 < e.aggregate_version
      → e.aggregate_version < half
      → ((save_aggregate agg frequency call a s).0 ≡ s)
        × ((save_aggregate agg frequency call a s).2
            ≡ some (conflict_at 0 (n + 1) e.aggregate_version))
  save_ahead frequency call a e s n c live ctx count one ahead room =
      let l = label (agg.base a).id (agg.get_type a) call e in
      let stop : append_events call.ctx call.clock (l ∷ []) s
          ≡ (s, l ∷ [], some (conflict_at 0 (n + 1) e.aggregate_version)) =
        rw ctx (append_events_ahead call.clock l s n c live count ahead room) in
      let refused = save_refused agg frequency call a e s one (ap (λ r. r.2) stop) in
      (ap (λ r. r.0) refused ∙ ap (λ r. r.0) stop, ap (λ r. r.2) refused)

module _ {F D : Type 0} (fl : Float F) (codecs : WalletCodecs F D) where
  pub wallet-IsLens : IsLens (wallet_aggregate fl codecs)
  wallet-IsLens = record { base-with_base = λ b w. refl }

  -- A wallet that stands at the version of its log is changed by AddBalance and saved: the store
  -- accepts it, and its log is longer by one event.
  pub loaded_save_accepted :
      (c : Command D) (x : F) (text : String) (frequency : Int64) (call : SaveCall)
      (w w1 : WalletAggregate F D) (s : Store D)
      → IsConsistent s
      → s.sequence_counter + 1 < half
      → s.closed ≡ false
      → call.ctx ≡ none
      → w.base.uncommitted_events ≡ []
      → w.base.version ≡ length (of_aggregate w.base.id s.events)
      → add_balance fl codecs c x text w ≡ (w1, none)
      → let r = save_aggregate (wallet_aggregate fl codecs) frequency call w1 s in
        (r.2 ≡ none)
        × IsConsistent r.0
        × (length (of_aggregate w.base.id r.0.events)
            ≡ suc (length (of_aggregate w.base.id s.events)))
  loaded_save_accepted c x text frequency call w w1 s ic room live ctx clean fits done =
      let agg = wallet_aggregate fl codecs in
      let few = length-of_aggregate-le s.sequence_counter s.events w.base.id ic.is_log.ascending in
      let (e, v, raised, same, one) = add_balance_versions fl codecs c x text w w1 done in
      let one' : w1.base.uncommitted_events ≡ e ∷ [] = one ∙ ap (λ l. l ++ e ∷ []) clean in
      let l = label w1.base.id "wallet" call e in
      let next : e.aggregate_version ≡ length (of_aggregate w.base.id s.events) + 1 =
        unfold add64 in omega arith in
      let fine : (append_events call.ctx call.clock (l ∷ []) s).2 ≡ none = rw ctx (
        append_events_next call.clock l s (length (of_aggregate w.base.id s.events)) ic live
          (ap (λ i. length (of_aggregate i s.events)) same) room next) in
      let accepted = ap (λ r. r.2) (save_accepted agg frequency call w1 e s one' fine).1 in
      let (ic', grown, _) =
        save_one agg wallet-IsLens frequency call w1 e s ic room one' accepted in
      let (s', _, _) = save_aggregate agg frequency call w1 s in
      (
        accepted,
        ic',
        ap (λ i. length (of_aggregate i s'.events)) (sym same)
            ∙ grown
            ∙ ap (λ i. suc (length (of_aggregate i s.events))) same,
      )

  -- A wallet at the version of its log is changed by AddBalance and saved, and then changed by
  -- AddBalance and saved again, with no Load and no other call on the store in between. If the
  -- first Save left the store open and the second has a live context, the store refuses the
  -- second Save with a version conflict and stays as it is.
  pub second_save_refused :
      (c c' : Command D) (x x' : F) (text text' : String) (frequency : Int64)
      (call call' : SaveCall) (w w1 w2 w3 : WalletAggregate F D) (s s' : Store D)
      → IsConsistent s
      → s.sequence_counter + 3 < half
      → w.base.uncommitted_events ≡ []
      → w.base.version ≡ length (of_aggregate w.base.id s.events)
      → add_balance fl codecs c x text w ≡ (w1, none)
      → save_aggregate (wallet_aggregate fl codecs) frequency call w1 s ≡ (s', w2, none)
      → add_balance fl codecs c' x' text' w2 ≡ (w3, none)
      → s'.closed ≡ false
      → call'.ctx ≡ none
      → let n = length (of_aggregate w.base.id s.events) in
        let r = save_aggregate (wallet_aggregate fl codecs) frequency call' w3 s' in
        (r.0 ≡ s') × (r.2 ≡ some (conflict_at 0 (n + 2) (n + 3)))
  second_save_refused c c' x x' text text' frequency call call' w w1 w2 w3 s s' ic room clean fits
        first saved second live ctx =
      let agg = wallet_aggregate fl codecs in
      let n = length (of_aggregate w.base.id s.events) in
      let few = length-of_aggregate-le s.sequence_counter s.events w.base.id ic.is_log.ascending in
      let (e, v, raised, same, one) = add_balance_versions fl codecs c x text w w1 first in
      let one' : w1.base.uncommitted_events ≡ e ∷ [] = one ∙ ap (λ l. l ++ e ∷ []) clean in
      let done =
        save_one agg wallet-IsLens frequency call w1 e s ic (omega arith) one'
          (ap (λ r. r.2) saved) in
      let ic' : IsConsistent s' = subst IsConsistent (ap (λ r. r.0) saved) done.0 in
      let grown : length (of_aggregate w1.base.id s'.events)
          ≡ suc (length (of_aggregate w1.base.id s.events)) =
        ap (λ r. length (of_aggregate w1.base.id r.0.events)) (sym saved) ∙ done.1 in
      let kept : w2.base ≡ mark_events_as_committed w1.base =
        ap (λ r. r.1.base) (sym saved) ∙ done.2 in
      let (e', v', _, same', one'') = add_balance_versions fl codecs c' x' text' w2 w3 second in
      let id3 : w3.base.id ≡ w.base.id = same' ∙ ap (λ b. b.id) kept ∙ same in
      let count : length (of_aggregate w3.base.id s'.events) ≡ n + 1 =
        ap (λ i. length (of_aggregate i s'.events)) (id3 ∙ sym same)
        ∙ grown
        ∙ ap (λ i. suc (length (of_aggregate i s.events))) same
        ∙ omega arith in
      let ahead : e'.aggregate_version ≡ n + 3 =
        let version = ap (λ b. b.version) kept in unfold add64 in omega arith in
      let r =
        save_ahead agg frequency call' w3 e' s' (n + 1) ic' live ctx count
          (one'' ∙ ap (λ b. b.uncommitted_events ++ e' ∷ []) kept) (omega arith) (omega arith) in
      (r.0, r.1 ∙ ground arith)
