-- ===== src/Aggregate/Replay.antt =====
-- Load against the log: an aggregate is the replay of its events, with or without a snapshot.
use draftea_payment.Prelude.{
  suc, ◌+◌, ◌-◌, ◌<◌, ◌≡◌, sym, ap, ◌∙◌, String, Int64, half, none, some, List, [], ◌∷◌, ◌++◌, ok,
  arith, take, drop, lookup, add64, add64_small, Option-cases, ok-injective, inl, inr,
  take-append-drop,
}
use draftea_payment.EventStore.Event.{Event, Snapshot}
use draftea_payment.EventStore.Memory.{Store, get_snapshot}
use draftea_payment.EventStore.Log.{of_aggregate, IsConsistent}
use draftea_payment.EventStore.Reads.{get_events_by_aggregate_lem}
use draftea_payment.Aggregate.Base.{Aggregate, set_version}
use draftea_payment.Aggregate.Repository.{apply_all, replay_from, load_aggregate}

module _ {X D A : Type 0} (agg : Aggregate X D A) where
  -- Replaying two stretches of a log is replaying the one and then the other.
  pub apply_all-append :
      (es fs : List (Event D)) (a b : A)
      → apply_all agg es a ≡ ok b
      → apply_all agg (es ++ fs) a ≡ apply_all agg fs b
  unfolding apply_all
  apply_all-append [] fs a b h = ap (apply_all agg fs) (ok-injective h)
  apply_all-append (e ∷ es) fs a b h =
      let (a', failure) = agg.apply_event e a in
      elim (Option-cases failure) [
        | inl fine ↦
            rw (fine, apply_all)
              (apply_all-append es fs (set_version agg e.aggregate_version a') b
                (rw (fine, apply_all) at h))
        | inr (x, broken) ↦ absurd (ground arith)
      ]

  pub replay_from_lem :
      (id : String) (s : Store D) (a : A) (from : Int64)
      → IsConsistent s
      → from < half
      → replay_from agg none id s a from
        ≡ apply_all agg (drop (from - 1) (of_aggregate id s.events)) a
  unfolding replay_from
  replay_from_lem id s a from c h = rw (get_events_by_aggregate_lem id from s c h, replay_from)

  -- Load of an aggregate without a snapshot is the replay of all its events in the log.
  pub load_aggregate_lem :
      (id : String) (fresh : A) (s : Store D)
      → IsConsistent s
      → lookup id s.snapshots ≡ none
      → load_aggregate agg none id fresh s ≡ apply_all agg (of_aggregate id s.events) fresh
  unfolding load_aggregate get_snapshot
  load_aggregate_lem id fresh s c none_yet =
      rw (none_yet, load_aggregate) (replay_from_lem id s fresh 0 c (omega arith))

  -- A snapshot is no more than a shortcut: where it holds what the replay of the events up to its
  -- version gives, Load gives what the replay of all events gives.
  pub load_aggregate_snapshot :
      (id : String) (fresh a : A) (snap : Snapshot D) (s : Store D)
      → IsConsistent s
      → lookup id s.snapshots ≡ some snap
      → snap.aggregate_version + 1 < half
      → agg.load_from_snapshot snap.snapshot_data fresh ≡ some a
      → apply_all agg (take snap.aggregate_version (of_aggregate id s.events)) fresh
        ≡ ok (set_version agg snap.aggregate_version a)
      → load_aggregate agg none id fresh s ≡ apply_all agg (of_aggregate id s.events) fresh
  unfolding load_aggregate get_snapshot
  load_aggregate_snapshot id fresh a snap s c found room loaded faithful =
      let v = snap.aggregate_version in
      let log = of_aggregate id s.events in
      let a' = set_version agg v a in
      let next : add64 v 1 ≡ suc v = add64_small v 1 room ∙ omega arith in
      let rest : replay_from agg none id s a' (suc v) ≡ apply_all agg (drop v log) a' =
        replay_from_lem id s a' (suc v) c (omega arith)
        ∙ ap (λ n. apply_all agg (drop n log) a') (omega arith) in
      let whole : apply_all agg log fresh ≡ apply_all agg (drop v log) a' =
        ap (λ l. apply_all agg l fresh) (sym (take-append-drop v log))
        ∙ apply_all-append (take v log) (drop v log) fresh a' faithful in
      rw (found, loaded, next, load_aggregate) (rest ∙ sym whole)
