-- ===== src/Tests/Aggregates.antt =====
-- Examples for the aggregates: a new wallet in a new store, with amounts that are numbers.
use draftea_payment.Prelude.{
  ℕ, ◌+◌, ◌-◌, ◌*◌, ◌/◌, ◌≡◌, refl, String, Option, none, some, [], ◌∷◌, arith, Int64, Float, ltb,
  leb, insert, lookup, lookup_or, add64, lt64, some-injective, ap, sym, ◌∙◌,
}
use draftea_payment.EventStore.Event.{Snapshot, new_event}
use draftea_payment.EventStore.Memory.{
  Store, conflict_at, new_store, append_events, append_batch, assign_versions, version_conflicts,
  stamp, record_events, record_event, notify_subscribers, notify_channels, notify_filtered,
  create_snapshot, get_snapshot, get_events_by_aggregate,
}
use draftea_payment.EventStore.Log.{of_aggregate, IsConsistent}
use draftea_payment.Aggregate.Base.{new_base, add_uncommitted_event}
use draftea_payment.Aggregate.Repository.{
  SaveCall, save_aggregate, should_create_snapshot, snapshot_aggregate, load_aggregate, replay_from,
  apply_all,
}
use draftea_payment.Aggregate.Payment.{
  Codec, Command, PaymentCodecs, PaymentAggregate, PaymentInitiatedData, PaymentSnapshot,
  new_payment_aggregate, snapshot_payment, load_payment_snapshot, initiate_payment,
  complete_payment, cannot_complete, raise_payment_event, apply_payment_event,
}
use draftea_payment.Aggregate.Wallet.{
  WalletAggregate, WalletCodecs, BalanceData, WalletSnapshot, wallet_aggregate,
  new_wallet_aggregate, add_balance, raise_wallet_event, apply_wallet_event, snapshot_wallet,
  load_wallet_snapshot,
}
use draftea_payment.Aggregate.Replay.{load_aggregate_snapshot}
use draftea_payment.Aggregate.Versions.{save_one, snapshots-IsConsistent}
use draftea_payment.Aggregate.Conflicts.{second_save_refused, wallet-IsLens}
use draftea_payment.Aggregate.Snapshots.{snapshot_locks_wallet}
use draftea_payment.Aggregate.Lifecycle.{start, initiates, restores, complete_payment_refused}

-- Whole numbers in the place of float64.
abbrev pub whole : Float ℕ
whole = record {
  zero_float = 0;
  add = λ a b. a + b;
  sub = λ a b. a - b;
  lt = ltb;
  le = leb;
  mul = λ a b. a * b;
  div = λ a b. a / b;
  power = λ a b. a;
  from_int = λ a. a;
  to_int = λ a. a;
}

-- What stands in the place of JSON.
data Doc : Type 0 where
  balance_doc : BalanceData ℕ → Doc
  wallet_doc : WalletSnapshot ℕ → Doc
  text_doc : String → Doc

abbrev to_balance : Doc → Option (BalanceData ℕ)
to_balance (balance_doc x) = some x
to_balance (wallet_doc x) = none
to_balance (text_doc t) = none

abbrev to_wallet : Doc → Option (WalletSnapshot ℕ)
to_wallet (balance_doc x) = none
to_wallet (wallet_doc x) = some x
to_wallet (text_doc t) = none

abbrev codecs : WalletCodecs ℕ Doc
codecs = record {
  added = record { marshal = λ x. some (balance_doc x); unmarshal = to_balance };
  deducted = record { marshal = λ x. some (balance_doc x); unmarshal = to_balance };
  snapshot = record { marshal = λ x. some (wallet_doc x); unmarshal = to_wallet };
}

abbrev command : Command Doc
command = record {
  event_id = "e";
  correlation_id = "c";
  now = 7;
  event_metadata = some (text_doc "");
}

abbrev call : SaveCall
call = record {
  ctx = none;
  clock = λ i. 8;
  snapshot_time = 9;
  caused_by = "u";
  correlation_id = "c";
}

abbrev empty_store : Store Doc
empty_store = new_store

fresh_store-IsConsistent : IsConsistent empty_store
unfolding new_store lookup_or
fresh_store-IsConsistent = record {
  is_log = record { ascending = omega arith; indexed = λ agg. refl; numbered = λ agg. tt };
  counted = λ agg. refl;
  bounded = omega arith;
}

abbrev fresh : WalletAggregate ℕ Doc
fresh = new_wallet_aggregate whole codecs "w" "u" "USD" 5

abbrev topped_up : WalletAggregate ℕ Doc
topped_up = (add_balance whole codecs command 100 "first" fresh).0

-- What a Save leaves: one that writes no snapshot, and one that does.
abbrev saved : Int64 → Store Doc × WalletAggregate ℕ Doc
saved frequency =
    let (s, w, _) =
      save_aggregate (wallet_aggregate whole codecs) frequency call topped_up empty_store in
    (s, w)

abbrev topped_up_again : WalletAggregate ℕ Doc
topped_up_again = (add_balance whole codecs command 50 "second" (saved 0).1).0

second_save_refused_example :
    let r = save_aggregate (wallet_aggregate whole codecs) 0 call topped_up_again (saved 0).0 in
    (r.0 ≡ (saved 0).0) × (r.2 ≡ some (conflict_at 0 2 3))
unfolding new_store add_balance raise_wallet_event apply_wallet_event new_event
    add_uncommitted_event save_aggregate should_create_snapshot append_events append_batch
    assign_versions version_conflicts stamp record_events record_event notify_subscribers
    notify_channels notify_filtered lookup lookup_or insert add64 lt64
second_save_refused_example =
    second_save_refused whole codecs command command 100 50 "first" "second" 0 call call fresh
      topped_up (saved 0).1 topped_up_again empty_store (saved 0).0 fresh_store-IsConsistent
      (omega arith) refl refl refl refl refl refl refl

abbrev snapshot : WalletSnapshot ℕ
snapshot = record {
  id = "w";
  user_id = "u";
  currency = "USD";
  balance = 100;
  created_at = 5;
  updated_at = 7;
  version = 2;
}

-- The wallet that Load makes of the snapshot.
abbrev loaded : WalletAggregate ℕ Doc
loaded = record fresh { base = record (fresh.base) { version = 2 }; balance = 100; updated_at = 7 }

abbrev loaded_topped_up : WalletAggregate ℕ Doc
loaded_topped_up = (add_balance whole codecs command 50 "second" loaded).0

snapshot_locks_wallet_example :
    let r = save_aggregate (wallet_aggregate whole codecs) 2 call loaded_topped_up (saved 2).0 in
    (r.0 ≡ (saved 2).0) × (r.2 ≡ some (conflict_at 0 2 3))
unfolding new_store add_balance raise_wallet_event apply_wallet_event new_event
    add_uncommitted_event save_aggregate should_create_snapshot snapshot_aggregate create_snapshot
    snapshot_wallet load_aggregate get_snapshot load_wallet_snapshot replay_from
    get_events_by_aggregate apply_all append_events append_batch assign_versions version_conflicts
    stamp record_events record_event notify_subscribers notify_channels notify_filtered lookup
    lookup_or insert add64 lt64
snapshot_locks_wallet_example =
    snapshot_locks_wallet whole codecs command command 100 50 "first" "second" 2 call call fresh
      topped_up (saved 2).1 fresh loaded loaded_topped_up snapshot (wallet_doc snapshot) empty_store
      (saved 2).0 fresh_store-IsConsistent (omega arith) refl refl refl refl refl refl refl refl
      refl refl refl refl refl refl

-- A snapshot of the wallet at its only event.
abbrev faithful : Snapshot Doc
faithful = record {
  aggregate_id = "w";
  aggregate_type = "wallet";
  aggregate_version = 1;
  snapshot_data = wallet_doc (record snapshot { version = 1 });
  created_at = 9;
}

abbrev with_snapshot : Store Doc
with_snapshot = record (saved 0).0 { snapshots = ("w", faithful) ∷ [] }

with_snapshot-IsConsistent : IsConsistent with_snapshot
unfolding new_store add_balance raise_wallet_event apply_wallet_event new_event
    add_uncommitted_event save_aggregate should_create_snapshot append_events append_batch
    assign_versions version_conflicts stamp record_events record_event notify_subscribers
    notify_channels notify_filtered lookup lookup_or insert add64 lt64
with_snapshot-IsConsistent =
    snapshots-IsConsistent (("w", faithful) ∷ []) (saved 0).0
      (save_one (wallet_aggregate whole codecs) (wallet-IsLens whole codecs) 0 call topped_up _
        empty_store fresh_store-IsConsistent (omega arith) refl refl).0

load_aggregate_snapshot_example :
    load_aggregate (wallet_aggregate whole codecs) none "w" fresh with_snapshot
    ≡ apply_all (wallet_aggregate whole codecs) (of_aggregate "w" with_snapshot.events) fresh
unfolding new_store add_balance raise_wallet_event apply_wallet_event new_event
    add_uncommitted_event save_aggregate should_create_snapshot load_wallet_snapshot apply_all
    append_events append_batch assign_versions version_conflicts stamp record_events record_event
    notify_subscribers notify_channels notify_filtered lookup lookup_or insert add64 lt64
load_aggregate_snapshot_example =
    load_aggregate_snapshot (wallet_aggregate whole codecs) "w" fresh
      (record loaded { base = record (loaded.base) { version = 1 } }) faithful with_snapshot
      with_snapshot-IsConsistent refl (omega arith) refl refl

-- Documents that only the data of PaymentInitiated and of a snapshot can be read from.
data Document : Type 0 where
  initiation : PaymentInitiatedData ℕ → Document
  photo : PaymentSnapshot ℕ → Document
  blank : Document

abbrev initiation_in : Document → Option (PaymentInitiatedData ℕ)
initiation_in (initiation x) = some x
initiation_in _ = none

abbrev photo_in : Document → Option (PaymentSnapshot ℕ)
photo_in (photo x) = some x
photo_in _ = none

abbrev unread : {A : Type 0} → Codec A Document
unread = record { marshal = λ x. some blank; unmarshal = λ d. none }

abbrev payment_codecs : PaymentCodecs ℕ (Document)
payment_codecs = record {
  initiated = record { marshal = λ x. some (initiation x); unmarshal = initiation_in };
  completed = unread;
  failed = unread;
  snapshot = record { marshal = λ x. some (photo x); unmarshal = photo_in };
}

abbrev payment_command : Command (Document)
payment_command = record {
  event_id = "e";
  correlation_id = "c";
  now = 7;
  event_metadata = some blank;
}

abbrev new_payment : PaymentAggregate ℕ (Document)
new_payment = new_payment_aggregate "p" "u" 30 "USD" "card" 5

abbrev initiated_payment : PaymentAggregate ℕ (Document)
initiated_payment = (initiate_payment payment_codecs payment_command new_payment).0

-- Another payment, to which the snapshot of the first is restored.
abbrev restored_payment : PaymentAggregate ℕ Document
restored_payment = record initiated_payment {
  base = record (new_base "p" "payment") { version = 2 };
}

photo_kept :
    (x y : PaymentSnapshot ℕ) (d : Document)
    → payment_codecs.snapshot.marshal x ≡ some d
    → payment_codecs.snapshot.unmarshal d ≡ some y
    → y.status ≡ x.status
photo_kept x y d written read =
    let same = some-injective written in
    let found : payment_codecs.snapshot.unmarshal (photo x) ≡ some y = ap photo_in same ∙ read in
    ap (λ (z : PaymentSnapshot ℕ). z.status) (sym (some-injective found))

complete_payment_refused_example :
    complete_payment payment_codecs payment_command "t" restored_payment
    ≡ (restored_payment, some (cannot_complete "initiated"))
unfolding initiate_payment raise_payment_event apply_payment_event new_event add_uncommitted_event
    snapshot_payment load_payment_snapshot add64
complete_payment_refused_example =
    complete_payment_refused payment_codecs payment_command "t" restored_payment photo_kept (
      restores _ initiated_payment new_payment restored_payment
        (initiates payment_command new_payment (start "p" "u" 30 "USD" "card" 5))
        (start "p" "u" 30 "USD" "card" 5) refl refl)
