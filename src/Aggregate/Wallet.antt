-- ===== src/Aggregate/Wallet.antt =====
-- pkg/eventstore/aggregates.go: WalletAggregate, whose balance is a float64.
use draftea_payment.Prelude.{
  ℕ, String, Int64, Option, none, some, if◌then◌else◌, str_eq, add64, Float,
}
use draftea_payment.EventStore.Event.{Event, new_event}
use draftea_payment.Aggregate.Base.{Aggregate, BaseAggregate, new_base, add_uncommitted_event}
use draftea_payment.Aggregate.Payment.{
  AggregateError, amount_not_positive, insufficient, event_not_made, data_unread, Codec, Command,
}

pub record WalletAggregate (F D : Type 0) : Type 0 where
  pub base : BaseAggregate D
  pub user_id : String
  pub currency : String
  pub balance : F
  pub created_at : ℕ
  pub updated_at : ℕ

-- BalanceAddedEventData, and BalanceDeductedEventData, whose last field is `DeductedAt`.
pub record BalanceData (F : Type 0) : Type 0 where
  pub wallet_id : String
  pub user_id : String
  pub amount : F
  pub currency : String
  pub description : String
  pub previous_balance : F
  pub new_balance : F
  pub changed_at : ℕ

pub record WalletSnapshot (F : Type 0) : Type 0 where
  pub id : String
  pub user_id : String
  pub currency : String
  pub balance : F
  pub created_at : ℕ
  pub updated_at : ℕ
  pub version : Int64

pub record WalletCodecs (F D : Type 0) : Type 0 where
  pub added : Codec (BalanceData F) D
  pub deducted : Codec (BalanceData F) D
  pub snapshot : Codec (WalletSnapshot F) D

module _ {F D : Type 0} (fl : Float F) (codecs : WalletCodecs F D) where
  -- NewWalletAggregate
  abbrev pub new_wallet_aggregate : String → String → String → ℕ → WalletAggregate F D
  new_wallet_aggregate id user currency now = record {
    base = new_base id "wallet";
    user_id = user;
    currency = currency;
    balance = fl.zero_float;
    created_at = now;
    updated_at = now;
  }

  abbrev apply_balance :
      Option (BalanceData F) → WalletAggregate F D → WalletAggregate F D × Option AggregateError
  apply_balance none w = (w, some data_unread)
  apply_balance (some x) w = (
    record w {
      base = record (w.base) { version = add64 w.base.version 1 };
      balance = x.new_balance;
      updated_at = x.changed_at;
    },
    none,
  )

  -- ApplyEvent. An event of another type only raises the version.
  unfoldable pub apply_wallet_event :
      Event D → WalletAggregate F D → WalletAggregate F D × Option AggregateError
  apply_wallet_event e w =
      if str_eq e.event_type "BalanceAdded"
      then apply_balance (codecs.added.unmarshal e.event_data) w
      else if str_eq e.event_type "BalanceDeducted"
      then apply_balance (codecs.deducted.unmarshal e.event_data) w
      else (record w { base = record (w.base) { version = add64 w.base.version 1 } }, none)

  -- The end of both commands: the event is made, added and applied.
  unfoldable pub raise_wallet_event :
      Command D
      → String
      → Option D
      → WalletAggregate F D
      → WalletAggregate F D × Option AggregateError
  raise_wallet_event c kind d w =
      elim (new_event c.event_id c.now d c.event_metadata w.base.id "wallet" kind w.user_id
        c.correlation_id) [
          | none ↦ (w, some event_not_made)
          | some e ↦
              let (b, e') = add_uncommitted_event e w.base in
              apply_wallet_event e' (record w { base = b })
        ]

  abbrev pub balance_data : Command D → F → F → String → WalletAggregate F D → BalanceData F
  balance_data c amount new_balance description w = record {
    wallet_id = w.base.id;
    user_id = w.user_id;
    amount = amount;
    currency = w.currency;
    description = description;
    previous_balance = w.balance;
    new_balance = new_balance;
    changed_at = c.now;
  }

  -- AddBalance
  unfoldable pub add_balance :
      Command D → F → String → WalletAggregate F D → WalletAggregate F D × Option AggregateError
  add_balance c amount description w =
      let d =
        codecs.added.marshal (balance_data c amount (fl.add w.balance amount) description w) in
      if fl.le amount fl.zero_float
      then (w, some amount_not_positive)
      else raise_wallet_event c "BalanceAdded" d w

  -- DeductBalance
  unfoldable pub deduct_wallet_balance :
      Command D → F → String → WalletAggregate F D → WalletAggregate F D × Option AggregateError
  deduct_wallet_balance c amount description w =
      let d =
        codecs.deducted.marshal (balance_data c amount (fl.sub w.balance amount) description w) in
      if fl.le amount fl.zero_float
      then (w, some amount_not_positive)
      else if fl.lt w.balance amount
      then (w, some insufficient)
      else raise_wallet_event c "BalanceDeducted" d w

  -- CreateSnapshot
  unfoldable pub snapshot_wallet : WalletAggregate F D → Option D
  snapshot_wallet w = codecs.snapshot.marshal (record {
    id = w.base.id;
    user_id = w.user_id;
    currency = w.currency;
    balance = w.balance;
    created_at = w.created_at;
    updated_at = w.updated_at;
    version = w.base.version;
  })

  -- LoadFromSnapshot
  unfoldable pub load_wallet_snapshot : D → WalletAggregate F D → Option (WalletAggregate F D)
  load_wallet_snapshot d w = elim (codecs.snapshot.unmarshal d) [
    | none ↦ none
    | some x ↦ some (record w {
      base = record (w.base) { id = x.id; version = x.version };
      user_id = x.user_id;
      currency = x.currency;
      balance = x.balance;
      created_at = x.created_at;
      updated_at = x.updated_at;
    })
  ]

  abbrev pub wallet_aggregate : Aggregate AggregateError D (WalletAggregate F D)
  wallet_aggregate = record {
    base = λ w. w.base;
    with_base = λ b w. record w { base = b };
    get_type = λ w. "wallet";
    apply_event = apply_wallet_event;
    create_snapshot = snapshot_wallet;
    load_from_snapshot = load_wallet_snapshot;
  }
