-- ===== src/Concurrency/Balances.antt =====
-- pkg/eventstore/concurrency_control.go: ConcurrentWalletService. The balances are float64, the
-- clock's readings are inputs, and so are the outcomes of taking the user's lock. What a
-- goroutine does under a balance's mutex is one step; Others is what the other goroutines do
-- between two such steps.
use draftea_payment.Prelude.{
  ℕ, zero, suc, String, Int64, true, false, Option, none, some, [], CtxError, Dict, lookup,
  lookup_or, insert, if◌then◌else◌, ◌==◌, add64, Float, Result, ok, err,
}

pub data Strategy : Type 0 where
  pessimistic optimistic partition_based : Strategy
  other_strategy : String → Strategy

pub record WalletBalance (F : Type 0) : Type 0 where
  pub user_id : String
  pub currency : String
  pub balance : F
  pub version : Int64
  pub last_updated : ℕ
  pub transaction_count : Int64

abbrev pub Balances : Type 0 → Type 0
Balances F = Dict (Dict (WalletBalance F))

-- Why LockUser or RLockUser gives no lock.
pub data LockFault : Type 0 where
  lock_timeout : LockFault
  lock_cancelled : CtxError → LockFault

pub data FundsError : Type 0 where
  not_locked : LockFault → FundsError
  insufficient_balance too_many_conflicts : FundsError
  unknown_strategy : FundsError

-- What happens in a round of an optimistic loop, counted down: between its read and its write, and
-- while it waits after a conflict.
pub record Others (F : Type 0) : Type 0 where
  pub during : ℕ → Balances F → Balances F
  pub waiting : ℕ → Balances F → Balances F

module _ {F : Type 0} (fl : Float F) where
  abbrev pub new_balance : String → String → ℕ → WalletBalance F
  new_balance user currency now = record {
    user_id = user;
    currency = currency;
    balance = fl.zero_float;
    version = 1;
    last_updated = now;
    transaction_count = 0;
  }

  abbrev pub find_balance : String → String → Balances F → Option (WalletBalance F)
  find_balance user currency s = lookup currency (lookup_or [] user s)

  -- A write to the balance that `balances` points to.
  unfoldable pub put_balance : String → String → WalletBalance F → Balances F → Balances F
  put_balance user currency b s = insert user (insert currency b (lookup_or [] user s)) s

  -- getOrCreateBalance. An absent and an empty map of a user are not told apart.
  unfoldable pub get_or_create_balance :
      String → String → ℕ → Balances F → Balances F × WalletBalance F
  get_or_create_balance user currency now s = elim (find_balance user currency s) [
    | some b ↦ (s, b)
    | none ↦
        (put_balance user currency (new_balance user currency now) s, new_balance user currency now)
  ]

  -- CheckBalance: the strategies read alike, the pessimistic one under the user's read lock.
  unfoldable pub check_balance :
      Strategy
      → Option LockFault
      → String
      → String
      → ℕ
      → Balances F
      → Balances F × Result FundsError F
  check_balance strategy lock user currency now s =
      let (s', b) = get_or_create_balance user currency now s in
      elim strategy [
        | pessimistic ↦ elim lock [ some x ↦ (s, err (not_locked x)) | none ↦ (s', ok b.balance) ]
        | optimistic ↦ (s', ok b.balance)
        | partition_based ↦ (s', ok b.balance)
        | other_strategy name ↦ (s, err unknown_strategy)
      ]

  -- The four writes of a deduction or a refund.
  abbrev pub book : F → ℕ → WalletBalance F → WalletBalance F
  book amount now b = record b {
    balance = amount;
    version = add64 b.version 1;
    last_updated = now;
    transaction_count = add64 b.transaction_count 1;
  }

  -- deductFundsPartitioned, and deductFundsPessimistic with the user's lock.
  unfoldable pub deduct_locked :
      String → String → F → ℕ → Balances F → Balances F × Option FundsError
  deduct_locked user currency amount now s =
      let (s', b) = get_or_create_balance user currency now s in
      if fl.lt b.balance amount
      then (s', some insufficient_balance)
      else (put_balance user currency (book (fl.sub b.balance amount) now b) s', none)

  -- refundFundsPartitioned, and refundFundsPessimistic with the user's lock.
  unfoldable pub refund_locked :
      String → String → F → ℕ → Balances F → Balances F × Option FundsError
  refund_locked user currency amount now s =
      let (s', b) = get_or_create_balance user currency now s in
      (put_balance user currency (book (fl.add b.balance amount) now b) s', none)

  -- deductFundsPessimistic and refundFundsPessimistic.
  unfoldable pub pessimistically :
      Option LockFault
      → (Balances F → Balances F × Option FundsError)
      → Balances F
      → Balances F × Option FundsError
  pessimistically (some x) action s = (s, some (not_locked x))
  pessimistically none action s = action s

  -- The loop of deductFundsOptimistic, with so many rounds left: it reads the balance, and writes it
  -- if its version is still the one that was read.
  -- No call removes a balance, so that looking it up again stands for following the pointer to it.
  unfoldable pub deduct_rounds :
      ℕ → Others F → String → String → F → ℕ → Balances F → Balances F × Option FundsError
  deduct_rounds zero others user currency amount now s = (s, some too_many_conflicts)
  deduct_rounds (suc left) others user currency amount now s =
      let (s1, read) = get_or_create_balance user currency now s in
      let s2 = others.during left s1 in
      let (s3, b) = get_or_create_balance user currency now s2 in
      elim (fl.lt read.balance amount) [
        | true ↦ (s1, some insufficient_balance)
        | false ↦ elim (b.version == read.version) [
          | true ↦ (put_balance user currency (book (fl.sub b.balance amount) now b) s3, none)
          | false ↦ deduct_rounds left others user currency amount now (others.waiting left s3)
        ]
      ]

  -- The loop of refundFundsOptimistic.
  unfoldable pub refund_rounds :
      ℕ → Others F → String → String → F → ℕ → Balances F → Balances F × Option FundsError
  refund_rounds zero others user currency amount now s = (s, some too_many_conflicts)
  refund_rounds (suc left) others user currency amount now s =
      let (s1, read) = get_or_create_balance user currency now s in
      let s2 = others.during left s1 in
      let (s3, b) = get_or_create_balance user currency now s2 in
      elim (b.version == read.version) [
        | true ↦ (put_balance user currency (book (fl.add b.balance amount) now b) s3, none)
        | false ↦ refund_rounds left others user currency amount now (others.waiting left s3)
      ]

  abbrev pub max_rounds : ℕ
  max_rounds = 5

  -- DeductFunds
  unfoldable pub deduct_funds :
      Strategy
      → Option LockFault
      → Others F
      → String
      → String
      → F
      → ℕ
      → Balances F
      → Balances F × Option FundsError
  deduct_funds strategy lock others user currency amount now s = elim strategy [
    | pessimistic ↦ pessimistically lock (deduct_locked user currency amount now) s
    | optimistic ↦ deduct_rounds max_rounds others user currency amount now s
    | partition_based ↦ deduct_locked user currency amount now s
    | other_strategy name ↦ (s, some unknown_strategy)
  ]

  -- RefundFunds
  unfoldable pub refund_funds :
      Strategy
      → Option LockFault
      → Others F
      → String
      → String
      → F
      → ℕ
      → Balances F
      → Balances F × Option FundsError
  refund_funds strategy lock others user currency amount now s = elim strategy [
    | pessimistic ↦ pessimistically lock (refund_locked user currency amount now) s
    | optimistic ↦ refund_rounds max_rounds others user currency amount now s
    | partition_based ↦ refund_locked user currency amount now s
    | other_strategy name ↦ (s, some unknown_strategy)
  ]

  -- ProcessPaymentRequested, which does not know the partitioned strategy.
  unfoldable pub process_payment_requested :
      Strategy
      → Option LockFault
      → Others F
      → String
      → String
      → F
      → ℕ
      → Balances F
      → Balances F × Option FundsError
  process_payment_requested strategy lock others user currency amount now s = elim strategy [
    | pessimistic ↦ pessimistically lock (deduct_locked user currency amount now) s
    | optimistic ↦ deduct_rounds max_rounds others user currency amount now s
    | partition_based ↦ (s, some unknown_strategy)
    | other_strategy name ↦ (s, some unknown_strategy)
  ]

  -- SetBalance
  unfoldable pub set_balance : String → String → F → ℕ → Balances F → Balances F
  set_balance user currency amount now s =
      let (s', b) = get_or_create_balance user currency now s in
      put_balance user currency
        (record b { balance = amount; version = add64 b.version 1; last_updated = now }) s'

  -- GetBalanceWithVersion, and GetBalance without the version.
  unfoldable pub get_balance_with_version :
      String → String → ℕ → Balances F → Balances F × F × Int64
  get_balance_with_version user currency now s =
      let (s', b) = get_or_create_balance user currency now s in (s', b.balance, b.version)
