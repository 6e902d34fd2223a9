-- ===== src/Payment/Sql.antt =====
-- pkg/database/repositories.go: PaymentRepository, with the table `payments` and its check that an
-- amount is positive. `faults` says of the statements to come which of them PostgreSQL cannot
-- execute, and `clock` is the time of the next one.
use draftea_payment.Prelude.{
  ℕ, ◌+◌, Bool, false, not, Option, none, some, List, [], ◌∷◌, if◌then◌else◌, Result, ok, err, lt64,
  ◌==◌,
}
use draftea_payment.Payment.Entity.{PaymentStatus, Payment}

pub data DbError : Type 0 where
  no_rows query_failed check_violated : DbError

pub record PaymentDb : Type 0 where
  pub payments : List Payment
  pub clock : ℕ
  pub faults : List Bool

-- The next statement: whether it fails, and the database after it.
abbrev pub statement : PaymentDb → Bool × PaymentDb
statement d = elim d.faults [
  | [] ↦ (false, record d { clock = d.clock + 1 })
  | b ∷ bs ↦ (b, record d { clock = d.clock + 1; faults = bs })
]

-- WHERE id = $1
unfoldable pub find_payment : ℕ → List Payment → Option Payment
find_payment id [] = none
find_payment id (p ∷ ps) = if p.id == id then some p else find_payment id ps

-- INSERT … ON CONFLICT (id) DO UPDATE SET: three columns of the new row take the place of the old.
abbrev pub merge_payment : Payment → Payment → Payment
merge_payment new old = record old {
  status = new.status;
  gateway_txn_id = new.gateway_txn_id;
  updated_at = new.updated_at;
}

unfoldable pub upsert_payment : Payment → List Payment → List Payment
upsert_payment new [] = new ∷ []
upsert_payment new (p ∷ ps) =
    let rest = upsert_payment new ps in
    if p.id == new.id then merge_payment new p ∷ ps else p ∷ rest

-- Save
unfoldable pub save : Payment → PaymentDb → PaymentDb × Option DbError
save p d =
    let (fault, d') = statement d in
    if fault
    then (d', some query_failed)
    else if not (lt64 0 p.amount)
    then (d', some check_violated)
    else (record d' { payments = upsert_payment p d.payments }, none)

-- GetByID
unfoldable pub get_by_id : ℕ → PaymentDb → PaymentDb × Result DbError Payment
get_by_id id d =
    let (fault, d') = statement d in
    if fault
    then (d', err query_failed)
    else elim (find_payment id d.payments) [ none ↦ (d', err no_rows) | some p ↦ (d', ok p) ]

-- UPDATE payments SET status = $1, updated_at = $2 WHERE id = $3
unfoldable pub set_status : ℕ → PaymentStatus → ℕ → List Payment → List Payment
set_status id status now [] = []
set_status id status now (p ∷ ps) =
    (if p.id == id then record p { status = status; updated_at = now } else p)
    ∷ set_status id status now ps

-- UpdateStatus
unfoldable pub update_status : ℕ → PaymentStatus → PaymentDb → PaymentDb
update_status id status d =
    let (fault, d') = statement d in
    if fault then d' else record d' { payments = set_status id status d.clock d.payments }
