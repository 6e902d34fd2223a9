-- ===== src/Payment/Status.antt =====
-- The payment service without a saga orchestrator, over its SQL repository: what the table of the
-- payments holds of a payment when its goroutine has run. The wallet service, the gateway and the
-- publisher act on a second part of the world, of any type, and answer as they like.
use draftea_payment.Prelude.{
  ℕ, ◌+◌, ◌≡◌, refl, sym, ap, ap₂, ◌∙◌, Option, none, some, List, [], ◌∷◌, Result, ok, err, arith,
  Option-cases, inl, inr, some-injective,
}
use draftea_payment.Events.Types.{DomainEvent, TxnId, no_txn}
use draftea_payment.Payment.Entity.{PaymentRequest, PaymentStatus, Payment}
use draftea_payment.Payment.Service.{
  WalletService, Service, new_payment, publish_payment_initiated, process_payment, pay_by_hand,
  settle,
}
use draftea_payment.Payment.Sql.{
  DbError, PaymentDb, find_payment, upsert_payment, save, get_by_id, set_status, update_status,
}

-- The parts of the payment service that are not its repository, and its errors: `of_db` gives those
-- of the repository.
pub record Others (Er Y : Type 0) : Type 0 where
  pub of_db : DbError → Er
  pub wallet_service : WalletService Er Y
  pub gateway_service : Payment → Y → Y × Result Er TxnId
  pub event_publisher : DomainEvent Er → Y → Y
  pub now : Y → ℕ

-- The status that the goroutine leaves for an answer of the gateway.
abbrev pub final_status : {Er : Type 0} → Result Er TxnId → PaymentStatus
final_status (ok txn) = PaymentStatus.completed
final_status (err x) = PaymentStatus.failed

find_payment-upsert_payment :
    (p : Payment) (ps : List Payment)
    → find_payment p.id ps ≡ none
    → find_payment p.id (upsert_payment p ps) ≡ some p
unfolding find_payment upsert_payment
find_payment-upsert_payment p [] h = ground arith
find_payment-upsert_payment p (q ∷ ps) h = ground (arith, find_payment-upsert_payment p ps)

find_payment-set_status :
    (id : ℕ) (status : PaymentStatus) (now : ℕ) (p : Payment) (ps : List Payment)
    → find_payment id ps ≡ some p
    → find_payment id (set_status id status now ps)
      ≡ some (record p { status = status; updated_at = now })
unfolding find_payment set_status
find_payment-set_status id status now p [] h = absurd (cc h)
find_payment-set_status id status now p (q ∷ ps) h =
    ground (arith, find_payment-set_status id status now p ps)

module _ {Er Y : Type 0} (others : Others Er Y) where
  abbrev lift_error : Option DbError → Option Er
  lift_error none = none
  lift_error (some x) = some (others.of_db x)

  abbrev lift_result : Result DbError Payment → Result Er Payment
  lift_result (ok p) = ok p
  lift_result (err x) = err (others.of_db x)

  abbrev pub service_on_sql : Service Er (PaymentDb × Y)
  service_on_sql = record {
    repo = record {
      save = λ p w. let (d, r) = save p w.0 in ((d, w.1), lift_error r);
      get_by_id = λ id w. let (d, r) = get_by_id id w.0 in ((d, w.1), lift_result r);
      update_status = λ id status w. (update_status id status w.0, w.1);
    };
    wallet_service = record {
      validate_balance = λ user amount currency w.
          let (y, r) = others.wallet_service.validate_balance user amount currency w.1 in
          ((w.0, y), r);
      deduct_balance = λ user amount currency payment w.
          let (y, r) = others.wallet_service.deduct_balance user amount currency payment w.1 in
          ((w.0, y), r);
      refund_balance = λ user amount currency payment reason w.
          let (y, r) =
            others.wallet_service.refund_balance user amount currency payment reason w.1 in
          ((w.0, y), r);
    };
    gateway_service = λ p w. let (y, r) = others.gateway_service p w.1 in ((w.0, y), r);
    event_publisher = λ e w. (w.0, others.event_publisher e w.1);
    saga_orchestrator = none;
    now = λ w. others.now w.1;
  }

  pay_by_hand_db :
      (u : ℕ) (p : Payment) (d : PaymentDb) (y : Y)
      → let r = pay_by_hand service_on_sql u p (d, y) in
        r.failure ≡ none
        → (r.world.0 ≡ update_status p.id PaymentStatus.processing d)
          × (r.spawned ≡ some (record p { status = PaymentStatus.processing }))
  unfolding pay_by_hand
  pay_by_hand_db u p d y h = (ground arith, ground arith)

  settle_db :
      (u : ℕ) (p : Payment) (d : PaymentDb) (y : Y)
      → (settle service_on_sql u p (d, y)).0
        ≡ update_status p.id (final_status (others.gateway_service p y).1) d
  unfolding settle
  settle_db u p d y = ground arith

  stored_save :
      (p : Payment) (d : PaymentDb)
      → d.faults ≡ []
      → find_payment p.id d.payments ≡ none
      → (save p d).1 ≡ none
      → (find_payment p.id (save p d).0.payments ≡ some p) × ((save p d).0.faults ≡ [])
  unfolding save
  stored_save p d healthy new done =
      let row = find_payment-upsert_payment p d.payments new in (ground arith, ground arith)

  stored_update :
      (id : ℕ) (status : PaymentStatus) (p : Payment) (d : PaymentDb)
      → d.faults ≡ []
      → find_payment id d.payments ≡ some p
      → let d' = update_status id status d in
        (find_payment id d'.payments ≡ some (record p { status = status; updated_at = d.clock }))
        × (d'.faults ≡ [])
  unfolding update_status
  stored_update id status p d healthy found =
      let row = find_payment-set_status id status d.clock p d.payments found in
      (ground arith, ground arith)

  process_payment_db :
      (u : ℕ) (req : PaymentRequest) (d : PaymentDb) (y : Y)
      → let r = process_payment service_on_sql u req (d, y) in
        let p = new_payment u (others.now y) req in
        r.failure ≡ none
        → ((save p d).1 ≡ none)
          × (r.world.0 ≡ update_status p.id PaymentStatus.processing (save p d).0)
          × (r.spawned ≡ some (record p { status = PaymentStatus.processing }))
  unfolding process_payment
  process_payment_db u req d y h =
      let p = new_payment u (others.now y) req in
      elim (Option-cases (save p d).1) [
        | inr (x, failed) ↦ absurd (ground arith)
        | inl done ↦
            let w = publish_payment_initiated service_on_sql (u + 2) p ((save p d).0, y) in
            let below = pay_by_hand_db u p w.0 w.1 (rw (done, process_payment) at h) in
            (done, rw (done, process_payment) below.0, rw (done, process_payment) below.1)
      ]

  -- Let ProcessPayment with a new identifier return no error, and its goroutine run next, while no
  -- statement on the table of the payments fails. The table then holds the payment as completed
  -- where the gateway accepted it and as failed where it did not, and in both cases without a
  -- transaction number of the gateway.
  pub settle_stored :
      (u u' : ℕ) (req : PaymentRequest) (d : PaymentDb) (y : Y) (p : Payment)
      → d.faults ≡ []
      → find_payment (u + 1) d.payments ≡ none
      → let r = process_payment service_on_sql u req (d, y) in
        r.failure ≡ none
        → r.spawned ≡ some p
        → let after = settle service_on_sql u' p r.world in
          (q : Payment) × (find_payment (u + 1) after.0.payments ≡ some q)
          × (q.status ≡ final_status (others.gateway_service p r.world.1).1)
          × (q.amount ≡ req.amount)
          × (q.gateway_txn_id ≡ no_txn)
  settle_stored u u' req d y p healthy new h spawned =
      let r = process_payment service_on_sql u req (d, y) in
      let p0 = new_payment u (others.now y) req in
      let (done, world, spawned') = process_payment_db u req d y h in
      let (row, healthy') = stored_save p0 d healthy new done in
      let (row', healthy'') =
        stored_update p0.id PaymentStatus.processing p0 (save p0 d).0 healthy' row in
      let same : p.id ≡ p0.id =
        ap (λ (a : Payment). a.id) (some-injective (sym spawned ∙ spawned')) in
      let status = final_status (others.gateway_service p r.world.1).1 in
      let last =
        stored_update p0.id status _ (update_status p0.id PaymentStatus.processing (save p0 d).0)
          healthy'' row' in
      let after : (settle service_on_sql u' p r.world).0
          ≡ update_status p0.id status
              (update_status p0.id PaymentStatus.processing (save p0 d).0) =
        settle_db u' p r.world.0 r.world.1
        ∙ ap₂ (λ (n : ℕ) (db : PaymentDb). update_status n status db) same world in
      (_, ap (λ (db : PaymentDb). find_payment p0.id db.payments) after ∙ last.0, refl, refl, refl)
