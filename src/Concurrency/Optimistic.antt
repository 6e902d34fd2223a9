-- ===== src/Concurrency/Optimistic.antt =====
-- The optimistic strategy against the pessimistic one: what its loops write is what one step
-- under the lock would have written.
use draftea_payment.Prelude.{
  ℕ, zero, suc, ◌<◌, ◌≡◌, ◌≢◌, ◌⊎◌, ◌++◌, refl, sym, ap, ◌∙◌, subst, String, word, false, Option,
  none, some, List, [], ◌∷◌, arith, ◌==◌, ==_iff, Float, length, Bool-cases, Option-cases, inl, inr,
}
use draftea_payment.Concurrency.Balances.{
  WalletBalance, Balances, Others, FundsError, find_balance, put_balance, get_or_create_balance,
  deduct_locked, deduct_rounds, book,
}
use draftea_payment.Concurrency.Steps.{
  Call, reads, run_call, run_calls, run_calls-append, get_or_create_found, get_or_create_known,
  run_calls-version,
}

abbrev IsNarrow : {F : Type 0} → Option (WalletBalance F) → Type 0
IsNarrow none = Unit
IsNarrow (some b) = b.version < word

module _ {F : Type 0} (fl : Float F) where
  -- The other goroutines, as the calls that they make in each round.
  abbrev pub calling : (during waiting : ℕ → List (Call F)) → Others F
  calling during waiting = record {
    during = λ i. run_calls fl (during i);
    waiting = λ i. run_calls fl (waiting i);
  }

  module _ (during waiting : ℕ → List (Call F)) (few : (i : ℕ) → length (during i) < word)
      (user currency : String) (amount : F) (now : ℕ) where
    -- A balance that is there has a version of 64 bits.
    abbrev pub IsSmall : Balances F → Type 0
    IsSmall s = IsNarrow (find_balance fl user currency s)

    get_or_create-IsSmall :
        (s : Balances F)
        → IsSmall s
        → (get_or_create_balance fl user currency now s).1.version < word
    get_or_create-IsSmall s small = elim (Option-cases (find_balance fl user currency s)) [
      | inl missing ↦
          unfold get_or_create_balance in rw (missing, get_or_create_balance) (omega arith)
      | inr (b, known) ↦
          unfold get_or_create_balance in
          rw (known, get_or_create_balance) (subst IsNarrow known small)
    ]

    -- What a round finds at its write.
    at_write :
        (i : ℕ) (s : Balances F)
        → IsSmall s
        → let (s1, read) = get_or_create_balance fl user currency now s in
          let s2 = run_calls fl (during i) s1 in
          (b : WalletBalance F) × (get_or_create_balance fl user currency now s2 ≡ (s2, b))
          × (find_balance fl user currency s2 ≡ some b)
          × (b.version < word)
          × ((b.version ≡ read.version) → b ≡ read)
    at_write i s small =
        let (s1, read) = get_or_create_balance fl user currency now s in
        let narrow = get_or_create-IsSmall s small in
        let (b, k, found, below, version, still) =
          run_calls-version fl (during i) user currency s1 read
            (get_or_create_found fl user currency now s) narrow in
        let bound = few i in
        (
          b,
          get_or_create_known fl user currency now _ b found,
          found,
          omega arith,
          λ same. still (omega arith),
        )

    run_calls-IsSmall :
        (cs : List (Call F)) (s : Balances F) (b : WalletBalance F)
        → find_balance fl user currency s ≡ some b
        → b.version < word
        → IsSmall (run_calls fl cs s)
    run_calls-IsSmall cs s b found narrow =
        let (x, k, at, _, version, _) = run_calls-version fl cs user currency s b found narrow in
        subst IsNarrow (sym at) (let small : x.version < word = omega arith in small)

    -- The calls of a round that meets a conflict.
    abbrev lost_round : ℕ → List (Call F)
    lost_round i = reads user currency now ∷ (during i ++ waiting i)

    lost_round_lem :
        (i : ℕ) (s : Balances F) (cs : List (Call F))
        → run_calls fl (lost_round i ++ cs) s
          ≡ run_calls fl cs (
              run_calls fl
                (waiting i)
                (run_calls fl (during i) (get_or_create_balance fl user currency now s).0))
    lost_round_lem i s cs =
        run_calls-append fl (lost_round i) cs s
        ∙ ap (run_calls fl cs)
            (unfold run_calls run_call in run_calls-append fl (during i) (waiting i) _)

    -- What is called from the start of a loop with so many rounds left until it writes, gives up, or
    -- runs out of rounds: its own look-ups, and the calls of the others in the order of the rounds.
    pub data Passed : ℕ → List (Call F) → Type 0 where
      no_rounds : Passed 0 []
      looks : (left : ℕ) → Passed (suc left) (reads user currency now ∷ [])
      writes : (left : ℕ) → Passed (suc left) (reads user currency now ∷ during left)
      loses :
          (left : ℕ) (cs : List (Call F))
          → Passed left cs
          → Passed (suc left) (lost_round left ++ cs)

    -- A result that those calls and a last step explain, or those calls alone.
    abbrev pub Explained :
        (Balances F → Balances F × Option FundsError)
        → ℕ
        → Balances F
        → Balances F × Option FundsError
        → Type 0
    Explained action left s r =
        (cs : List (Call F)) × Passed left cs
        × (((r.1 ≡ none) × (action (run_calls fl cs s) ≡ r))
            ⊎ ((r.1 ≢ none) × (r.0 ≡ run_calls fl cs s)))

    Explained-later :
        (action : Balances F → Balances F × Option FundsError) (i : ℕ) (s : Balances F)
        (r : Balances F × Option FundsError)
        → Explained action i
            (run_calls fl
              (waiting i)
              (run_calls fl (during i) (get_or_create_balance fl user currency now s).0))
            r
        → Explained action (suc i) s r
    Explained-later action i s r (cs, passed, inl (fine, done)) = (
      lost_round i ++ cs,
      loses i cs passed,
      inl (fine, ap action (lost_round_lem i s cs) ∙ done),
    )
    Explained-later action i s r (cs, passed, inr (failed, same)) =
        (lost_round i ++ cs, loses i cs passed, inr (failed, same ∙ sym (lost_round_lem i s cs)))

    -- The optimistic deduction, while the other goroutines make any calls, fewer than 2 ^ 64
    -- between a read and its write: when it succeeds, it has done what the deduction under the
    -- lock does in one step, after its own look-ups and the calls that the others made until
    -- then; when it fails, the balances are what those look-ups and calls have left, and it has
    -- written nothing itself.
    pub deduct_rounds_linear :
        (left : ℕ) (s : Balances F)
        → IsSmall s
        → Explained
            (deduct_locked fl user currency amount now)
            left
            s
            (deduct_rounds fl left (calling during waiting) user currency amount now s)
    unfolding deduct_rounds
    deduct_rounds_linear zero s small =
        ([], no_rounds, inr (λ h. absurd (cc h), unfold run_calls in refl))
    deduct_rounds_linear (suc left) s small =
        let (s1, read) = get_or_create_balance fl user currency now s in
        let s2 = run_calls fl (during left) s1 in
        let (b, known, found, narrow, still) = at_write left s small in
        elim (Bool-cases (fl.lt read.balance amount)) [
          | inl short ↦ (
            reads user currency now ∷ [],
            looks left,
            inr (
              rw (short, deduct_rounds) (λ h. absurd (cc h)),
              rw (short, deduct_rounds) (unfold run_calls run_call in refl),
            ),
          )
          | inr enough ↦ elim (Bool-cases (b.version == read.version)) [
            | inr moved ↦
                let again : deduct_rounds fl (suc left) (calling during waiting) user currency
                      amount now s
                    ≡ deduct_rounds fl left (calling during waiting) user currency amount now
                        (run_calls fl (waiting left) s2) =
                  simp (enough, known, moved, deduct_rounds) in
                rw again (
                  Explained-later (deduct_locked fl user currency amount now) left s _ (
                    deduct_rounds_linear left (run_calls fl (waiting left) s2)
                      (run_calls-IsSmall (waiting left) s2 b found narrow)))
            | inl same ↦
                let kept : b ≡ read = still ((==_iff b.version read.version).0 same) in
                let enough' : fl.lt b.balance amount ≡ false =
                  ap (λ y. fl.lt y.balance amount) kept ∙ enough in
                let mine : deduct_rounds fl (suc left) (calling during waiting) user currency amount
                      now s
                    ≡ (
                      put_balance fl user currency (book fl (fl.sub b.balance amount) now b) s2,
                      none,
                    ) =
                  simp (enough, known, same, deduct_rounds) in
                let locked : deduct_locked fl user currency amount now s2 ≡ (
                  put_balance fl user currency (book fl (fl.sub b.balance amount) now b) s2,
                  none,
                ) =
                  unfold deduct_locked in simp (known, enough') in
                (
                  reads user currency now ∷ during left,
                  writes left,
                  inl (ap (λ r. r.1) mine, unfold run_calls run_call in (locked ∙ sym mine)),
                )
          ]
        ]
