-- ===== src/Concurrency/Steps.antt =====
-- The calls of the other goroutines, one after the other, and what they do to the version of a
-- balance.
use draftea_payment.Prelude.{
  ℕ, suc, ◌+◌, ◌%◌, ◌≤◌, ◌<◌, ◌≡◌, ◌⊎◌, refl, sym, ap, ◌∙◌, String, word, true, some, List, [], ◌∷◌,
  ◌++◌, arith, lookup, lookup_or, insert, lookup-insert, lookup_or-insert, if◌then◌else◌, str_eq,
  add64, Float, length, Bool-cases, Option-cases, inl, inr, eq_iff, eq_refl, ◌&&◌, some-injective,
}
use draftea_payment.Concurrency.Balances.{
  WalletBalance, Balances, new_balance, find_balance, put_balance, get_or_create_balance,
  deduct_locked, refund_locked, set_balance, book,
}

-- One call of another goroutine, with its clock.
pub data Call (F : Type 0) : Type 0 where
  reads : String → String → ℕ → Call F
  deducts refunds sets : String → String → F → ℕ → Call F

module _ {F : Type 0} (fl : Float F) where
  unfoldable pub run_call : Call F → Balances F → Balances F
  run_call (reads user currency now) s = (get_or_create_balance fl user currency now s).0
  run_call (deducts user currency amount now) s = (deduct_locked fl user currency amount now s).0
  run_call (refunds user currency amount now) s = (refund_locked fl user currency amount now s).0
  run_call (sets user currency amount now) s = set_balance fl user currency amount now s

  unfoldable pub run_calls : List (Call F) → Balances F → Balances F
  run_calls [] s = s
  run_calls (c ∷ cs) s = run_calls cs (run_call c s)

  pub run_calls-append :
      (cs ds : List (Call F)) (s : Balances F)
      → run_calls (cs ++ ds) s ≡ run_calls ds (run_calls cs s)
  unfolding run_calls
  run_calls-append [] ds s = refl
  run_calls-append (c ∷ cs) ds s = run_calls-append cs ds (run_call c s)

  pub find-put_balance :
      (user currency u c : String) (b : WalletBalance F) (s : Balances F)
      → find_balance fl u c (put_balance fl user currency b s)
        ≡ (if str_eq user u && str_eq currency c then some b else find_balance fl u c s)
  unfolding put_balance
  find-put_balance user currency u c b s = elim (Bool-cases (str_eq user u)) [
    | inl same ↦
        let key = (eq_iff user u).0 same in
        rw
          (
            lookup_or-insert [] user u (insert currency b (lookup_or [] user s)) s,
            same,
            lookup-insert currency c b (lookup_or [] user s),
          )
          (ap (λ k. if str_eq currency c then some b else lookup c (lookup_or [] k s)) key ∙ refl)
    | inr other ↦
        rw (lookup_or-insert [] user u (insert currency b (lookup_or [] user s)) s, other) refl
  ]

  -- The balance that getOrCreateBalance returns is in the map.
  pub get_or_create_found :
      (user currency : String) (now : ℕ) (s : Balances F)
      → let (s', b) = get_or_create_balance fl user currency now s in
        find_balance fl user currency s' ≡ some b
  unfolding get_or_create_balance
  get_or_create_found user currency now s = elim (Option-cases (find_balance fl user currency s)) [
    | inl missing ↦
        let b = new_balance fl user currency now in
        let own = eq_refl user in
        let own' = eq_refl currency in
        rw (missing, get_or_create_balance)
          (find-put_balance user currency user currency b s ∙ rw (own, own') refl)
    | inr (b, known) ↦ rw (known, get_or_create_balance) known
  ]

  pub get_or_create_known :
      (user currency : String) (now : ℕ) (s : Balances F) (b : WalletBalance F)
      → find_balance fl user currency s ≡ some b
      → get_or_create_balance fl user currency now s ≡ (s, b)
  unfolding get_or_create_balance
  get_or_create_known user currency now s b h = rw (h, get_or_create_balance) refl

  same_balance :
      (user currency u c : String) (s : Balances F)
      → (str_eq user u && str_eq currency c) ≡ true
      → find_balance fl user currency s ≡ find_balance fl u c s
  same_balance user currency u c s both =
      let at : str_eq user u ≡ true = ground arith in
      let at' : str_eq currency c ≡ true = ground arith in
      ap (λ k. find_balance fl k currency s) ((eq_iff user u).0 at)
      ∙ ap (λ k. find_balance fl u k s) ((eq_iff currency c).0 at')

  -- No other balance is touched, and this one is kept, by a look-up.
  get_or_create_keeps :
      (user currency u c : String) (now : ℕ) (s : Balances F) (b : WalletBalance F)
      → find_balance fl u c s ≡ some b
      → find_balance fl u c (get_or_create_balance fl user currency now s).0 ≡ some b
  unfolding get_or_create_balance
  get_or_create_keeps user currency u c now s b h =
      elim (Option-cases (find_balance fl user currency s)) [
        | inr (r, known) ↦ rw (known, get_or_create_balance) h
        | inl missing ↦
            let r = new_balance fl user currency now in
            elim (Bool-cases (str_eq user u && str_eq currency c)) [
              | inr other ↦
                  rw (missing, get_or_create_balance)
                    (find-put_balance user currency u c r s ∙ rw other h)
              | inl both ↦ absurd (cc (sym missing ∙ same_balance user currency u c s both ∙ h))
            ]
      ]

  -- What a call leaves of a balance: the balance, or one with the next version.
  abbrev pub IsNext : WalletBalance F → WalletBalance F → Type 0
  IsNext b b' = (b' ≡ b) ⊎ (b'.version ≡ add64 b.version 1)

  put_balance-IsNext :
      (user currency u c : String) (s : Balances F) (r x b : WalletBalance F)
      → find_balance fl user currency s ≡ some r
      → x.version ≡ add64 r.version 1
      → find_balance fl u c s ≡ some b
      → (b' : WalletBalance F) × (find_balance fl u c (put_balance fl user currency x s) ≡ some b')
        × IsNext b b'
  put_balance-IsNext user currency u c s r x b found next h =
      elim (Bool-cases (str_eq user u && str_eq currency c)) [
        | inr other ↦ (b, find-put_balance user currency u c x s ∙ rw other h, inl refl)
        | inl both ↦
            let same : r ≡ b =
              some-injective (sym found ∙ same_balance user currency u c s both ∙ h) in
            (
              x,
              find-put_balance user currency u c x s ∙ rw both refl,
              inr (next ∙ ap (λ y. add64 y.version 1) same),
            )
      ]

  run_call-IsNext :
      (call : Call F) (u c : String) (s : Balances F) (b : WalletBalance F)
      → find_balance fl u c s ≡ some b
      → (b' : WalletBalance F) × (find_balance fl u c (run_call call s) ≡ some b') × IsNext b b'
  unfolding run_call deduct_locked refund_locked set_balance
  run_call-IsNext (reads user currency now) u c s b h =
      (b, get_or_create_keeps user currency u c now s b h, inl refl)
  run_call-IsNext (deducts user currency amount now) u c s b h =
      let (s1, r) = get_or_create_balance fl user currency now s in
      let kept = get_or_create_keeps user currency u c now s b h in
      elim (Bool-cases (fl.lt r.balance amount)) [
        | inl short ↦ (b, rw (short, run_call, deduct_locked) kept, inl refl)
        | inr enough ↦
            rw (enough, run_call, deduct_locked)
              (put_balance-IsNext user currency u c s1 r (book fl (fl.sub r.balance amount) now r) b
                (get_or_create_found user currency now s) refl kept)
      ]
  run_call-IsNext (refunds user currency amount now) u c s b h =
      let (s1, r) = get_or_create_balance fl user currency now s in
      put_balance-IsNext user currency u c s1 r (book fl (fl.add r.balance amount) now r) b
        (get_or_create_found user currency now s) refl
        (get_or_create_keeps user currency u c now s b h)
  run_call-IsNext (sets user currency amount now) u c s b h =
      let (s1, r) = get_or_create_balance fl user currency now s in
      put_balance-IsNext user currency u c s1 r
        (record r { balance = amount; version = add64 r.version 1; last_updated = now }) b
        (get_or_create_found user currency now s) refl
        (get_or_create_keeps user currency u c now s b h)

  -- Calls raise the version of a balance by one each, or leave the balance as it is.
  pub run_calls-version :
      (calls : List (Call F)) (u c : String) (s : Balances F) (b : WalletBalance F)
      → find_balance fl u c s ≡ some b
      → b.version < word
      → (b' : WalletBalance F) × (k : ℕ) × (find_balance fl u c (run_calls calls s) ≡ some b')
        × (k ≤ length calls)
        × (b'.version ≡ (b.version + k) % word)
        × ((k ≡ 0) → b' ≡ b)
  unfolding run_calls
  run_calls-version [] u c s b h small = (b, 0, h, omega arith, omega arith, λ z. refl)
  run_calls-version (call ∷ calls) u c s b h small =
      let (b1, found1, next) = run_call-IsNext call u c s b h in
      elim next [
        | inl same ↦
            let small1 : b1.version < word = let v = ap (λ x. x.version) same in omega arith in
            let (b', k, found, few, version, still) =
              run_calls-version calls u c (run_call call s) b1 found1 small1 in
            (
              b',
              k,
              found,
              omega arith,
              version ∙ ap (λ x. (x.version + k) % word) same,
              λ z. still z ∙ same,
            )
        | inr raised ↦
            let v : b1.version ≡ (b.version + 1) % word = raised ∙ unfold add64 in refl in
            let small1 : b1.version < word = omega arith in
            let (b', k, found, few, version, still) =
              run_calls-version calls u c (run_call call s) b1 found1 small1 in
            (b', suc k, found, omega arith, omega arith, λ z. absurd (omega arith))
      ]
