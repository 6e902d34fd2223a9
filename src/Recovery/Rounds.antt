-- ===== src/Recovery/Rounds.antt =====
-- What ExecuteWithRetry does, as a relation: rounds that fail for a passing reason and are waited
-- out, and then one that ends the call.
use draftea_payment.Prelude.{
  ℕ, zero, suc, ◌+◌, ◌≤◌, ◌<◌, ◌≡◌, ◌↔◌, refl, sym, ap, ◌∙◌, subst, Int64, half, true, false,
  Option, none, some, CtxError, arith, lt64, lt64_small, Float, Bool-cases, Option-cases, inl, inr,
}
use draftea_payment.Recovery.Retry.{
  RetryConfig, RetryError, non_retryable, cancelled, exhausted, RetryWorld, is_retryable_error,
  calculate_delay, retry_attempts, execute_with_retry,
}

module _ {F W E : Type 0} (fl : Float F) (config : RetryConfig F) (env : RetryWorld W E) where
  abbrev Passes : E → Type 0
  Passes e = is_retryable_error config (env.error_text e) ≡ true

  abbrev delay : ℕ → W → Int64
  delay attempt w = calculate_delay fl config (env.nanos w) attempt

  -- From attempt `i` in a world to attempt `j` in another.
  pub data Rounds : ℕ → W → ℕ → W → Type 0 where
    here : (i : ℕ) (w : W) → Rounds i w i w
    again :
        (i j : ℕ) (w w' w'' v : W) (e : E)
        → env.operation i w ≡ (w', some e)
        → Passes e
        → env.wait (delay i w') w' ≡ (w'', none)
        → Rounds (suc i) w'' j v
        → Rounds i w j v

  -- How the attempt `i`, of which `top` is the last, ends the call.
  pub data Ends (top : ℕ) : ℕ → W → W × Option (RetryError E) → Type 0 where
    succeeds : (i : ℕ) (w w' : W) → env.operation i w ≡ (w', none) → Ends top i w (w', none)
    refuses :
        (i : ℕ) (w w' : W) (e : E)
        → env.operation i w ≡ (w', some e)
        → is_retryable_error config (env.error_text e) ≡ false
        → Ends top i w (w', some (non_retryable e))
    cuts :
        (i : ℕ) (w w' w'' : W) (e : E) (x : CtxError)
        → i < top
        → env.operation i w ≡ (w', some e)
        → Passes e
        → env.wait (delay i w') w' ≡ (w'', some x)
        → Ends top i w (w'', some (cancelled x))
    gives_up :
        (i : ℕ) (w w' : W) (e : E)
        → i ≡ top
        → env.operation i w ≡ (w', some e)
        → Passes e
        → Ends top i w (w', some (exhausted (some e)))

  retry_retry_attempts-Ends :
      (left i top : ℕ) (w : W)
      → top ≡ i + left
      → (j : ℕ) × (v : W) × (j ≤ top)
        × Rounds i w j v
        × Ends top j v (retry_attempts fl config env left i w)
  unfolding retry_attempts
  retry_retry_attempts-Ends zero i top w h =
      let (w', r) = env.operation i w in
      elim (Option-cases r) [
        | inl done ↦ (
          i,
          w,
          omega arith,
          here i w,
          rw (done, retry_attempts) (succeeds i w w' (ap (λ o. (w', o)) done)),
        )
        | inr (e, fault) ↦
            let call : env.operation i w ≡ (w', some e) = ap (λ o. (w', o)) fault in
            elim (Bool-cases (is_retryable_error config (env.error_text e))) [
              | inl passing ↦ (
                i,
                w,
                omega arith,
                here i w,
                rw (fault, retry_attempts, passing) (gives_up i w w' e (omega arith) call passing),
              )
              | inr lasting ↦ (
                i,
                w,
                omega arith,
                here i w,
                rw (fault, retry_attempts, lasting) (refuses i w w' e call lasting),
              )
            ]
      ]
  retry_retry_attempts-Ends (suc left) i top w h =
      let (w', r) = env.operation i w in
      elim (Option-cases r) [
        | inl done ↦ (
          i,
          w,
          omega arith,
          here i w,
          rw (done, retry_attempts) (succeeds i w w' (ap (λ o. (w', o)) done)),
        )
        | inr (e, fault) ↦
            let call : env.operation i w ≡ (w', some e) = ap (λ o. (w', o)) fault in
            elim (Bool-cases (is_retryable_error config (env.error_text e))) [
              | inr lasting ↦ (
                i,
                w,
                omega arith,
                here i w,
                rw (fault, retry_attempts, lasting, retry_attempts) (refuses i w w' e call lasting),
              )
              | inl passing ↦
                  let (w'', cut) = env.wait (delay i w') w' in
                  elim (Option-cases cut) [
                    | inr (x, stopped) ↦ (
                      i,
                      w,
                      omega arith,
                      here i w,
                      rw (fault, retry_attempts, passing, retry_attempts, stopped, retry_attempts)
                          (cuts i w w' w'' e x (omega arith) call passing
                            (ap (λ o. (w'', o)) stopped)),
                    )
                    | inl waited ↦
                        let (j, v, below, before, end) =
                          retry_retry_attempts-Ends left (suc i) top w'' (omega arith) in
                        (
                          j,
                          v,
                          below,
                          again i j w w' w'' v e call passing (ap (λ o. (w'', o)) waited) before,
                          rw
                              (
                                fault, retry_attempts, passing, retry_attempts, waited,
                                retry_attempts,
                              )
                              end,
                        )
                  ]
            ]
      ]

  Rounds-le : (i j : ℕ) (w v : W) → Rounds i w j v → i ≤ j
  Rounds-le _ _ _ _ (here i w) = omega arith
  Rounds-le _ _ _ _ (again i j w w' w'' v e call passing waited rest) =
      omega (arith, Rounds-le (suc i) j w'' v rest)

  -- The end of the call is what the loop returns at that attempt.
  Ends-retry_attempts :
      (left top j : ℕ) (v : W) (r : W × Option (RetryError E))
      → top ≡ j + left
      → Ends top j v r
      → retry_attempts fl config env left j v ≡ r
  unfolding retry_attempts
  Ends-retry_attempts zero top _ _ _ h (succeeds i w w' call) = simp call
  Ends-retry_attempts (suc left) top _ _ _ h (succeeds i w w' call) = simp (call, retry_attempts)
  Ends-retry_attempts zero top _ _ _ h (refuses i w w' e call lasting) =
      simp (call, retry_attempts, lasting)
  Ends-retry_attempts (suc left) top _ _ _ h (refuses i w w' e call lasting) =
      simp (call, retry_attempts, lasting, retry_attempts)
  Ends-retry_attempts zero top _ _ _ h (cuts i w w' w'' e x below call passing stopped) =
      absurd (omega arith)
  Ends-retry_attempts (suc left) top _ _ _ h (cuts i w w' w'' e x below call passing stopped) =
      simp (call, retry_attempts, passing, retry_attempts, stopped, retry_attempts)
  Ends-retry_attempts zero top _ _ _ h (gives_up i w w' e at call passing) = simp (call, passing)
  Ends-retry_attempts (suc left) top _ _ _ h (gives_up i w w' e at call passing) =
      absurd (omega arith)

  Rounds-retry_attempts :
      (left i j top : ℕ) (w v : W) (r : W × Option (RetryError E))
      → top ≡ i + left
      → j ≤ top
      → Rounds i w j v
      → Ends top j v r
      → retry_attempts fl config env left i w ≡ r
  unfolding retry_attempts
  Rounds-retry_attempts left _ _ top _ _ r h k (here i w) end =
      Ends-retry_attempts left top i w r h end
  Rounds-retry_attempts zero _ _ top _ _ r h k (again i j w w' w'' v e call passing waited rest)
        end =
      absurd (omega (arith, Rounds-le (suc i) j w'' v rest))
  Rounds-retry_attempts (suc left) _ _ top _ _ r h k
        (again i j w w' w'' v e call passing waited rest) end =
      simp (call, retry_attempts, passing, waited)
        (Rounds-retry_attempts left (suc i) j top w'' v r (omega arith) k rest end)

  -- ExecuteWithRetry returns after at most MaxRetries + 1 attempts, numbered from 0, where
  -- MaxRetries is not negative: it returns `r` exactly if some number of attempts failed for a
  -- passing reason and were waited out, and the attempt after them ended the call with `r`, by a
  -- success, by a lasting error, by the end of the context during the wait, or as the last one.
  pub execute_with_retry_iff :
      (w : W) (r : W × Option (RetryError E))
      → config.max_retries < half
      → (execute_with_retry fl config env w ≡ r) ↔ (
          (j : ℕ) × (v : W) × (j ≤ config.max_retries)
          × Rounds 0 w j v
          × Ends config.max_retries j v r)
  unfolding execute_with_retry
  execute_with_retry_iff w r h =
      let top = config.max_retries in
      let enough : lt64 top 0 ≡ false = rw (lt64_small top 0 h (omega arith)) (ground arith) in
      let loop : execute_with_retry fl config env w ≡ retry_attempts fl config env top 0 w =
        rw (enough) refl in
      let (j, v, below, before, end) = retry_retry_attempts-Ends top 0 top w (omega arith) in
      (
        λ same. (j, v, below, before, subst (Ends top j v) (sym loop ∙ same) end),
        λ (j', v', below', before', end').
            loop ∙ Rounds-retry_attempts top 0 j' top w v' r (omega arith) below' before' end',
      )

  module _ (runs : W → ℕ) (one : (i : ℕ) (v : W) → runs (env.operation i v).0 ≡ suc (runs v))
      (waits : (t : Int64) (v : W) → runs (env.wait t v).0 ≡ runs v) where
    runs_operation :
        (i : ℕ) (w w' : W) (r : Option E) → env.operation i w ≡ (w', r) → runs w' ≡ suc (runs w)
    runs_operation i w w' r call = ap (λ o. runs o.0) (sym call) ∙ one i w

    runs_wait :
        (t : Int64) (w w' : W) (r : Option CtxError) → env.wait t w ≡ (w', r) → runs w' ≡ runs w
    runs_wait t w w' r call = ap (λ o. runs o.0) (sym call) ∙ waits t w

    runs-Rounds : (i j : ℕ) (w v : W) → Rounds i w j v → runs v + i ≡ runs w + j
    runs-Rounds _ _ _ _ (here i w) = refl
    runs-Rounds _ _ _ _ (again i j w w' w'' v e call passing waited rest) = omega (
      arith,
      runs_operation i w w' (some e) call,
      runs_wait (delay i w') w' w'' none waited,
      runs-Rounds (suc i) j w'' v rest,
    )

    runs-Ends :
        (top j : ℕ) (v : W) (r : W × Option (RetryError E))
        → Ends top j v r
        → runs r.0 ≡ suc (runs v)
    runs-Ends top _ _ _ (succeeds i w w' call) = runs_operation i w w' none call
    runs-Ends top _ _ _ (refuses i w w' e call lasting) = runs_operation i w w' (some e) call
    runs-Ends top _ _ _ (cuts i w w' w'' e x below call passing stopped) =
        runs_wait (delay i w') w' w'' (some x) stopped ∙ runs_operation i w w' (some e) call
    runs-Ends top _ _ _ (gives_up i w w' e at call passing) = runs_operation i w w' (some e) call

  -- ExecuteWithRetry runs the operation once at least and MaxRetries + 1 times at most, where
  -- MaxRetries is not negative, whatever counts the runs: a number that each of them raises by
  -- one, and that waiting leaves alone.
  pub execute_with_retry_bounded :
      (runs : W → ℕ) (w : W)
      → config.max_retries < half
      → ((i : ℕ) (v : W) → runs (env.operation i v).0 ≡ suc (runs v))
      → ((t : Int64) (v : W) → runs (env.wait t v).0 ≡ runs v)
      → (runs w < runs (execute_with_retry fl config env w).0)
        × (runs (execute_with_retry fl config env w).0 ≤ runs w + config.max_retries + 1)
  execute_with_retry_bounded runs w h one waits =
      let (j, v, below, before, end) =
        (execute_with_retry_iff w (execute_with_retry fl config env w) h).0 refl in
      let during = runs-Rounds runs one waits 0 j w v before in
      let after =
        runs-Ends runs one waits config.max_retries j v (execute_with_retry fl config env w) end in
      (omega arith, omega arith)
