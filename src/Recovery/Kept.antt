-- ===== src/Recovery/Kept.antt =====
-- What ExecuteWithRetry leaves alone.
use draftea_payment.Prelude.{
  ℕ, zero, suc, ◌≡◌, refl, ◌∙◌, Int64, lt64, Bool-cases, Option-cases, inl, inr, Float,
}
use draftea_payment.Recovery.Retry.{
  RetryConfig, RetryWorld, retry_attempts, execute_with_retry, is_retryable_error, calculate_delay,
}

module _ {F W E A : Type 0} (fl : Float F) (config : RetryConfig F) (env : RetryWorld W E)
    (view : W → A) (still : (i : ℕ) (w : W) → view (env.operation i w).0 ≡ view w)
    (waits : (t : Int64) (w : W) → view (env.wait t w).0 ≡ view w) where
  -- What neither the operation nor waiting changes, ExecuteWithRetry does not change.
  retry_attempts_keep :
      (left i : ℕ) (w : W) → view (retry_attempts fl config env left i w).0 ≡ view w
  unfolding retry_attempts
  retry_attempts_keep zero i w = still i w
  retry_attempts_keep (suc left) i w =
      let (w', r) = env.operation i w in
      elim (Option-cases r) [
        | inl done ↦ rw (done, retry_attempts) (still i w)
        | inr (e, fault) ↦ elim (Bool-cases (is_retryable_error config (env.error_text e))) [
          | inr lasting ↦ rw (fault, retry_attempts, lasting, retry_attempts) (still i w)
          | inl passing ↦
              let t = calculate_delay fl config (env.nanos w') i in
              let (w'', cut) = env.wait t w' in
              elim (Option-cases cut) [
                | inr (x, stopped) ↦
                    rw (fault, retry_attempts, passing, retry_attempts, stopped, retry_attempts)
                      (waits t w' ∙ still i w)
                | inl waited ↦
                    rw (fault, retry_attempts, passing, retry_attempts, waited, retry_attempts)
                      (retry_attempts_keep left (suc i) w'' ∙ waits t w' ∙ still i w)
              ]
        ]
      ]

  pub execute_with_retry_keeps : (w : W) → view (execute_with_retry fl config env w).0 ≡ view w
  unfolding execute_with_retry
  execute_with_retry_keeps w = elim (Bool-cases (lt64 config.max_retries 0)) [
    | inl negative ↦ rw negative refl
    | inr fine ↦ rw fine (retry_attempts_keep config.max_retries 0 w)
  ]
