-- ===== src/Gateway/Outcomes.antt =====
-- What ProcessPayment of the gateway service does on each branch, and over a run of payments.
use draftea_payment.Prelude.{
  ℕ, suc, ◌+◌, ◌-◌, ◌≤◌, ◌<◌, ◌≡◌, ◌≢◌, ◌⊎◌, refl, ◌∙◌, Bool-cases, inl, inr, true, half, arith,
  ltb, none, List, [], ◌∷◌, err, All, length, String, Option-cases,
}
use draftea_payment.Payment.Entity.{Payment}
use draftea_payment.Gateway.Breaker.{
  CircuitBreaker, closed, open_state, can_execute, on_success, on_failure,
}
use draftea_payment.Gateway.Circuit.{
  IsSound, on_failure_closed, after_failure, after_failure-IsSound, failures-after_failure,
  after_failure_open, after_failure_closed,
}
use draftea_payment.Gateway.Service.{
  Service, Encounter, breaker_open, api_failed, ApiError, new_service, call_gateway_api,
  error_event, process_payment,
}

module _ (R : Type 0) where
  -- While the breaker is open and its timeout has not passed, a payment is refused before the API is
  -- reached, whatever the API would have answered: the service is as it was, and the one event is
  -- the gateway error.
  pub process_payment_blocked :
      (w : Encounter) (s : Service) (p : Payment)
      → s.breaker.state ≡ open_state
      → w.started - s.breaker.last_failure_time ≤ s.breaker.reset_timeout
      → process_payment {R = R} w s p ≡ (
        s,
        error_event w w.started s.provider p "circuit_breaker_open" "circuit breaker is open" ∷ [],
        err breaker_open,
      )
  unfolding process_payment can_execute
  process_payment_blocked w s p opened early = ground arith

  -- The breaker after a payment that was let through: an answer of the API closes it and clears its
  -- count, a decline just as an approval; no answer counts as a failure.
  pub process_payment_breaker :
      (w : Encounter) (s : Service) (p : Payment)
      → let (cb, allowed) = can_execute w.started s.breaker in
        let (s', _, result) = process_payment {R = R} w s p in
        allowed ≡ true
        → ((w.cancelled ≡ none) × (w.scenario < 95) × (s'.breaker ≡ on_success cb))
          ⊎ ((x : ApiError) × (result ≡ err (api_failed x))
              × (s'.breaker ≡ on_failure w.finished cb))
  unfolding process_payment call_gateway_api
  process_payment_breaker w s p allowed = elim (Option-cases w.cancelled) [
    | inr (x, gone) ↦ inr (ApiError.context_done x, ground arith, ground arith)
    | inl waits ↦ elim (Bool-cases (ltb w.scenario 95)) [
      | inl answered ↦ inl (waits, ground arith, ground arith)
      | inr down ↦ inr (ApiError.unavailable, ground arith, ground arith)
    ]
  ]

  -- A payment that gets no answer from the API, if it is let through.
  abbrev pub IsFailing : Encounter → Type 0
  IsFailing w = (w.cancelled ≢ none) ⊎ (95 ≤ w.scenario)

  pub run : List Encounter → Service → Payment → Service
  run [] s p = s
  run (w ∷ ws) s p = run ws (process_payment {R = R} w s p).0 p

  failing_step :
      (w : Encounter) (s : Service) (p : Payment)
      → IsFailing w
      → (process_payment {R = R} w s p).0.breaker ≡ after_failure w.started w.finished s.breaker
  unfolding process_payment call_gateway_api
  failing_step w s p h = ground arith

  after_failure_progress :
      (w : Encounter) (n : ℕ) (cb : CircuitBreaker)
      → IsSound cb
      → cb.current_failures + 1 < half
      → (cb.state ≡ open_state)
        ⊎ ((cb.state ≡ closed) × (cb.max_failures ≤ cb.current_failures + suc n))
      → let cb' = after_failure w.started w.finished cb in
        (cb'.state ≡ open_state)
        ⊎ ((cb'.state ≡ closed) × (cb'.max_failures ≤ cb'.current_failures + n))
  after_failure_progress w n cb sound room (inl opened) =
      inl (after_failure_open w.started w.finished cb sound room opened)
  after_failure_progress w n cb sound room (inr (shut, reached)) =
      let (state, count, max) = on_failure_closed w.finished cb sound shut room in
      rw (after_failure_closed w.started w.finished cb shut)
        (elim (Bool-cases (ltb (cb.current_failures + 1) cb.max_failures)) [
          | inl fewer ↦ inr (state ∙ rw fewer, omega arith)
          | inr full ↦ inl (state ∙ rw full)
        ])

  run_failing :
      (ws : List Encounter) (s : Service) (p : Payment)
      → IsSound s.breaker
      → All IsFailing ws
      → s.breaker.current_failures + length ws < half
      → (s.breaker.state ≡ open_state)
        ⊎ ((s.breaker.state ≡ closed)
            × (s.breaker.max_failures ≤ s.breaker.current_failures + length ws))
      → (run ws s p).breaker.state ≡ open_state
  unfolding run
  run_failing [] s p sound fs room (inl opened) = opened
  run_failing [] s p sound fs room (inr (shut, reached)) = absurd (omega (arith, sound.below shut))
  run_failing (w ∷ ws) s p sound fs room progress =
      let step = failing_step w s p fs.0 in
      let counted = failures-after_failure w.started w.finished s.breaker (omega arith) in
      run_failing ws (process_payment {R = R} w s p).0 p
        (rw step (after_failure-IsSound w.started w.finished s.breaker sound (omega arith))) fs.1
        (rw step (omega arith))
        (rw step (after_failure_progress w (length ws) s.breaker sound (omega arith) progress))

  -- An outage opens the breaker: a new service that is handed five or more payments, none of which
  -- gets an answer from the API, has an open breaker after the last of them, however long the
  -- pauses between them are.
  pub outage_opens :
      (provider : String) (ws : List Encounter) (p : Payment)
      → All IsFailing ws
      → 5 ≤ length ws
      → length ws < half
      → (run ws (new_service provider) p).breaker.state ≡ open_state
  outage_opens provider ws p fs enough room =
      run_failing ws (new_service provider) p (unfold new_service in ground arith) fs
        (unfold new_service in omega arith) (unfold new_service in inr (refl, omega arith))

  -- The first answer of the API closes the breaker again: when the timeout of an open breaker has
  -- passed, a payment that the API answers, also by a decline, leaves it closed with no failures.
  pub recovers :
      (w : Encounter) (s : Service) (p : Payment)
      → s.breaker.state ≡ open_state
      → s.breaker.reset_timeout < w.started - s.breaker.last_failure_time
      → w.cancelled ≡ none
      → w.scenario < 95
      → let s' = (process_payment {R = R} w s p).0 in
        (s'.breaker.state ≡ closed) × (s'.breaker.current_failures ≡ 0)
  unfolding process_payment call_gateway_api can_execute on_success
  recovers w s p opened late waits answered = ground arith
