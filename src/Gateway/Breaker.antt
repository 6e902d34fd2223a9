-- ===== src/Gateway/Breaker.antt =====
-- internal/services/gateway/service.go: the circuit breaker. Times and durations are numbers of
-- nanoseconds; the reset timeout is not negative.
use draftea_payment.Prelude.{ℕ, ◌-◌, Int64, Bool, true, false, ltb, add64, lt64, if◌then◌else◌}

pub data CircuitBreakerState : Type 0 where
  closed open_state half_open : CircuitBreakerState

pub record CircuitBreaker : Type 0 where
  pub max_failures : Int64
  pub reset_timeout : ℕ
  pub current_failures : Int64
  pub last_failure_time : ℕ
  pub state : CircuitBreakerState

-- NewCircuitBreaker
unfoldable pub new_breaker : Int64 → ℕ → CircuitBreaker
new_breaker max timeout = record {
  max_failures = max;
  reset_timeout = timeout;
  current_failures = 0;
  last_failure_time = 0;
  state = closed;
}

abbrev can_execute_in : CircuitBreakerState → ℕ → CircuitBreaker → CircuitBreaker × Bool
can_execute_in closed now cb = (cb, true)
can_execute_in open_state now cb =
    if ltb cb.reset_timeout (now - cb.last_failure_time)
    then (record cb { state = half_open }, true)
    else (cb, false)
can_execute_in half_open now cb = (cb, true)

-- CanExecute
unfoldable pub can_execute : ℕ → CircuitBreaker → CircuitBreaker × Bool
can_execute now cb = can_execute_in cb.state now cb

-- OnSuccess
unfoldable pub on_success : CircuitBreaker → CircuitBreaker
on_success cb = record cb { current_failures = 0; state = closed }

-- OnFailure
unfoldable pub on_failure : ℕ → CircuitBreaker → CircuitBreaker
on_failure now cb =
    let failures = add64 cb.current_failures 1 in
    record cb {
      current_failures = failures;
      last_failure_time = now;
      state = if lt64 failures cb.max_failures then cb.state else open_state;
    }

-- ResetCircuitBreaker
unfoldable pub reset : CircuitBreaker → CircuitBreaker
reset cb = record cb { state = closed; current_failures = 0 }
