-- ===== src/Recovery/Retry.antt =====
-- pkg/eventstore/error_handling.go: ExponentialBackoffRetrier. The operation, the waiting and the
-- arithmetic of float64 are parameters; the log is left out.
use draftea_payment.Prelude.{
  ℕ, zero, suc, ◌%◌, Int64, Bool, true, false, Option, none, some, List, [], ◌∷◌, CtxError,
  if◌then◌else◌, any, lt64, Float,
}
use draftea_payment.Recovery.Substring.{Text, contains}

pub record RetryConfig (F : Type 0) : Type 0 where
  pub max_retries : Int64
  pub initial_delay : Int64
  pub max_delay : Int64
  pub backoff_factor : F
  pub jitter : Bool
  pub retryable_errors : List Text

abbrev pub network_error : Text
network_error = 110 ∷ 101 ∷ 116 ∷ 119 ∷ 111 ∷ 114 ∷ 107 ∷ 95 ∷ 101 ∷ 114 ∷ 114 ∷ 111 ∷ 114 ∷ []

abbrev pub timeout : Text
timeout = 116 ∷ 105 ∷ 109 ∷ 101 ∷ 111 ∷ 117 ∷ 116 ∷ []

abbrev pub service_unavailable : Text
service_unavailable =
    115 ∷ 101 ∷ 114 ∷ 118 ∷ 105 ∷ 99 ∷ 101 ∷ 95 ∷ 117 ∷ 110 ∷ 97 ∷ 118 ∷ 97 ∷ 105 ∷ 108 ∷ 97 ∷ 98
    ∷ 108 ∷ 101 ∷ []

abbrev pub rate_limit_exceeded : Text
rate_limit_exceeded =
    114 ∷ 97 ∷ 116 ∷ 101 ∷ 95 ∷ 108 ∷ 105 ∷ 109 ∷ 105 ∷ 116 ∷ 95 ∷ 101 ∷ 120 ∷ 99 ∷ 101 ∷ 101 ∷ 100
    ∷ 101 ∷ 100 ∷ []

-- DefaultRetryConfig
abbrev pub default_retry_config : {F : Type 0} → Float F → RetryConfig F
default_retry_config fl = record {
  max_retries = 5;
  initial_delay = 100000000;
  max_delay = 30000000000;
  backoff_factor = fl.from_int 2;
  jitter = true;
  retryable_errors = network_error ∷ timeout ∷ service_unavailable ∷ rate_limit_exceeded ∷ [];
}

pub data RetryError (E : Type 0) : Type 0 where
  non_retryable : E → RetryError E
  cancelled : CtxError → RetryError E
  exhausted : Option E → RetryError E

-- isRetryableError, for the error's text.
unfoldable pub is_retryable_error : {F : Type 0} → RetryConfig F → Text → Bool
is_retryable_error config error_text = any (λ r. contains error_text r) config.retryable_errors

-- calculateDelay, in nanoseconds, with the clock's reading for the jitter.
unfoldable pub calculate_delay : {F : Type 0} → Float F → RetryConfig F → ℕ → Int64 → Int64
calculate_delay fl config nanos attempt =
    let grown =
      fl.mul (fl.from_int config.initial_delay)
        (fl.power config.backoff_factor (fl.from_int attempt)) in
    let limit = fl.from_int config.max_delay in
    let delay = if fl.lt limit grown then limit else grown in
    let range = fl.mul delay (fl.div (fl.from_int 1) (fl.from_int 4)) in
    let jitter =
      fl.sub
        (fl.div (fl.mul (fl.mul (fl.from_int 2) range) (fl.from_int (nanos % 1000)))
          (fl.from_int 1000))
        range in
    fl.to_int (if config.jitter then fl.add delay jitter else delay)

-- What the loop is given: the operation at an attempt, the text of its errors, the clock, and the
-- wait of a time, which the end of the context may cut short. They act on a world `W`.
pub record RetryWorld (W E : Type 0) : Type 0 where
  pub operation : ℕ → W → W × Option E
  pub error_text : E → Text
  pub nanos : W → ℕ
  pub wait : Int64 → W → W × Option CtxError

module _ {F W E : Type 0} (fl : Float F) (config : RetryConfig F) (env : RetryWorld W E) where
  -- The last attempt's error.
  abbrev last_error : Option E → Option (RetryError E)
  last_error none = none
  last_error (some e) =
      if is_retryable_error config (env.error_text e)
      then some (exhausted (some e))
      else some (non_retryable e)

  -- The loop from an attempt on, with so many attempts after it.
  unfoldable pub retry_attempts : ℕ → ℕ → W → W × Option (RetryError E)
  retry_attempts zero attempt w = let (w', r) = env.operation attempt w in (w', last_error r)
  retry_attempts (suc left) attempt w =
      let (w', r) = env.operation attempt w in
      elim r [
        | none ↦ (w', none)
        | some e ↦ elim (is_retryable_error config (env.error_text e)) [
          | false ↦ (w', some (non_retryable e))
          | true ↦
              let (w'', cut) = env.wait (calculate_delay fl config (env.nanos w') attempt) w' in
              elim cut [
                | some x ↦ (w'', some (cancelled x))
                | none ↦ retry_attempts left (suc attempt) w''
              ]
        ]
      ]

  -- ExecuteWithRetry. Without attempts, which is MaxRetries below 0, the error wraps none.
  unfoldable pub execute_with_retry : W → W × Option (RetryError E)
  execute_with_retry w =
      if lt64 config.max_retries 0
      then (w, some (exhausted none))
      else retry_attempts config.max_retries 0 w
