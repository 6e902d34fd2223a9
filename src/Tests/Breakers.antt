-- ===== src/Tests/Breakers.antt =====
-- Examples for the gateway: a breaker that has just opened, and calls that get no answer.
use draftea_payment.Prelude.{ℕ, ◌≡◌, inr, none, [], ◌∷◌, arith}
use draftea_payment.Events.Types.{no_txn}
use draftea_payment.Payment.Entity.{Payment, PaymentStatus}
use draftea_payment.Gateway.Breaker.{CircuitBreaker, closed, open_state, can_execute, on_failure}
use draftea_payment.Gateway.Circuit.{IsSound, here, next, ask, fail, Reach-IsSound}
use draftea_payment.Gateway.Service.{Encounter, new_service}
use draftea_payment.Gateway.Outcomes.{outage_opens, run}

abbrev payment : Payment
payment = record {
  id = 40;
  user_id = 7;
  amount = 300;
  currency = "USD";
  service_id = "svc";
  description = "";
  status = PaymentStatus.processing;
  gateway_txn_id = no_txn;
  created_at = 0;
  updated_at = 0;
  correlation_id = 3;
}

-- A call at time `t` that draws the number `n`.
abbrev call : ℕ → ℕ → Encounter
call t n = record { cancelled = none; scenario = n; started = t; finished = t; first_uuid = 50 }

abbrev tripped : CircuitBreaker
tripped = record {
  max_failures = 5;
  reset_timeout = 60;
  current_failures = 5;
  last_failure_time = 1000;
  state = open_state;
}

abbrev fresh : CircuitBreaker
fresh = record tripped { current_failures = 0; state = closed }

fresh-IsSound : IsSound fresh
fresh-IsSound = record {
  positive = omega arith;
  bounded = omega arith;
  below = λ h. omega arith;
  opened = λ h. absurd (cc h);
  probing = λ h. absurd (cc h);
}

Reach-IsSound_example : IsSound (on_failure 9 (can_execute 8 fresh).0)
unfolding can_execute
Reach-IsSound_example =
    Reach-IsSound fresh-IsSound
      (next (next here (ask 8 fresh)) (fail 9 (can_execute 8 fresh).0 (omega arith)))

outage_opens_example :
    (run ℕ
      (call 1 97 ∷ call 2 97 ∷ call 3 95 ∷ call 4 99 ∷ call 5 97 ∷ [])
      (new_service "stripe")
      payment).breaker.state
    ≡ open_state
outage_opens_example =
    outage_opens ℕ "stripe" (call 1 97 ∷ call 2 97 ∷ call 3 95 ∷ call 4 99 ∷ call 5 97 ∷ []) payment
      (
        inr (omega arith),
        (inr (omega arith), (inr (omega arith), (inr (omega arith), (inr (omega arith), tt)))),
      )
      (omega arith) (omega arith)
