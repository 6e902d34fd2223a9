-- ===== src/Gateway/Circuit.antt =====
-- The states of the circuit breaker.
use draftea_payment.Prelude.{
  ℕ, zero, suc, ◌+◌, ◌≤◌, ◌<◌, ◌≡◌, refl, ap, ◌∙◌, Bool-cases, inl, inr, half, arith, ltb, leb,
  add64_small, lt64_small, if◌then◌else◌,
}
use draftea_payment.Gateway.Breaker.{
  CircuitBreaker, closed, open_state, half_open, can_execute, on_success, on_failure, reset,
}

-- The failures are fewer than the limit exactly while the breaker is closed.
pub record IsSound (cb : CircuitBreaker) : Type 0 where
  pub positive : 0 < cb.max_failures
  pub bounded : cb.max_failures < half
  pub below : cb.state ≡ closed → cb.current_failures < cb.max_failures
  pub opened : cb.state ≡ open_state → cb.max_failures ≤ cb.current_failures
  pub probing : cb.state ≡ half_open → cb.max_failures ≤ cb.current_failures

-- A step of the breaker, as the service makes it.
pub data Step : CircuitBreaker → CircuitBreaker → Type 0 where
  ask : (now : ℕ) (cb : CircuitBreaker) → Step cb (can_execute now cb).0
  succeed : (cb : CircuitBreaker) → Step cb (on_success cb)
  fail :
      (now : ℕ) (cb : CircuitBreaker) → cb.current_failures + 1 < half → Step cb (on_failure now cb)
  clear : (cb : CircuitBreaker) → Step cb (reset cb)

pub data Reach (cb : CircuitBreaker) : CircuitBreaker → Type 0 where
  here : Reach cb cb
  next : {cb' cb'' : CircuitBreaker} → Reach cb cb' → Step cb' cb'' → Reach cb cb''

pub on_failure-IsSound :
    (now : ℕ) (cb : CircuitBreaker)
    → cb.current_failures + 1 < half
    → IsSound cb
    → IsSound (on_failure now cb)
unfolding on_failure
on_failure-IsSound now cb h s =
    let count = add64_small cb.current_failures 1 h in
    let test = lt64_small (cb.current_failures + 1) cb.max_failures h s.bounded in ground arith

pub ask-IsSound : (now : ℕ) (cb : CircuitBreaker) → IsSound cb → IsSound (can_execute now cb).0
unfolding can_execute
ask-IsSound now cb s = ground arith

pub succeed-IsSound : (cb : CircuitBreaker) → IsSound cb → IsSound (on_success cb)
unfolding on_success
succeed-IsSound cb s = ground arith

pub clear-IsSound : (cb : CircuitBreaker) → IsSound cb → IsSound (reset cb)
unfolding reset
clear-IsSound cb s = ground arith

Step-IsSound : {cb cb' : CircuitBreaker} → Step cb cb' → IsSound cb → IsSound cb'
Step-IsSound (ask now cb) s = ask-IsSound now cb s
Step-IsSound (succeed cb) s = succeed-IsSound cb s
Step-IsSound (fail now cb h) s = on_failure-IsSound now cb h s
Step-IsSound (clear cb) s = clear-IsSound cb s

-- Whatever calls the service makes of the breaker, in whatever order, a closed breaker has seen
-- fewer failures in a row than its limit, and one that is open or half open has seen as many, as
-- long as the count of the failures does not reach the end of its range.
pub Reach-IsSound : {cb cb' : CircuitBreaker} → IsSound cb → Reach cb cb' → IsSound cb'
Reach-IsSound s here = s
Reach-IsSound s (next r st) = Step-IsSound st (Reach-IsSound s r)

pub fail_times : ℕ → ℕ → CircuitBreaker → CircuitBreaker
fail_times zero now cb = cb
fail_times (suc n) now cb = fail_times n now (on_failure now cb)

fail_times_open :
    (n now : ℕ) (cb : CircuitBreaker)
    → cb.state ≡ open_state
    → (fail_times n now cb).state ≡ open_state
unfolding fail_times on_failure
fail_times_open zero now cb h = h
fail_times_open (suc n) now cb h = fail_times_open n now (on_failure now cb) (ground arith)

pub on_failure_closed :
    (now : ℕ) (cb : CircuitBreaker)
    → IsSound cb
    → cb.state ≡ closed
    → cb.current_failures + 1 < half
    → let cb' = on_failure now cb in
      (cb'.state ≡ (if ltb (cb.current_failures + 1) cb.max_failures then closed else open_state))
      × (cb'.current_failures ≡ cb.current_failures + 1)
      × (cb'.max_failures ≡ cb.max_failures)
unfolding on_failure
on_failure_closed now cb s h room =
    let count = add64_small cb.current_failures 1 room in
    let test = lt64_small (cb.current_failures + 1) cb.max_failures room s.bounded in
    (rw (count, test, h), count, refl)

-- A closed breaker opens with the failure that reaches its limit: after `n` failures in a row it is
-- open if they, and those before, are as many as the limit, and else still closed.
pub fail_times_state :
    (n now : ℕ) (cb : CircuitBreaker)
    → IsSound cb
    → cb.state ≡ closed
    → cb.current_failures + n < half
    → (fail_times n now cb).state
      ≡ (if leb cb.max_failures (cb.current_failures + n) then open_state else closed)
unfolding fail_times
fail_times_state zero now cb s h room = ground (arith, s.below h)
fail_times_state (suc n) now cb s h room =
    let cb' = on_failure now cb in
    let (state, count, max) = on_failure_closed now cb s h (omega arith) in
    let s' = on_failure-IsSound now cb (omega arith) s in
    elim (Bool-cases (ltb (cb.current_failures + 1) cb.max_failures)) [
      | inl fewer ↦
          fail_times_state n now cb' s' (state ∙ rw fewer) (omega arith)
          ∙ ap (λ b. if b then open_state else closed)
              (let e : leb cb'.max_failures (cb'.current_failures + n)
                    ≡ leb cb.max_failures (cb.current_failures + suc n) =
                  ground arith in
                e)
      | inr reached ↦
          fail_times_open n now cb' (state ∙ rw reached)
          ∙ (let e : open_state ≡ (
                  if leb cb.max_failures (cb.current_failures + suc n)
                  then open_state
                  else closed) =
                ground arith in
              e)
    ]

failures-can_execute :
    (now : ℕ) (cb : CircuitBreaker) → (can_execute now cb).0.current_failures ≡ cb.current_failures
unfolding can_execute
failures-can_execute now cb = ground arith

-- The breaker after a call that it either refused, or let through to a failure.
abbrev pub after_failure : ℕ → ℕ → CircuitBreaker → CircuitBreaker
after_failure asked failed cb =
    let (cb', allowed) = can_execute asked cb in if allowed then on_failure failed cb' else cb'

pub after_failure-IsSound :
    (asked failed : ℕ) (cb : CircuitBreaker)
    → IsSound cb
    → cb.current_failures + 1 < half
    → IsSound (after_failure asked failed cb)
after_failure-IsSound asked failed cb s room = elim (Bool-cases (can_execute asked cb).1) [
  | inl allowed ↦ rw allowed (
      on_failure-IsSound failed (can_execute asked cb).0 (rw (failures-can_execute asked cb) room)
        (ask-IsSound asked cb s))
  | inr refused ↦ rw refused (ask-IsSound asked cb s)
]

pub failures-after_failure :
    (asked failed : ℕ) (cb : CircuitBreaker)
    → cb.current_failures + 1 < half
    → (after_failure asked failed cb).current_failures ≤ cb.current_failures + 1
unfolding on_failure can_execute
failures-after_failure asked failed cb room =
    let count = add64_small cb.current_failures 1 room in ground arith

-- An open breaker is open after another failure, whether it is asked before or after its timeout.
pub after_failure_open :
    (asked failed : ℕ) (cb : CircuitBreaker)
    → IsSound cb
    → cb.current_failures + 1 < half
    → cb.state ≡ open_state
    → (after_failure asked failed cb).state ≡ open_state
unfolding on_failure can_execute
after_failure_open asked failed cb s room h =
    let count = add64_small cb.current_failures 1 room in
    let test = lt64_small (cb.current_failures + 1) cb.max_failures room s.bounded in
    let full = s.opened h in ground arith

pub after_failure_closed :
    (asked failed : ℕ) (cb : CircuitBreaker)
    → cb.state ≡ closed
    → after_failure asked failed cb ≡ on_failure failed cb
unfolding can_execute
after_failure_closed asked failed cb h = ground arith
