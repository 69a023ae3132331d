-- ===== src/Common/Breaker/Trips.antt =====
-- When a circuit breaker opens, and that its clock keeps it open.
use w16crypto_engine.Common.Breaker.{
  allow_call, CircuitBreakerConfig, run, Event, asks, fails, record_success, CircuitBreaker,
  CircuitState, succeeds, record_failure, handle, resets, reset,
}
use w16crypto_engine.Base.{
  leb, if◌then◌else◌, Bool-cases, u64_bound, ℕ, ◌+◌, ◌<◌, ◌≡◌, inl, inr, false, List, [], ◌∷◌,
  arith,
}

-- An event that is no reset, read at a clock that has not reached the timeout.
abbrev pub IsEarly : CircuitBreakerConfig → Event → Type 0
IsEarly c (asks now) = now < c.reset_timeout
IsEarly c (succeeds now) = now < c.reset_timeout
IsEarly c (fails now) = now < c.reset_timeout
IsEarly c (resets now) = ⊥

unfoldable pub AreEarly : CircuitBreakerConfig → List Event → Type 0
AreEarly c [] = Unit
AreEarly c (e ∷ es) = IsEarly c e × AreEarly c es

abbrev pub failure_of : Event → ℕ
failure_of (fails now) = 1
failure_of _ = 0

unfoldable pub failures_in : List Event → ℕ
failures_in [] = 0
failures_in (e ∷ es) = failure_of e + failures_in es

handle_open :
    (c : CircuitBreakerConfig) (e : Event) (b : CircuitBreaker)
    → IsEarly c e
    → b.state ≡ CircuitState.«open»
    → (handle c e b).state ≡ CircuitState.«open»
unfolding allow_call record_success record_failure reset
handle_open c (asks now) b h o = ground arith
handle_open c (succeeds now) b h o = ground arith
handle_open c (fails now) b h o = ground arith
handle_open c (resets now) b h o = absurd h

-- An open breaker stays open, and refuses every call, as long as its clock reads less than the
-- timeout and nobody resets it. (A clock that is read at its own start always does.)
pub run-open :
    (c : CircuitBreakerConfig) (es : List Event) (b : CircuitBreaker) (now : ℕ)
    → AreEarly c es
    → now < c.reset_timeout
    → b.state ≡ CircuitState.«open»
    → ((run c es b).state ≡ CircuitState.«open») × ((allow_call c now (run c es b)).0 ≡ false)
unfolding run AreEarly allow_call
run-open c [] b now h t o = ground arith
run-open c (e ∷ es) b now h t o = run-open c es (handle c e b) now h.1 t (handle_open c e b h.0 o)

early_now : (c : CircuitBreakerConfig) (e : Event) → IsEarly c e → 0 < c.reset_timeout
early_now c (asks now) h = omega arith
early_now c (succeeds now) h = omega arith
early_now c (fails now) h = omega arith
early_now c (resets now) h = absurd h

abbrev pub tripped : CircuitBreakerConfig → ℕ → CircuitState
tripped c n = if leb c.failure_threshold n then CircuitState.«open» else CircuitState.closed

handle_closed :
    (c : CircuitBreakerConfig) (e : Event) (b : CircuitBreaker)
    → IsEarly c e
    → b.state ≡ CircuitState.closed
    → b.failures + 1 < u64_bound
    → ((handle c e b).failures ≡ b.failures + failure_of e)
      × (b.failures < c.failure_threshold
          → (handle c e b).state ≡ tripped c (b.failures + failure_of e))
unfolding allow_call record_success record_failure reset
handle_closed c (asks now) b h o w = ground arith
handle_closed c (succeeds now) b h o w = ground arith
handle_closed c (fails now) b h o w = ground arith
handle_closed c (resets now) b h o w = absurd h

-- Without resets, and before the timeout, a closed breaker opens exactly when the failures it has
-- counted, those it had and those of the run, reach the threshold: no success and no lapse of
-- time takes one back.
pub run-closed :
    (c : CircuitBreakerConfig) (es : List Event) (b : CircuitBreaker)
    → AreEarly c es
    → b.state ≡ CircuitState.closed
    → b.failures < c.failure_threshold
    → b.failures + failures_in es + 1 < u64_bound
    → (run c es b).state ≡ tripped c (b.failures + failures_in es)
unfolding run AreEarly failures_in
run-closed c [] b h o lo w = ground arith
run-closed c (e ∷ es) b h o lo w =
    let (count, state) = handle_closed c e b h.0 o (ground arith) in
    elim (Bool-cases (leb c.failure_threshold (b.failures + failure_of e))) [
      | inl trip ↦
          let (stays, refused) =
            run-open c es (handle c e b) 0 h.1 (early_now c e h.0) (ground (arith, state lo)) in
          ground arith
      | inr low ↦
          let rest =
            run-closed c es (handle c e b) h.1 (ground (arith, state lo)) (ground arith)
              (ground arith) in
          ground arith
    ]
