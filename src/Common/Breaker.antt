-- ===== src/Common/Breaker.antt =====
-- api/crates/common/src/circuit_breaker.rs: `CircuitBreaker`. An operation's `now` is what
-- `Instant::now().elapsed()` reads, in seconds: the time since that very instant.
pub mod Trips
pub mod Registry
use text.Mathlib.Text.{◌==◌ as str_eq}
use w16crypto_engine.Base.{
  leb, if◌then◌else◌, u64_bound, ℕ, ◌+◌, ◌-◌, ◌%◌, Bool, true, false, List, [], ◌∷◌, String, Option,
  none, some,
}

pub data CircuitState : Type 0 where
  closed «open» half_open : CircuitState

pub record CircuitBreakerConfig : Type 0 where
  pub failure_threshold : ℕ
  pub reset_timeout : ℕ
  pub failure_window : ℕ

pub record CircuitBreaker : Type 0 where
  pub state : CircuitState
  pub failures : ℕ
  pub last_failure_time : ℕ
  pub last_state_change : ℕ

-- `CircuitBreakerConfig::default`
unfoldable pub default : CircuitBreakerConfig
default = record { failure_threshold = 5; reset_timeout = 30; failure_window = 60 }

unfoldable pub new_breaker : CircuitBreaker
new_breaker = record {
  state = CircuitState.closed;
  failures = 0;
  last_failure_time = 0;
  last_state_change = 0;
}

unfoldable pub allow_call : CircuitBreakerConfig → ℕ → CircuitBreaker → Bool × CircuitBreaker
allow_call c now b = elim b.state [
  | CircuitState.closed ↦ (true, b)
  | CircuitState.«open» ↦
      if leb c.reset_timeout (now - b.last_state_change)
      then (true, record b { state = CircuitState.half_open; last_state_change = now })
      else (false, b)
  | CircuitState.half_open ↦ (true, b)
]

unfoldable pub record_success : ℕ → CircuitBreaker → CircuitBreaker
record_success now b = elim b.state [
  | CircuitState.half_open ↦ record b {
    state = CircuitState.closed;
    failures = 0;
    last_state_change = now;
  }
  | _ ↦ b
]

-- `fetch_add` wraps around.
abbrev pub counted : ℕ → CircuitBreaker → CircuitBreaker
counted now b = record b { failures = (b.failures + 1) % u64_bound; last_failure_time = now }

abbrev pub opened : ℕ → CircuitBreaker → CircuitBreaker
opened now b = record b { state = CircuitState.«open»; last_state_change = now }

unfoldable pub record_failure : CircuitBreakerConfig → ℕ → CircuitBreaker → CircuitBreaker
record_failure c now b = elim b.state [
  | CircuitState.half_open ↦ opened now (counted now b)
  | CircuitState.closed ↦
      if leb c.failure_threshold ((b.failures + 1) % u64_bound)
      then opened now (counted now b)
      else counted now b
  | CircuitState.«open» ↦ counted now b
]

unfoldable pub reset : ℕ → CircuitBreaker → CircuitBreaker
reset now b = record b { state = CircuitState.closed; failures = 0; last_state_change = now }

-- The calls that a client makes around its own; each locks the breaker's state.
pub data Event : Type 0 where
  asks succeeds fails resets : ℕ → Event

abbrev pub handle : CircuitBreakerConfig → Event → CircuitBreaker → CircuitBreaker
handle c (asks now) b = (allow_call c now b).1
handle c (succeeds now) b = record_success now b
handle c (fails now) b = record_failure c now b
handle c (resets now) b = reset now b

unfoldable pub run : CircuitBreakerConfig → List Event → CircuitBreaker → CircuitBreaker
unfolding allow_call record_success record_failure reset
run c [] b = b
run c (e ∷ es) b = run c es (handle c e b)

-- `CircuitBreakerRegistry`: a breaker under each name, with its configuration. A handle that it
-- gives out is the name.
pub record Entry : Type 0 where
  pub name : String
  pub config : CircuitBreakerConfig
  pub breaker : CircuitBreaker

unfoldable pub get_breaker : String → List Entry → Option Entry
get_breaker name [] = none
get_breaker name (e ∷ es) = if str_eq name e.name then some e else get_breaker name es

-- `breakers.insert`: the breaker of that name is replaced.
unfoldable pub put_breaker : Entry → List Entry → List Entry
put_breaker x [] = x ∷ []
put_breaker x (e ∷ es) = if str_eq x.name e.name then x ∷ es else e ∷ put_breaker x es

-- The write, under the second lock.
unfoldable pub put_new : String → CircuitBreakerConfig → List Entry → List Entry
unfolding put_breaker new_breaker
put_new name c es = put_breaker (record { name = name; config = c; breaker = new_breaker }) es

unfoldable pub get_or_create : String → CircuitBreakerConfig → List Entry → List Entry
unfolding get_breaker put_new
get_or_create name c es = elim (get_breaker name es) [ none ↦ put_new name c es | some e ↦ es ]
