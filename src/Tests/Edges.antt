-- ===== src/Tests/Edges.antt =====
-- Messages, prices, keys, rate limits and circuit breakers at concrete values.
use w16crypto_engine.Db.Idempotency.Expiry.{claim_after_expiry}
use w16crypto_engine.Db.Withdrawals.{expire_idempotency_keys}
use w16crypto_engine.Db.Idempotency.Claims.{claim_once}
use w16crypto_engine.Tests.Fixture.{bank}
use w16crypto_engine.Common.Error.{ok}
use w16crypto_engine.Messaging.{Received}
use w16crypto_engine.Common.Types.{Side}
use w16crypto_engine.Common.Breaker.Trips.{AreEarly, run-open}
use w16crypto_engine.Messaging.Wire.{Fits, dispatch-encode_order}
use w16crypto_engine.Db.State.{Db}
use w16crypto_engine.Common.Breaker.{
  run, Event, CircuitBreaker, default, fails, CircuitState, succeeds, allow_call, asks, Entry,
}
use w16crypto_engine.RateLimit.Admission.{admitted, AreWithin, count_of, admitted-window}
use w16crypto_engine.Db.Idempotency.{
  claim_idempotency_key, find_key, complete_idempotency_key, IdempotencyStatus,
  get_idempotency_response,
}
use w16crypto_engine.Messaging.{dispatch, EngineOrderMsg, encode_order_msg}
use w16crypto_engine.RateLimit.{RateLimiter}
use w16crypto_engine.Common.Price.{Decimals, micro}
use w16crypto_engine.Base.{
  ltb, leb, if◌then◌else◌, u64_bound, u32_bound, ℕ, ◌+◌, ◌-◌, ◌*◌, ◌/◌, ◌<◌, min, ◌≡◌, refl, false,
  none, some, List, [], ◌∷◌, arith,
}

abbrev order_msg : EngineOrderMsg
order_msg = record {
  order_id = 11;
  market_id = 7;
  user_id = 1;
  side = Side.sell;
  price = 5000;
  quantity = 300;
  sequence = 4;
  is_market = false;
}

order_msg-Fits : Fits order_msg
unfolding Fits
order_msg-Fits =
    (ground arith, ground arith, ground arith, ground arith, ground arith, ground arith)

dispatch-encode_order_example : dispatch (encode_order_msg order_msg) ≡ Received.add_order order_msg
dispatch-encode_order_example = dispatch-encode_order order_msg order_msg-Fits

-- A decimal as its number of millionths.
abbrev pub millionths : Decimals
millionths = record {
  Decimal = ℕ;
  decimal_of = λ n. n * micro;
  add = λ a b. a + b;
  sub = λ a b. a - b;
  mul = λ a b. a * b / micro;
  div = λ a b. a * micro / b;
  round = λ a. (a + 500000) / micro * micro;
  ceil = λ a. (a + 999999) / micro * micro;
  abs = λ a. a;
  is_le = leb;
  to_u32 = λ a. if ltb (a / micro) u32_bound then some (a / micro) else none;
  to_u64 = λ a. if ltb (a / micro) u64_bound then some (a / micro) else none;
}

claimed_first : (claim_idempotency_key 1 "a" 60 bank).0 ≡ ok IdempotencyStatus.fresh
unfolding claim_idempotency_key find_key
claimed_first = refl

abbrev claimed : Db
claimed = (claim_idempotency_key 1 "a" 60 bank).1

abbrev answered : Db
answered = (complete_idempotency_key 1 "a" "{}" claimed).1

claim_once_example :
    (claim_idempotency_key 1 "a" 90 claimed ≡ (ok IdempotencyStatus.processing, claimed))
    × (claim_idempotency_key 1 "a" 90 answered ≡ (ok IdempotencyStatus.complete, answered))
    × (get_idempotency_response 1 "a" answered ≡ (ok (some "{}"), answered))
claim_once_example = claim_once 1 "a" "{}" 60 90 bank claimed answered claimed_first refl refl

claim_after_expiry_example :
    ((claim_idempotency_key 1 "a" 90000 (expire_idempotency_keys 86461 claimed).1).0
      ≡ ok (
          if leb 86461 (60 + 86400) then IdempotencyStatus.processing else IdempotencyStatus.fresh))
    × ((claim_idempotency_key 1 "a" 90000 (expire_idempotency_keys 86461 answered).1).0
        ≡ ok (
            if leb 86461 (60 + 86400) then IdempotencyStatus.complete else IdempotencyStatus.fresh))
claim_after_expiry_example = claim_after_expiry 1 "a" "{}" 60 86461 90000 bank claimed_first

abbrev busy : RateLimiter
busy = record { windows = (1, record { count = 1; window_end = 100 }) ∷ []; limit = 2; period = 50 }

busy_within : AreWithin 100 (60 ∷ 70 ∷ 100 ∷ [])
unfolding AreWithin
busy_within = (ground arith, (ground arith, (ground arith, tt)))

admitted-window_example :
    admitted busy 1 (60 ∷ 70 ∷ 100 ∷ []) ≡ min (count_of (60 ∷ 70 ∷ 100 ∷ [])) (2 - 1)
admitted-window_example =
    admitted-window (60 ∷ 70 ∷ 100 ∷ []) busy 1 (record { count = 1; window_end = 100 }) refl
      busy_within

abbrev troubled : List Event
troubled = fails 0 ∷ succeeds 0 ∷ fails 0 ∷ fails 0 ∷ succeeds 0 ∷ fails 0 ∷ fails 0 ∷ asks 0 ∷ []

troubled-AreEarly : AreEarly default troubled
unfolding AreEarly default
troubled-AreEarly = ground arith

abbrev tripped_breaker : CircuitBreaker
tripped_breaker = record {
  state = CircuitState.«open»;
  failures = 5;
  last_failure_time = 0;
  last_state_change = 0;
}

before_timeout : 0 < default.reset_timeout
unfolding default
before_timeout = ground arith

run-open_example :
    ((run default troubled tripped_breaker).state ≡ CircuitState.«open»)
    × ((allow_call default 0 (run default troubled tripped_breaker)).0 ≡ false)
run-open_example = run-open default troubled tripped_breaker 0 troubled-AreEarly before_timeout refl

abbrev registry : List Entry
registry = (record { name = "nats"; config = default; breaker = tripped_breaker }) ∷ []
