-- ===== src/Polymarket.antt =====
-- api/crates/polymarket/src/client.rs: `PolymarketClient`, its requests, what it makes of the answers,
-- and the circuit breaker that `create_order` asks. What the exchange answers is an argument, with the
-- texts of the errors of reqwest; Keccak-256 and the reading of JSON are parameters.
pub mod Requests
pub mod Placing
pub mod Budget
use w16crypto_engine.Common.Breaker.{
  CircuitBreaker, CircuitBreakerConfig, new_breaker, allow_call, record_success, record_failure,
}
use w16crypto_engine.Common.Error.{AppError, Result, Part, err, ok}
use w16crypto_engine.Base.{
  ltb, leb, if◌then◌else◌, pos, ℕ, String, Bool, true, ◌&&◌, Option, none, some, [], ◌∷◌,
}

-- No answer, or a status and a body.
pub data Reply : Type 0 where
  unreachable : String → Reply
  answered : ℕ → String → Reply

-- What `serde_json` makes of a body: a value, or an error.
pub data Decoded (A : Type 0) : Type 0 where
  value : A → Decoded A
  malformed : String → Decoded A

pub record PolymarketClient : Type 0 where
  pub base_url : String
  pub api_key : String
  pub api_secret : String
  pub api_passphrase : String
  pub config : CircuitBreakerConfig
  pub circuit_breaker : Option CircuitBreaker

abbrev pub joined : String → String → AppError
joined a b = AppError.internal (Part.text a ∷ Part.text b ∷ [])

-- `new`, with the error of the builder, if it has one; `idle` is the configuration of no breaker.
unfoldable pub new_client :
    CircuitBreakerConfig
    → String
    → Option String
    → String
    → String
    → String
    → Result PolymarketClient
new_client idle url (some e) key secret passphrase = err (joined "Failed to create HTTP client: " e)
new_client idle url none key secret passphrase = ok (record {
  base_url = url;
  api_key = key;
  api_secret = secret;
  api_passphrase = passphrase;
  config = idle;
  circuit_breaker = none;
})

unfoldable pub with_circuit_breaker : CircuitBreakerConfig → PolymarketClient → PolymarketClient
with_circuit_breaker config c = record c { config = config; circuit_breaker = some new_breaker }

abbrev pub with_breaker : CircuitBreaker → PolymarketClient → PolymarketClient
with_breaker b c = record c { circuit_breaker = some b }

-- Whether the call is allowed, with the breaker after it.
abbrev pub breaker_answer : Option CircuitBreaker → ℕ → PolymarketClient → Bool × PolymarketClient
breaker_answer none now c = (true, c)
breaker_answer (some b) now c =
    ((allow_call c.config now b).0, with_breaker (allow_call c.config now b).1 c)

unfoldable pub check_circuit_breaker : ℕ → PolymarketClient → Result Unit × PolymarketClient
check_circuit_breaker now c =
    let answer = breaker_answer c.circuit_breaker now c in
    if answer.0
    then (ok tt, answer.1)
    else (err (AppError.external (Part.text "Circuit breaker open" ∷ [])), answer.1)

abbrev pub after_success : Option CircuitBreaker → ℕ → PolymarketClient → PolymarketClient
after_success none now c = c
after_success (some b) now c = with_breaker (record_success now b) c

unfoldable pub succeeded : ℕ → PolymarketClient → PolymarketClient
succeeded now c = after_success c.circuit_breaker now c

abbrev pub after_failure : Option CircuitBreaker → ℕ → PolymarketClient → PolymarketClient
after_failure none now c = c
after_failure (some b) now c = with_breaker (record_failure c.config now b) c

unfoldable pub failed : ℕ → PolymarketClient → PolymarketClient
failed now c = after_failure c.circuit_breaker now c

-- `StatusCode::is_success`
abbrev pub is_success : ℕ → Bool
is_success status = leb 200 status && ltb status 300

abbrev pub parsed : {A : Type 0} → Decoded A → Result A
parsed (value a) = ok a
parsed (malformed e) = err (joined "JSON parse error: " e)

abbrev pub status_error : String → ℕ → String → AppError
status_error what status body =
    AppError.internal
      (Part.text what ∷ Part.number (pos status) ∷ Part.text ": " ∷ Part.text body ∷ [])

unfoldable pub handle_response : {A : Type 0} → (String → Decoded A) → ℕ → String → Result A
handle_response decode status body =
    if is_success status
    then parsed (decode body)
    else err (status_error "Polymarket API returned " status body)

-- What the calls but `cancel_order` make of an answer.
unfoldable pub result_of : {A : Type 0} → (String → Decoded A) → Reply → Result A
result_of decode (unreachable e) = err (joined "Polymarket API error: " e)
result_of decode (answered status body) = handle_response decode status body

unfoldable pub cancel_result : Reply → Result Unit
cancel_result (unreachable e) =
    err (AppError.external (Part.text "Polymarket API error: " ∷ Part.text e ∷ []))
cancel_result (answered status body) =
    if is_success status then ok tt else err (status_error "Failed to cancel order: " status body)
