-- ===== src/Common/Error.antt =====
-- api/crates/common/src/error.rs: the application's errors, their results, and the HTTP status
-- that each one is answered with.
use w16crypto_engine.Base.{ℕ, ℤ, List, String}

-- A message as the parts that `format!` joins.
pub data Part : Type 0 where
  text : String → Part
  number : ℤ → Part
  uuid : ℕ → Part

abbrev pub Message : Type 0
Message = List Part

-- What `e.to_string()` of a database error tells: which constraint of migrations/ refused the
-- statement, that the server could not be reached, that a LIMIT is negative, or that sqlx cannot
-- decode a row as the Rust type.
pub data Fault : Type 0 where
  out_of_range check_violation unique_violation foreign_key row_not_found disconnected
        negative_limit not_decoded :
      Fault

pub data AppError : Type 0 where
  internal external validation risk_limit_exceeded : Message → AppError
  slippage_exceeded circuit_breaker_open : AppError
  database : Fault → AppError
  blockchain messaging : Message → AppError
  insufficient_balance : ℕ → ℕ → AppError
  market_not_found order_not_found : ℕ → AppError
  market_not_open : AppError
  not_found : Message → AppError
  unauthorized forbidden : AppError
  conflict bad_request : Message → AppError

-- `into_response`: the status code.
unfoldable pub status_code : AppError → ℕ
status_code (AppError.internal m) = 500
status_code (AppError.external m) = 502
status_code (AppError.validation m) = 400
status_code (AppError.risk_limit_exceeded m) = 403
status_code AppError.slippage_exceeded = 400
status_code AppError.circuit_breaker_open = 503
status_code (AppError.database f) = 500
status_code (AppError.blockchain m) = 502
status_code (AppError.messaging m) = 503
status_code (AppError.insufficient_balance n a) = 400
status_code (AppError.market_not_found i) = 404
status_code (AppError.order_not_found i) = 404
status_code AppError.market_not_open = 400
status_code (AppError.not_found m) = 404
status_code AppError.unauthorized = 401
status_code AppError.forbidden = 403
status_code (AppError.conflict m) = 409
status_code (AppError.bad_request m) = 400

-- `AppResult<T>`
pub data Result (A : Type 0) : Type 0 where
  ok : A → Result A
  err : AppError → Result A

-- The `?` of a result.
abbrev pub and_then : {A B : Type 0} → Result A → (A → Result B) → Result B
and_then (ok a) f = f a
and_then (err e) f = err e
