-- ===== src/Http/Deposits.antt =====
-- api/crates/api-http/src/handlers/deposits.rs: the administrators' deposit, under a key that makes
-- a request idempotent.
pub mod Once
use Prim.Native.String.{len}
use w16crypto_engine.Common.Error.{Part}
use w16crypto_engine.Db.Users.{audit}
use w16crypto_engine.Db.Balances.{record_deposit}
use w16crypto_engine.Db.State.{◌>>◌, fail, ◌>>=◌, guard, or_fail, pure}
use w16crypto_engine.Db.Idempotency.{
  IdempotencyStatus, get_idempotency_response, claim_idempotency_key, complete_idempotency_key,
}
use w16crypto_engine.Http.{
  Web, Call, AuthContext, Response, require_admin, AppError, respond, user_of,
}
use w16crypto_engine.Base.{◌==◌, ℤ, pos, ltb_ℤ, ℕ, String, not, Option, none, some, [], ◌∷◌}

pub record DepositRequest (F : Type 0) : Type 0 where
  pub user_id : ℕ
  pub amount : F
  pub reference : String

pub record DepositResponse : Type 0 where
  pub user_id : ℕ
  pub amount : ℤ
  pub reference : String

-- What the request draws or reads besides its body: the header's key, the key that is made if
-- there is none, the number that the table draws for the deposit, and the time.
pub record Arrival : Type 0 where
  pub header_key : Option String
  pub fresh_key : String
  pub row_id : ℕ
  pub now : ℕ

abbrev pub key_of : Arrival → String
key_of a = elim a.header_key [ none ↦ a.fresh_key | some k ↦ k ]

-- The answer that is stored under the key, if the request was completed before.
abbrev pub cached : ℕ → String → IdempotencyStatus → Call (Option String)
cached u key IdempotencyStatus.complete = get_idempotency_response u key
cached u key IdempotencyStatus.processing =
    fail (AppError.conflict (Part.text "request already in progress" ∷ []))
cached u key IdempotencyStatus.fresh = pure none

-- serde_json, to a stored answer and back.
pub record Json : Type 0 where
  pub to_value : DepositResponse → String
  pub from_value : String → Option DepositResponse

module _ (w : Web) (j : Json) where
  open w use {Float, float_of, is_le, mul, round, as_i64, trim}
  open j use {to_value, from_value}

  -- `(amount * 10_000.0).round() as i64`
  abbrev pub units : Float → ℤ
  units x = as_i64 (round (mul x (float_of 10000)))

  -- The checks before the key is claimed; the result is the administrator.
  unfoldable pub check_deposit : AuthContext → DepositRequest Float → Call ℕ
  check_deposit a req = do
    require_admin a
    guard (not (is_le req.amount (float_of 0)))
        (AppError.validation (Part.text "amount must be positive" ∷ []))
    guard (not (len (trim req.reference) == 0))
        (AppError.validation (Part.text "reference is required" ∷ []))
    admin ← user_of w a
    guard (ltb_ℤ (pos 0) (units req.amount))
        (AppError.validation (Part.text "amount too small" ∷ []))
    pure admin

  abbrev pub response_of : DepositRequest Float → DepositResponse
  response_of req = record {
    user_id = req.user_id;
    amount = units req.amount;
    reference = req.reference;
  }

  -- The deposit itself, with its audit, and the answer stored under the key.
  unfoldable pub perform : ℕ → Arrival → DepositRequest Float → Call (Response DepositResponse)
  perform admin at req = do
    record_deposit at.row_id req.user_id (units req.amount) req.reference
    audit (some admin) "deposit" "user" (some req.user_id)
    complete_idempotency_key admin (key_of at) (to_value (response_of req))
    respond 201 (response_of req)

  -- What is stored is answered again.
  abbrev pub answer :
      ℕ → Arrival → DepositRequest Float → Option String → Call (Response DepositResponse)
  answer admin at req none = perform admin at req
  answer admin at req (some value) = do
    r ← or_fail (from_value value) (AppError.internal (Part.text "stored response" ∷ []))
    respond 200 r

  -- From the claim of the key on.
  unfoldable pub keyed : ℕ → Arrival → DepositRequest Float → Call (Response DepositResponse)
  keyed admin at req = do
    status ← claim_idempotency_key admin (key_of at) at.now
    stored ← cached admin (key_of at) status
    answer admin at req stored

  unfoldable pub deposit :
      AuthContext → Arrival → DepositRequest Float → Call (Response DepositResponse)
  deposit a at req = do admin ← check_deposit a req; keyed admin at req
