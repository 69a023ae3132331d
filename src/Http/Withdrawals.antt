-- ===== src/Http/Withdrawals.antt =====
-- api/crates/api-http/src/handlers/withdrawals.rs: a request by a user, and its review.
pub mod Safety
pub mod Privacy
use w16crypto_engine.Db.Listing.{list_withdrawals}
use text.Mathlib.Text.{◌==◌ as str_eq}
use w16crypto_engine.Db.Users.{audit}
use w16crypto_engine.Db.Withdrawals.{reject_withdrawal, approve_withdrawal, create_withdrawal}
use w16crypto_engine.Common.Error.{Part}
use w16crypto_engine.Db.State.{WithdrawalStatus, Call, WithdrawalRow, ◌>>◌, guard, ◌>>=◌}
use w16crypto_engine.Http.{Web, AuthContext, Response, require_admin, AppError, user_of, respond}
use w16crypto_engine.Base.{
  if◌then◌else◌, pos, ltb_ℤ, ℕ, String, not, Option, none, some, [], ◌∷◌, ℤ, List,
}

unfoldable pub parse_status : String → Option WithdrawalStatus
parse_status s =
    if str_eq s "pending"
    then some WithdrawalStatus.pending
    else if str_eq s "approved"
    then some WithdrawalStatus.approved
    else if str_eq s "rejected"
    then some WithdrawalStatus.rejected
    else none

-- The database's call, its audit and the answer.
unfoldable pub requested : ℕ → ℕ → ℤ → Call (Response WithdrawalRow)
requested u id units = do
  row ← create_withdrawal id u units
  audit (some u) "request_withdrawal" "withdrawal" (some id)
  respond 201 row

unfoldable pub approved_by : ℕ → ℕ → ℕ → Call (Response WithdrawalRow)
approved_by admin id now = do
  row ← approve_withdrawal id admin now
  audit (some admin) "approve_withdrawal" "withdrawal" (some id)
  respond 200 row

unfoldable pub rejected_by : ℕ → ℕ → ℕ → Call (Response WithdrawalRow)
rejected_by admin id now = do
  row ← reject_withdrawal id admin now
  audit (some admin) "reject_withdrawal" "withdrawal" (some id)
  respond 200 row

-- The query of a list: the text of a status and a limit.
pub record ListWithdrawalsQuery : Type 0 where
  pub status : Option String
  pub limit : Option ℤ

abbrev pub status_of : Option String → Option WithdrawalStatus
status_of none = none
status_of (some s) = parse_status s

-- `limit.unwrap_or(default).min(most)`
abbrev pub page_limit : Option ℤ → ℤ → ℤ → ℤ
page_limit none default most = if ltb_ℤ default most then default else most
page_limit (some l) default most = if ltb_ℤ l most then l else most

module _ (w : Web) where
  open w use {Float, float_of, is_le, mul, round, as_i64}

  -- `(amount * 10_000.0).round() as i64`
  abbrev pub withdrawal_units : Float → ℤ
  withdrawal_units x = as_i64 (round (mul x (float_of 10000)))

  -- `id` is the number that the table draws for the row.
  unfoldable pub request : AuthContext → ℕ → Float → Call (Response WithdrawalRow)
  request a id amount = do
    guard (not (is_le amount (float_of 0)))
        (AppError.validation (Part.text "amount must be positive" ∷ []))
    u ← user_of w a
    guard (ltb_ℤ (pos 0) (withdrawal_units amount))
        (AppError.validation (Part.text "amount too small" ∷ []))
    requested u id (withdrawal_units amount)

  unfoldable pub approve_request : AuthContext → ℕ → ℕ → Call (Response WithdrawalRow)
  approve_request a id now = do require_admin a; admin ← user_of w a; approved_by admin id now

  unfoldable pub reject_request : AuthContext → ℕ → ℕ → Call (Response WithdrawalRow)
  reject_request a id now = do require_admin a; admin ← user_of w a; rejected_by admin id now

  -- `created_at` is the column of that name, by the key of the row.
  unfoldable pub list_mine :
      (ℕ → ℕ) → AuthContext → ListWithdrawalsQuery → Call (Response (List (ℕ × WithdrawalRow)))
  list_mine created_at a query = do
    u ← user_of w a
    rows ←
        list_withdrawals created_at (some u) (status_of query.status)
          (page_limit query.limit (pos 50) (pos 200))
    respond 200 rows

  unfoldable pub list_all :
      (ℕ → ℕ) → AuthContext → ListWithdrawalsQuery → Call (Response (List (ℕ × WithdrawalRow)))
  list_all created_at a query = do
    require_admin a
    rows ←
        list_withdrawals created_at none (status_of query.status)
          (page_limit query.limit (pos 100) (pos 500))
    respond 200 rows
