-- ===== src/Http/Administration/Admins.antt =====
-- Who may call the administrators' handlers.
use w16crypto_engine.Common.Error.{err, AppError}
use w16crypto_engine.Db.State.{Db}
use w16crypto_engine.Http.Administration.{
  create_market, pause_market, reopen_market, settle_market, CreateMarketRequest,
}
use w16crypto_engine.Http.Withdrawals.{approve_request, reject_request}
use w16crypto_engine.Http.Deposits.{Json, deposit, check_deposit, Arrival, DepositRequest}
use w16crypto_engine.Http.{Web, AuthContext}
use w16crypto_engine.Base.{ℕ, String, ◌≡◌, false, arith}

module _ (w : Web) (j : Json) where
  -- A caller that is no administrator is refused by every one of the administrators' handlers, and
  -- none of them changes a table, whatever the request.
  pub admins_only :
      (a : AuthContext) (db : Db)
      → a.is_admin ≡ false
      → ((at : Arrival) (req : DepositRequest w.Float)
          → deposit w j a at req db ≡ (err AppError.forbidden, db))
        × ((id now : ℕ) → approve_request w a id now db ≡ (err AppError.forbidden, db))
        × ((id now : ℕ) → reject_request w a id now db ≡ (err AppError.forbidden, db))
        × ((id now : ℕ) (req : CreateMarketRequest)
            → create_market w a id now req db ≡ (err AppError.forbidden, db))
        × ((id : ℕ) → pause_market w a id db ≡ (err AppError.forbidden, db))
        × ((id : ℕ) → reopen_market w a id db ≡ (err AppError.forbidden, db))
        × ((id now : ℕ) (text : String)
            → settle_market w a id now text db ≡ (err AppError.forbidden, db))
  unfolding deposit check_deposit approve_request reject_request create_market pause_market
      reopen_market settle_market
  admins_only a db h = (
    λ at req. ground arith,
    λ id now. ground arith,
    λ id now. ground arith,
    λ id now req. ground arith,
    λ id. ground arith,
    λ id. ground arith,
    λ id now text. ground arith,
  )
