-- ===== src/Orders/Placing.antt =====
-- When an order reaches the exchange, and what the limits do with it.
use text.Mathlib.Text.{◌==◌ as str_eq}
use w16crypto_engine.Base.{lookup, ℕ, ◌≡◌, true, false, none, arith}
use w16crypto_engine.Orders.{Exchange, risk_of, OrderRequest, Decimals, Message}
use w16crypto_engine.Exposure.{RiskManager, Reason, check_order_risk, get_user_exposure}

module _ (d : Decimals) (x : Exchange) (describe : Reason d.Decimal → Message) where
  open d use {Decimal, decimal_of, mul, is_le}
  open x use {show_uuid, create_order}

  -- A user whom the risk manager does not know has no exposure, and the exposure is what an order is
  -- valued at: with the breaker off the manager allows an order of any quantity. It is assumed
  -- that zero times a decimal is zero, and that the largest position is not below zero.
  pub risk_of-unknown :
      (id now user : ℕ) (r : OrderRequest) (m : RiskManager Decimal)
      → m.circuit_breaker ≡ false
      → lookup user m.user_states ≡ none
      → ((n : ℕ) → mul (decimal_of n) (decimal_of 0) ≡ decimal_of 0)
      → is_le (decimal_of 0) m.limits.max_position_size_usd ≡ true
      → (risk_of d x describe id user r now m).allowed ≡ true
  unfolding check_order_risk get_user_exposure
  risk_of-unknown id now user r m off new times positive =
      ground (arith, off, new, times r.quantity, positive)
