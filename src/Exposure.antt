-- ===== src/Exposure.antt =====
-- api/crates/analytics/src/risk.rs: `RiskManager`, the exposure, the day's profit and the drawdown of
-- each user, and the global circuit breaker that a loss trips.
pub mod Fills
pub mod Breaker
use w16crypto_engine.Common.Types.{Order, Fill, Side, is_buy}
use w16crypto_engine.Common.Price.{Decimals}
use w16crypto_engine.Base.{
  ◌==◌, leb, Table, lookup, insert, length, sum_by, u64_bound, ℕ, ◌+◌, ◌%◌, Bool, true, false, not,
  ◌&&◌, Option, none, some, List, [], ◌∷◌, ◌++◌, if◌then◌else◌, max,
}

-- `user_state.positions` counts the positions of a market; no code fills it.
pub record UserRiskState (D : Type 0) : Type 0 where
  pub daily_pnl_usd : D
  pub total_exposure_usd : D
  pub max_drawdown_pct : D
  pub positions : Table ℕ
  pub fills_today : List Fill
  pub peak_balance_usd : D
  pub current_balance_usd : D

pub record RiskLimits (D : Type 0) : Type 0 where
  pub max_position_size_usd : D
  pub max_daily_loss_usd : D
  pub max_total_exposure_usd : D
  pub max_drawdown_pct : D
  pub max_positions_per_market : ℕ
  pub max_correlated_exposure : D

-- Why an order is refused, with the numbers that the message shows.
pub data Reason (D : Type 0) : Type 0 where
  breaker_active score_too_high : Reason D
  order_too_large exposure_too_large : D → D → Reason D
  too_many_positions : ℕ → Reason D
  daily_loss drawdown : D → Reason D

pub record RiskCheckResult (D : Type 0) : Type 0 where
  pub allowed : Bool
  pub reason : Option (Reason D)
  pub risk_score : D

pub record RiskManager (D : Type 0) : Type 0 where
  pub limits : RiskLimits D
  pub user_states : Table (UserRiskState D)
  pub circuit_breaker : Bool

module _ (d : Decimals) where
  open d use {Decimal, decimal_of, add, sub, mul, div, is_le}

  abbrev pub zero_usd : Decimal
  zero_usd = decimal_of 0

  -- `a > b`, and `-a`
  abbrev pub is_above : Decimal → Decimal → Bool
  is_above a b = not (is_le a b)

  abbrev pub negated : Decimal → Decimal
  negated a = sub zero_usd a

  -- `RiskLimits::default`
  unfoldable pub default_limits : RiskLimits Decimal
  default_limits = record {
    max_position_size_usd = decimal_of 100000;
    max_daily_loss_usd = decimal_of 50000;
    max_total_exposure_usd = decimal_of 500000;
    max_drawdown_pct = div (decimal_of 20) (decimal_of 100);
    max_positions_per_market = 5;
    max_correlated_exposure = decimal_of 200000;
  }

  -- `RiskManager::new`
  unfoldable pub new_manager : RiskLimits Decimal → RiskManager Decimal
  new_manager l = record { limits = l; user_states = []; circuit_breaker = false }

  abbrev pub drawdown_of : Decimal → UserRiskState Decimal → Decimal
  drawdown_of or_else s =
      if is_above s.peak_balance_usd zero_usd
      then div (sub s.peak_balance_usd s.current_balance_usd) s.peak_balance_usd
      else or_else

  abbrev pub tenths : ℕ → Decimal
  tenths n = div (decimal_of n) (decimal_of 10)

  -- `calculate_risk_score`
  unfoldable pub calculate_risk_score :
      RiskLimits Decimal → UserRiskState Decimal → Decimal → Decimal
  calculate_risk_score l s value =
      let exposure_ratio = div (add s.total_exposure_usd value) l.max_total_exposure_usd in
      let drawdown_ratio = div s.max_drawdown_pct l.max_drawdown_pct in
      let concentration_ratio = div value (add (add s.total_exposure_usd value) (decimal_of 1)) in
      let pnl_ratio =
        if is_above zero_usd s.daily_pnl_usd
        then div (negated s.daily_pnl_usd) l.max_daily_loss_usd
        else zero_usd in
      let score =
        add
          (add (add (mul exposure_ratio (tenths 3)) (mul drawdown_ratio (tenths 3)))
            (mul concentration_ratio (tenths 2)))
          (mul pnl_ratio (tenths 2)) in
      if is_le score (decimal_of 1) then score else decimal_of 1

  abbrev pub refuse : Reason Decimal → RiskCheckResult Decimal
  refuse r = record { allowed = false; reason = some r; risk_score = decimal_of 1 }

  abbrev pub count_or_zero : Option ℕ → ℕ
  count_or_zero none = 0
  count_or_zero (some n) = n

  abbrev pub scored : Decimal → RiskCheckResult Decimal
  scored score =
      if is_above score (tenths 8)
      then record { allowed = false; reason = some Reason.score_too_high; risk_score = score }
      else record { allowed = true; reason = none; risk_score = score }

  -- The checks of `check_order_risk` for a user who has a state.
  unfoldable pub check_user :
      RiskLimits Decimal → UserRiskState Decimal → ℕ → Decimal → RiskCheckResult Decimal
  check_user l s market value =
      if is_above (add s.total_exposure_usd value) l.max_total_exposure_usd
      then refuse
          (Reason.exposure_too_large (add s.total_exposure_usd value) l.max_total_exposure_usd)
      else if leb l.max_positions_per_market (count_or_zero (lookup market s.positions))
      then refuse (Reason.too_many_positions l.max_positions_per_market)
      else if is_above (negated l.max_daily_loss_usd) s.daily_pnl_usd
      then refuse (Reason.daily_loss s.daily_pnl_usd)
      else if is_above (drawdown_of zero_usd s) l.max_drawdown_pct
      then refuse (Reason.drawdown (mul (drawdown_of zero_usd s) (decimal_of 100)))
      else scored (calculate_risk_score l s value)

  abbrev pub check_state :
      RiskLimits Decimal → Option (UserRiskState Decimal) → ℕ → Decimal → RiskCheckResult Decimal
  check_state l none market value = record { allowed = true; reason = none; risk_score = zero_usd }
  check_state l (some s) market value = check_user l s market value

  unfoldable pub check_order_risk :
      ℕ → Order → Decimal → RiskManager Decimal → RiskCheckResult Decimal
  check_order_risk user o price r =
      let value = mul (decimal_of o.quantity) price in
      if r.circuit_breaker
      then refuse Reason.breaker_active
      else if is_above value r.limits.max_position_size_usd
      then refuse (Reason.order_too_large value r.limits.max_position_size_usd)
      else check_state r.limits (lookup user r.user_states) o.market_id value

  -- `get_user_exposure` and `get_user_pnl`
  unfoldable pub get_user_exposure : ℕ → RiskManager Decimal → Decimal
  get_user_exposure user r = elim (lookup user r.user_states) [
    | none ↦ zero_usd
    | some s ↦ s.total_exposure_usd
  ]

  unfoldable pub get_user_pnl : ℕ → RiskManager Decimal → Decimal
  get_user_pnl user r = elim (lookup user r.user_states) [
    | none ↦ zero_usd
    | some s ↦ s.daily_pnl_usd
  ]
