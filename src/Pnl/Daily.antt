-- ===== src/Pnl/Daily.antt =====
-- analytics/src/pnl.rs: `end_trading_day` and `get_performance_metrics`. The square root of a decimal
-- is a parameter.
use w16crypto_engine.Base.{
  ◌==◌, if◌then◌else◌, length, sum_by, u64_bound, Table, lookup, insert, ℕ, ◌+◌, ◌%◌, Bool, true,
  not, Option, none, some, List, [], ◌∷◌, ◌++◌,
}
use w16crypto_engine.Pnl.{
  PositionPnl, DailyPerformance, PnlTracker, Answer, or_empty, all_positions, Decimals,
}

pub record PerformanceMetrics (D : Type 0) : Type 0 where
  pub total_return_pct : D
  pub avg_daily_return_pct : D
  pub volatility_pct : D
  pub sharpe_ratio : D
  pub total_trades : ℕ
  pub win_rate_pct : D
  pub max_drawdown_pct : D
  pub num_trading_days : ℕ

module _ (d : Decimals) where
  open d use {Decimal, decimal_of, add, sub, mul, div, is_le, abs}

  abbrev pub nothing : Decimal
  nothing = decimal_of 0

  abbrev pub is_positive : Decimal → Bool
  is_positive x = not (is_le x nothing)

  -- The counts and sums of the loop over a user's positions.
  pub record Trades : Type 0 where
    pub total_pnl : Decimal
    pub wins : ℕ
    pub losses : ℕ
    pub win_total : Decimal
    pub loss_total : Decimal

  abbrev pub no_trades : Trades
  no_trades = record {
    total_pnl = nothing;
    wins = 0;
    losses = 0;
    win_total = nothing;
    loss_total = nothing;
  }

  abbrev pub count_win : Decimal → Trades → Trades
  count_win x t = record t { wins = t.wins + 1; win_total = add t.win_total x }

  abbrev pub count_loss : Decimal → Trades → Trades
  count_loss x t = record t { losses = t.losses + 1; loss_total = add t.loss_total (abs x) }

  abbrev pub count_trade : Decimal → Trades → Trades
  count_trade x t =
      let s = record t { total_pnl = add t.total_pnl x } in
      if is_positive x then count_win x s else if is_le nothing x then s else count_loss x s

  unfoldable pub count_trades : List (PositionPnl Decimal) → Trades → Trades
  count_trades [] t = t
  count_trades (p ∷ ps) t = count_trades ps (count_trade (add p.realized_pnl p.unrealized_pnl) t)

  abbrev pub ratio : Decimal → ℕ → Decimal
  ratio x n = if n == 0 then nothing else div x (decimal_of n)

  abbrev pub starting : Option Decimal → Decimal
  starting none = nothing
  starting (some b) = b

  unfoldable pub performance_of :
      ℕ → Decimal → List (PositionPnl Decimal) → DailyPerformance Decimal
  performance_of today balance ps =
      let t = count_trades ps no_trades in
      record {
        date = today;
        starting_balance = balance;
        ending_balance = add balance t.total_pnl;
        total_pnl = t.total_pnl;
        return_pct = if is_positive balance then div t.total_pnl balance else nothing;
        num_trades = length ps;
        win_rate = ratio (decimal_of t.wins) (length ps);
        avg_win = ratio t.win_total t.wins;
        avg_loss = ratio t.loss_total t.losses;
        max_drawdown_pct = nothing;
        sharpe_ratio = nothing;
      }

  -- The performance of the day, for every user with positions.
  unfoldable pub add_performances :
      ℕ
      → Table Decimal
      → Table (Table (List (PositionPnl Decimal)))
      → Table (List (DailyPerformance Decimal))
      → Table (List (DailyPerformance Decimal))
  add_performances today balances [] h = h
  add_performances today balances (e ∷ t) h =
      let day = performance_of today (starting (lookup e.0 balances)) (all_positions d e.1) in
      add_performances today balances t (insert e.0 (or_empty (lookup e.0 h) ++ day ∷ []) h)

  -- `end_trading_day`: it takes the lock of the records first, and keeps it while it waits for the
  -- positions.
  unfoldable pub end_trading_day : ℕ → PnlTracker Decimal → Answer Unit × PnlTracker Decimal
  end_trading_day today t =
      if t.are_records_held
      then (Answer.waiting, t)
      else if t.are_positions_held
      then (Answer.waiting, record t { are_records_held = true })
      else (
        Answer.answered tt,
        record t {
          historical_performance =
              add_performances today t.user_balances t.positions t.historical_performance;
        },
      )

  module _ (sqrt : Decimal → Decimal) where
    unfoldable pub sum_over :
        (DailyPerformance Decimal → Decimal) → List (DailyPerformance Decimal) → Decimal
    sum_over part [] = nothing
    sum_over part (p ∷ ps) = add (part p) (sum_over part ps)

    -- `fold(dec!(0), |a, b| a.max(b))`
    unfoldable pub max_drawdown : List (DailyPerformance Decimal) → Decimal → Decimal
    max_drawdown [] a = a
    max_drawdown (p ∷ ps) a =
        max_drawdown ps (if is_le p.max_drawdown_pct a then a else p.max_drawdown_pct)

    unfoldable pub metrics_of : List (DailyPerformance Decimal) → PerformanceMetrics Decimal
    metrics_of days =
        let n = decimal_of (length days) in
        let total = sum_over (λ p. p.return_pct) days in
        let average = div total n in
        let spread : DailyPerformance Decimal → Decimal = λ p. sub p.return_pct average in
        let volatility = sqrt (div (sum_over (λ p. mul (spread p) (spread p)) days) n) in
        record {
          total_return_pct = total;
          avg_daily_return_pct = average;
          volatility_pct = volatility;
          sharpe_ratio = if is_positive volatility then div average volatility else nothing;
          total_trades = sum_by (λ p. p.num_trades) days % u64_bound;
          win_rate_pct = div (sum_over (λ p. p.win_rate) days) n;
          max_drawdown_pct = max_drawdown days nothing;
          num_trading_days = length days;
        }

    unfoldable pub metrics_if_any :
        List (DailyPerformance Decimal) → Option (PerformanceMetrics Decimal)
    metrics_if_any [] = none
    metrics_if_any (p ∷ ps) = some (metrics_of (p ∷ ps))

    -- `get_performance_metrics`
    unfoldable pub get_performance_metrics :
        ℕ → PnlTracker Decimal → Option (PerformanceMetrics Decimal)
    get_performance_metrics user t =
        metrics_if_any (or_empty (lookup user t.historical_performance))
