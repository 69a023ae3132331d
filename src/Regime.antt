-- ===== src/Regime.antt =====
-- api/crates/analytics/src/regime.rs: `MarketRegimeDetector`, the latest prices, volumes and spreads of
-- each market and the regime that they show. The floats are a parameter; a sum of integers wraps, as in
-- a release build. `variance.sqrt().unwrap_or(0.0)`, which `f64` does not have, is read as the root.
pub mod Agreement
pub mod Windows
use w16crypto_engine.Common.Windows.{latest, push_window, reversed, is_nil}
use w16crypto_engine.Common.Types.{PriceLevel, OrderBook, Fill}
use w16crypto_engine.Common.Floats.{Floats, zero_float, is_over, mean, sum_floats, square}
use w16crypto_engine.Base.{
  ltb, leb, if◌then◌else◌, length, take, drop, sum_by, u64_bound, u32_bound, Table, lookup, insert,
  ℕ, ◌-◌, ◌%◌, ◌||◌, Option, none, some, List, [], ◌∷◌, map,
}

abbrev pub volatility_window : ℕ
volatility_window = 50

abbrev pub trend_window : ℕ
trend_window = 100

pub data MarketRegime : Type 0 where
  trending_up trending_down ranging high_volatility low_liquidity normal : MarketRegime

pub data VolatilityRegime : Type 0 where
  low medium high extreme : VolatilityRegime

-- `market_id` is the identifier that the source shows as a text.
pub record RegimeState (F : Type 0) : Type 0 where
  pub market_id : ℕ
  pub regime : MarketRegime
  pub volatility : VolatilityRegime
  pub trend_strength : F
  pub volatility_measure : F
  pub liquidity_score : F
  pub timestamp : ℕ

pub record MarketStats : Type 0 where
  pub prices : List ℕ
  pub volumes : List ℕ
  pub spreads : List ℕ
  pub last_update : ℕ

abbrev pub new_stats : ℕ → MarketStats
new_stats now = record { prices = []; volumes = []; spreads = []; last_update = now }

abbrev pub stats_or_new : ℕ → Option MarketStats → MarketStats
stats_or_new now none = new_stats now
stats_or_new now (some s) = s

abbrev pub with_trade : ℕ → Fill → MarketStats → MarketStats
with_trade now x s = record s {
  prices = push_window trend_window s.prices x.price;
  volumes = push_window trend_window s.volumes x.quantity;
  last_update = now;
}

unfoldable pub on_trade : ℕ → Fill → Table MarketStats → Table MarketStats
on_trade now x t = insert x.market_id (with_trade now x (stats_or_new now (lookup x.market_id t))) t

-- The spread of the best prices, if both sides have one.
abbrev pub with_spread : List PriceLevel → List PriceLevel → List ℕ → List ℕ
with_spread [] asks xs = xs
with_spread (b ∷ bids) [] xs = xs
with_spread (b ∷ bids) (a ∷ asks) xs = push_window volatility_window xs (a.price - b.price)

abbrev pub with_levels : ℕ → OrderBook → MarketStats → MarketStats
with_levels now b s = record s { spreads = with_spread b.bids b.asks s.spreads; last_update = now }

unfoldable pub on_book : ℕ → ℕ → OrderBook → Table MarketStats → Table MarketStats
on_book now market b t = insert market (with_levels now b (stats_or_new now (lookup market t))) t

abbrev pub plain_sum : List ℕ → ℕ
plain_sum = sum_by (λ n. n)

module _ (f : Floats) where
  open f use {Float, literal, of_nat, add, sub, mul, div, abs, sqrt, clamp, is_below}

  abbrev pub floats_of : List ℕ → List Float
  floats_of xs = map of_nat xs

  unfoldable pub calculate_volatility : List ℕ → Float
  calculate_volatility prices =
      let recent = floats_of (latest volatility_window prices) in
      let m = mean f recent in
      let variance =
        div (sum_floats f (map (λ x. square f (sub x m)) recent) (zero_float f))
          (of_nat (length recent)) in
      if ltb (length prices) 10 then zero_float f else div (sqrt variance) m

  unfoldable pub calculate_trend : List ℕ → Float
  calculate_trend prices =
      let recent = latest 20 prices in
      let older = take 20 (drop 20 (reversed prices [])) in
      let recent_avg = mean f (floats_of recent) in
      let older_avg = mean f (floats_of older) in
      if ltb (length prices) 20
      then zero_float f
      else if is_nil recent || is_nil older
      then zero_float f
      else div (sub recent_avg older_avg) older_avg

  abbrev pub unit_clamp : Float → Float
  unit_clamp x = clamp x (zero_float f) (literal 1 1)

  unfoldable pub spread_score : List ℕ → Float
  spread_score spreads =
      let average = div (of_nat (plain_sum spreads % u32_bound)) (of_nat (length spreads)) in
      if leb 10 (length spreads)
      then unit_clamp (sub (literal 1 1) (div average (literal 50 1)))
      else literal 5 10

  unfoldable pub volume_score : List ℕ → Float
  volume_score volumes =
      let average = div (of_nat (plain_sum volumes % u64_bound)) (of_nat (length volumes)) in
      if leb 10 (length volumes)
      then unit_clamp (div average (add average (literal 1000 1)))
      else literal 5 10

  unfoldable pub calculate_liquidity : List ℕ → List ℕ → Float
  calculate_liquidity spreads volumes =
      div (add (spread_score spreads) (volume_score volumes)) (literal 2 1)

  -- The tail of `current_regime`.
  unfoldable pub regime_after : Float → Float → Float → MarketRegime
  regime_after volatility trend liquidity =
      if is_over f volatility (literal 5 100)
      then MarketRegime.high_volatility
      else if is_below liquidity (literal 3 10)
      then MarketRegime.low_liquidity
      else if is_over f (abs trend) (literal 2 100)
      then if is_over f trend (zero_float f)
        then MarketRegime.trending_up
        else MarketRegime.trending_down
      else MarketRegime.ranging

  abbrev pub stats_regime : Option MarketStats → MarketRegime
  stats_regime none = MarketRegime.normal
  stats_regime (some s) =
      if ltb (length s.prices) 20
      then MarketRegime.normal
      else regime_after (calculate_volatility s.prices) (calculate_trend s.prices)
          (calculate_liquidity s.spreads s.volumes)

  unfoldable pub current_regime : ℕ → Table MarketStats → MarketRegime
  current_regime market t = stats_regime (lookup market t)

  abbrev pub volatility_regime : Float → VolatilityRegime
  volatility_regime v =
      if is_over f v (literal 8 100)
      then VolatilityRegime.extreme
      else if is_over f v (literal 4 100)
      then VolatilityRegime.high
      else if is_over f v (literal 2 100)
      then VolatilityRegime.medium
      else VolatilityRegime.low

  -- The regime that `get_regime_state` works out for itself.
  unfoldable pub state_regime : Float → Float → Float → MarketRegime
  state_regime volatility trend liquidity =
      if is_over f volatility (literal 5 100)
      then MarketRegime.high_volatility
      else if is_below liquidity (literal 3 10)
      then MarketRegime.low_liquidity
      else if is_over f (abs trend) (literal 2 100)
      then (if is_over f trend (zero_float f)
          then MarketRegime.trending_up
          else MarketRegime.trending_down)
      else MarketRegime.ranging

  abbrev pub state_of : ℕ → ℕ → Float → Float → Float → RegimeState Float
  state_of now market volatility trend liquidity = record {
    market_id = market;
    regime = state_regime volatility trend liquidity;
    volatility = volatility_regime volatility;
    trend_strength = abs trend;
    volatility_measure = volatility;
    liquidity_score = liquidity;
    timestamp = now;
  }

  abbrev pub stats_state : ℕ → ℕ → Option MarketStats → Option (RegimeState Float)
  stats_state now market none = none
  stats_state now market (some s) =
      if ltb (length s.prices) 20
      then none
      else some (
          state_of now market (calculate_volatility s.prices) (calculate_trend s.prices)
            (calculate_liquidity s.spreads s.volumes))

  unfoldable pub get_regime_state : ℕ → ℕ → Table MarketStats → Option (RegimeState Float)
  get_regime_state now market t = stats_state now market (lookup market t)
