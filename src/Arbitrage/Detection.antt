-- ===== src/Arbitrage/Detection.antt =====
-- analytics/src/arbitrage.rs: `detect_opportunities` and the queries. What is logged is left out.
use w16crypto_engine.Common.Floats.{Floats, zero_float, at_most_one}
use w16crypto_engine.Base.{
  if◌then◌else◌, ℤ, pos, ltb_ℤ, ℕ, Bool, true, false, not, ◌||◌, Option, none, some, List, [], ◌∷◌,
  ◌++◌,
}
use w16crypto_engine.Arbitrage.{MarketPair, smaller, larger, find_pair}

pub data ArbAction : Type 0 where
  buy_a_sell_b sell_a_buy_b hold : ArbAction

pub record ArbitrageOpportunity (F : Type 0) : Type 0 where
  pub market_a : ℕ
  pub market_b : ℕ
  pub spread_zscore : F
  pub correlation : F
  pub hedge_ratio : F
  pub suggested_action : ArbAction
  pub expected_profit_bps : ℤ
  pub confidence : F
  pub timestamp : ℤ

module _ (f : Floats) (now : ℤ) where
  open f use {Float, literal, of_nat, add, sub, mul, div, abs, is_below, is_equal, as_i32}

  -- `back()`; the list is not empty there.
  unfoldable pub last_spread : List Float → Float
  last_spread [] = zero_float f
  last_spread (x ∷ []) = x
  last_spread (x ∷ y ∷ ys) = last_spread (y ∷ ys)

  abbrev pub zscore_of : MarketPair Float → Float
  zscore_of p = div (sub (last_spread p.spreads) p.spread_mean) p.spread_std

  abbrev pub expected_profit : MarketPair Float → ℤ
  expected_profit p =
      as_i32
        (mul (div (mul (abs (zscore_of p)) p.spread_std) (abs p.spread_mean)) (literal 10000 1))

  abbrev pub opportunity_of : MarketPair Float → ArbitrageOpportunity Float
  opportunity_of p = record {
    market_a = p.market_a;
    market_b = p.market_b;
    spread_zscore = zscore_of p;
    correlation = p.correlation;
    hedge_ratio = p.hedge_ratio;
    suggested_action =
        if is_below (zero_float f) (zscore_of p)
        then ArbAction.sell_a_buy_b
        else ArbAction.buy_a_sell_b;
    expected_profit_bps = expected_profit p;
    confidence = mul (at_most_one f (div (abs (zscore_of p)) (literal 3 1))) (abs p.correlation);
    timestamp = now;
  }

  abbrev pub is_empty : List Float → Bool
  is_empty [] = true
  is_empty (x ∷ xs) = false

  unfoldable pub opportunities_in : MarketPair Float → List (ArbitrageOpportunity Float)
  opportunities_in p =
      if is_below (abs p.correlation) (literal 85 100)
      then []
      else if is_empty p.spreads || is_equal p.spread_std (zero_float f)
      then []
      else if not (is_below (literal 2 1) (abs (zscore_of p)))
      then []
      else if ltb_ℤ (pos 10) (expected_profit p)
      then opportunity_of p ∷ []
      else []

  -- `detect_opportunities`; what it finds replaces the active opportunities.
  unfoldable pub detect_opportunities : List (MarketPair Float) → List (ArbitrageOpportunity Float)
  detect_opportunities [] = []
  detect_opportunities (p ∷ ps) = opportunities_in p ++ detect_opportunities ps

  abbrev pub stats_of : Option (MarketPair Float) → Option (Float × Float × Float)
  stats_of none = none
  stats_of (some p) = some (p.correlation, p.hedge_ratio, p.spread_std)

  unfoldable pub get_pair_stats : ℕ → ℕ → List (MarketPair Float) → Option (Float × Float × Float)
  get_pair_stats a b ps = stats_of (find_pair (smaller a b) (larger a b) ps)
