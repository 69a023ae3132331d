-- ===== src/Arbitrage.antt =====
-- api/crates/analytics/src/arbitrage.rs: `ArbitrageDetector`, the pairs of markets with the latest
-- prices and spreads of each, and the opportunities in them. The operations of `f64` are a
-- parameter. The times are left out but for that of an opportunity.
pub mod Windows
pub mod Detection
use w16crypto_engine.Common.Windows.{latest}
use w16crypto_engine.Common.Floats.{Floats, zero_float, mean, sum_floats, square}
use w16crypto_engine.Base.{
  ◌==◌, ltb, leb, if◌then◌else◌, take, drop, length, ℤ, ℕ, zero, suc, ◌+◌, ◌-◌, min, Bool, true,
  false, not, ◌&&◌, ◌||◌, Option, none, some, List, [], ◌∷◌, ◌++◌, map,
}

abbrev pub lookback_window : ℕ
lookback_window = 200

pub record MarketPair (F : Type 0) : Type 0 where
  pub market_a : ℕ
  pub market_b : ℕ
  pub prices_a : List ℕ
  pub prices_b : List ℕ
  pub spreads : List F
  pub correlation : F
  pub hedge_ratio : F
  pub spread_mean : F
  pub spread_std : F

-- `push_back`, and `pop_front` if the window is exceeded.
unfoldable pub push_bounded : {A : Type 0} → List A → A → List A
push_bounded xs x =
    if ltb lookback_window (length (xs ++ x ∷ [])) then drop 1 (xs ++ x ∷ []) else xs ++ x ∷ []

-- `while len() > LOOKBACK_WINDOW { pop_front() }`
unfoldable pub trim_front : {A : Type 0} → List A → List A
trim_front xs = drop (length xs - lookback_window) xs

abbrev pub smaller : ℕ → ℕ → ℕ
smaller a b = if ltb a b then a else b

abbrev pub larger : ℕ → ℕ → ℕ
larger a b = if ltb a b then b else a

unfoldable pub find_pair : {F : Type 0} → ℕ → ℕ → List (MarketPair F) → Option (MarketPair F)
find_pair a b [] = none
find_pair a b (p ∷ ps) = if (p.market_a == a) && (p.market_b == b) then some p else find_pair a b ps

module _ (f : Floats) where
  open f use {Float, literal, of_nat, add, sub, mul, div, abs, sqrt, clamp, is_below, is_equal, neg}

  abbrev pub new_pair : ℕ → ℕ → MarketPair Float
  new_pair a b = record {
    market_a = a;
    market_b = b;
    prices_a = [];
    prices_b = [];
    spreads = [];
    correlation = zero_float f;
    hedge_ratio = literal 1 1;
    spread_mean = zero_float f;
    spread_std = zero_float f;
  }

  abbrev pub or_insert :
      Option (MarketPair Float) → ℕ → ℕ → List (MarketPair Float) → List (MarketPair Float)
  or_insert none a b ps = ps ++ new_pair a b ∷ []
  or_insert (some p) a b ps = ps

  -- `register_pair`: the key has the smaller identifier first.
  unfoldable pub register_pair : ℕ → ℕ → List (MarketPair Float) → List (MarketPair Float)
  register_pair a b ps =
      or_insert (find_pair (smaller a b) (larger a b) ps) (smaller a b) (larger a b) ps

  unfoldable pub calculate_std : List Float → Float → Float
  calculate_std xs m =
      if ltb (length xs) 2
      then zero_float f
      else sqrt (
          div (sum_floats f (map (λ x. square f (sub x m)) xs) (zero_float f)) (of_nat (length xs)))

  unfoldable pub covariance_sum : Float → Float → List Float → List Float → Float → Float
  covariance_sum ma mb [] ys acc = acc
  covariance_sum ma mb (x ∷ xs) [] acc = acc
  covariance_sum ma mb (x ∷ xs) (y ∷ ys) acc =
      covariance_sum ma mb xs ys (add acc (mul (sub x ma) (sub y mb)))

  -- The hedge ratio, if the correlation is strong enough.
  abbrev pub hedged : Float → Float → Float → Float → Float
  hedged ma mb correlation old =
      if is_below (literal 5 10) (abs correlation)
      then clamp
          (if is_below (zero_float f) (abs mb) then mul (div ma mb) correlation else literal 1 1)
          (literal 1 10) (literal 10 1)
      else old

  abbrev pub correlated : List Float → List Float → MarketPair Float → MarketPair Float
  correlated xs ys p =
      let ma = mean f xs in
      let mb = mean f ys in
      let sa = calculate_std xs ma in
      let sb = calculate_std ys mb in
      let covariance = div (covariance_sum ma mb xs ys (zero_float f)) (of_nat (length xs)) in
      let correlation = clamp (div covariance (mul sa sb)) (neg (literal 1 1)) (literal 1 1) in
      if is_below (zero_float f) sa && is_below (zero_float f) sb
      then record p {
        correlation = correlation;
        hedge_ratio = hedged ma mb correlation p.hedge_ratio;
      }
      else p

  unfoldable pub spreads_of : Float → List ℕ → List ℕ → List Float
  spreads_of h [] ys = []
  spreads_of h (a ∷ xs) [] = []
  spreads_of h (a ∷ xs) (b ∷ ys) = sub (of_nat a) (mul h (of_nat b)) ∷ spreads_of h xs ys

  abbrev pub with_spreads : List Float → MarketPair Float → MarketPair Float
  with_spreads xs p =
      if leb 50 (length xs)
      then record p {
        spreads = xs;
        spread_mean = mean f xs;
        spread_std = calculate_std xs (mean f xs);
      }
      else record p { spreads = xs }

  -- The spreads of the latest 50 prices are added, from the latest to the oldest of them.
  abbrev pub spread : MarketPair Float → MarketPair Float
  spread p =
      let xs = latest 50 p.prices_a in
      let ys = latest 50 p.prices_b in
      if length xs == length ys
      then with_spreads (trim_front (p.spreads ++ spreads_of p.hedge_ratio xs ys)) p
      else p

  unfoldable pub update_pair_stats : MarketPair Float → MarketPair Float
  update_pair_stats p =
      let n = min (length p.prices_a) (length p.prices_b) in
      if ltb n 20
      then p
      else spread
          (correlated (map of_nat (latest n p.prices_a)) (map of_nat (latest n p.prices_b)) p)

  abbrev pub with_price : ℕ → ℕ → MarketPair Float → MarketPair Float
  with_price market price p = record p {
    prices_a = if p.market_a == market then push_bounded p.prices_a price else p.prices_a;
    prices_b = if p.market_b == market then push_bounded p.prices_b price else p.prices_b;
  }

  abbrev pub refresh : MarketPair Float → MarketPair Float
  refresh p =
      if leb lookback_window (length p.prices_a) && leb lookback_window (length p.prices_b)
      then update_pair_stats p
      else p

  -- `on_price_update`, and `on_fill` with the fill's market and price.
  unfoldable pub on_price_update : ℕ → ℕ → List (MarketPair Float) → List (MarketPair Float)
  on_price_update market price [] = []
  on_price_update market price (p ∷ ps) =
      refresh (with_price market price p) ∷ on_price_update market price ps
