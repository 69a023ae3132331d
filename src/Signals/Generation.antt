-- ===== src/Signals/Generation.antt =====
-- analytics/src/signals.rs: `create_signal`, the three checks and `generate`. The floats and the texts
-- of a UUID are parameters; a sum of integers wraps, as in a release build.
use w16crypto_engine.Common.Windows.{latest, reversed, is_nil}
use w16crypto_engine.Common.Types.{SignalType, is_buy, Signal}
use w16crypto_engine.Common.Floats.{Floats, is_over, zero_float, at_most_one, share_of}
use w16crypto_engine.Signals.{FillData, TradingSignalType, SignalStrength, MarketData}
use w16crypto_engine.Base.{
  ltb, ◌==◌, if◌then◌else◌, length, take, drop, keep, sum_by, pos, u64_bound, u32_bound, Table,
  lookup, ℕ, ◌+◌, ◌-◌, ◌%◌, min, String, Bool, not, ◌&&◌, ◌||◌, Option, none, some, List, [], ◌∷◌,
}

-- What a new signal draws: its identifier, the market of a text that is no UUID, and the time.
pub record Draw : Type 0 where
  pub id : ℕ
  pub fallback : ℕ
  pub now : ℕ

abbrev pub common_type : TradingSignalType → SignalType
common_type TradingSignalType.buy = SignalType.buy
common_type TradingSignalType.sell = SignalType.sell
common_type TradingSignalType.hold = SignalType.hold

abbrev pub trading_type : SignalType → TradingSignalType
trading_type SignalType.buy = TradingSignalType.buy
trading_type SignalType.sell = TradingSignalType.sell
trading_type SignalType.hold = TradingSignalType.hold
trading_type SignalType.close = TradingSignalType.hold

abbrev pub or_default {ℓ} : {A : Type ℓ} → Option A → A → A
or_default none d = d
or_default (some a) d = a

-- The volume of the fills of one side, as a `u64`.
unfoldable pub traded_volume : (FillData → Bool) → List FillData → ℕ
traded_volume p xs = sum_by (λ x. x.quantity) (keep p xs) % u64_bound

unfoldable pub buys : FillData → Bool
buys x = is_buy x.side

unfoldable pub sells : FillData → Bool
sells x = not (is_buy x.side)

unfoldable pub level_total : List (ℕ × ℕ) → ℕ
level_total xs = sum_by (λ l. l.1) xs % u64_bound

-- `saturating_add` of a `u32`
abbrev pub saturating_add : ℕ → ℕ → ℕ
saturating_add a b = min (a + b) (u32_bound - 1)

module _ (f : Floats) (show : ℕ → String) (parse : String → Option ℕ) where
  open f use {Float, literal, of_nat, add, sub, mul, div, abs, as_u32}

  -- The strength, the stop and the indicators are not read.
  unfoldable pub create_signal :
      Draw
      → String
      → TradingSignalType
      → SignalStrength
      → Float
      → Option ℕ
      → Option ℕ
      → List String
      → Signal Float
  create_signal d market kind strength confidence target stop indicators = record {
    id = d.id;
    market_id = or_default (parse market) d.fallback;
    signal_type = common_type kind;
    strength = confidence;
    confidence = confidence;
    expected_return = pos (or_default target 0);
    time_horizon = 3600;
    created_at = d.now;
    expires_at = d.now + 3600;
  }

  abbrev pub confidence_to_strength : Float → SignalStrength
  confidence_to_strength c =
      if is_over f c (literal 8 10)
      then SignalStrength.strong
      else if is_over f c (literal 5 10)
      then SignalStrength.moderate
      else SignalStrength.weak

  abbrev pub imbalance_signal : Draw → String → TradingSignalType → Float → Signal Float
  imbalance_signal d market kind share =
      let confidence = mul (sub share (literal 5 10)) (literal 2 1) in
      create_signal d market kind (confidence_to_strength confidence) confidence none none
        ("order_flow_imbalance" ∷ [])

  -- `check_order_flow_imbalance` for the volumes of the two sides.
  unfoldable pub check_volumes : Draw → ℕ → ℕ → String → Option (Signal Float)
  check_volumes d bought sold market =
      let total = (bought + sold) % u64_bound in
      if total == 0
      then none
      else if is_over f (share_of f bought total) (literal 6 10)
      then some (imbalance_signal d market TradingSignalType.buy (share_of f bought total))
      else if is_over f (share_of f sold total) (literal 6 10)
      then some (imbalance_signal d market TradingSignalType.sell (share_of f sold total))
      else none

  unfoldable pub check_order_flow_imbalance : Draw → MarketData → String → Option (Signal Float)
  check_order_flow_imbalance d m market =
      let recent = latest 20 m.fills in
      if ltb (length recent) 10
      then none
      else check_volumes d (traded_volume buys recent) (traded_volume sells recent) market

  -- The average price of the fills, whose sum is a `u32`.
  unfoldable pub average_price : List FillData → Float
  average_price xs = div (of_nat (sum_by (λ x. x.price) xs % u32_bound)) (of_nat (length xs))

  abbrev pub momentum_type : Float → SignalType
  momentum_type change = if is_over f change (zero_float f) then SignalType.buy else SignalType.sell

  abbrev pub momentum_confidence : Float → Float
  momentum_confidence change =
      if is_over f change (zero_float f) then at_most_one f change else at_most_one f (abs change)

  abbrev pub momentum_signal : Draw → String → Float → Float → Signal Float
  momentum_signal d market average change =
      create_signal d market (trading_type (momentum_type change))
        (confidence_to_strength (momentum_confidence change)) (momentum_confidence change)
        (some (as_u32 (mul average (add (literal 1 1) change))))
        (some (as_u32 (mul average (sub (literal 1 1) change)))) ("price_momentum" ∷ [])

  -- `check_momentum` for the averages of the latest fills and of those before.
  unfoldable pub check_averages : Draw → Float → Float → String → Option (Signal Float)
  check_averages d recent older market =
      let change = div (sub recent older) older in
      if is_over f (abs change) (literal 2 100)
      then some (momentum_signal d market recent change)
      else none

  unfoldable pub check_momentum : Draw → MarketData → String → Option (Signal Float)
  check_momentum d m market =
      let recent = latest 10 m.fills in
      let older = take 10 (drop 10 (reversed m.fills [])) in
      if ltb (length m.fills) 20
      then none
      else if is_nil recent || is_nil older
      then none
      else check_averages d (average_price recent) (average_price older) market

  -- `check_support_resistance` for the best prices and the quantities of the two sides.
  unfoldable pub check_walls : Draw → ℕ → ℕ → ℕ → ℕ → String → Option (Signal Float)
  check_walls d bid ask bid_quantity ask_quantity market =
      let both = (bid_quantity + ask_quantity) % u64_bound in
      if (bid_quantity == 0) || (ask_quantity == 0)
      then none
      else if is_over f (share_of f bid_quantity both) (literal 65 100) && ltb (ask - bid) 10
      then some (
          create_signal d market TradingSignalType.buy SignalStrength.moderate
            (share_of f bid_quantity both) (some ask) (some (bid - 20)) ("support_wall" ∷ []))
      else if is_over f (share_of f ask_quantity both) (literal 65 100) && ltb (ask - bid) 10
      then some (
          create_signal d market TradingSignalType.sell SignalStrength.moderate
            (share_of f ask_quantity both) (some bid) (some (saturating_add ask 20))
            ("resistance_wall" ∷ []))
      else none

  abbrev pub check_levels : Draw → List (ℕ × ℕ) → List (ℕ × ℕ) → String → Option (Signal Float)
  check_levels d [] asks market = none
  check_levels d (b ∷ bids) [] market = none
  check_levels d (b ∷ bids) (a ∷ asks) market =
      check_walls d b.0 a.0 (level_total (b ∷ bids)) (level_total (a ∷ asks)) market

  unfoldable pub check_support_resistance : Draw → MarketData → String → Option (Signal Float)
  check_support_resistance d m market = check_levels d m.bids m.asks market

  -- `signals.push(..)` of a signal that is there.
  abbrev pub push_some : Option (Signal Float) → List (Signal Float) → List (Signal Float)
  push_some none xs = xs
  push_some (some s) xs = s ∷ xs

  -- Each check has its own draw.
  unfoldable pub signals_of : Draw → Draw → Draw → Option MarketData → String → List (Signal Float)
  signals_of a b c none market = []
  signals_of a b c (some m) market =
      push_some (check_order_flow_imbalance a m market)
        (push_some (check_momentum b m market) (push_some (check_support_resistance c m market) []))

  unfoldable pub generate : Draw → Draw → Draw → ℕ → Table MarketData → List (Signal Float)
  generate a b c market t = signals_of a b c (lookup market t) (show market)
