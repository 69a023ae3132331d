-- ===== src/Exposure/Fills.antt =====
-- analytics/src/risk.rs: what a fill and the end of a day do to the states of the users. A price of
-- a fill, which the source hands to a sum of decimals, is the decimal of its number.
use w16crypto_engine.Base.{
  ◌==◌, if◌then◌else◌, length, sum_by, u64_bound, Table, lookup, insert, ℕ, ◌%◌, max, Bool, true,
  false, not, ◌&&◌, Option, none, some, List, [], ◌∷◌, ◌++◌,
}
use w16crypto_engine.Exposure.{
  UserRiskState, RiskManager, RiskLimits, Side, Fill, Decimals, is_buy, zero_usd, is_above,
  drawdown_of, negated,
}

-- The fills of one market and side: the sum of their prices, their number and their quantity.
pub record Group : Type 0 where
  pub market_id : ℕ
  pub side : Side
  pub prices : List ℕ
  pub quantities : List ℕ

abbrev pub is_same_side : Side → Side → Bool
is_same_side Side.buy s = is_buy s
is_same_side Side.sell s = not (is_buy s)

abbrev pub new_group : Fill → Group
new_group f = record {
  market_id = f.market_id;
  side = f.aggressor;
  prices = f.price ∷ [];
  quantities = f.quantity ∷ [];
}

-- `position_map.entry(key).or_insert_with(Vec::new).push(…)`
unfoldable pub add_to_group : Fill → List Group → List Group
add_to_group f [] = new_group f ∷ []
add_to_group f (g ∷ gs) =
    if (g.market_id == f.market_id) && is_same_side g.side f.aggressor
    then record g {
      prices = g.prices ++ f.price ∷ [];
      quantities = g.quantities ++ f.quantity ∷ [];
    }
      ∷ gs
    else g ∷ add_to_group f gs

unfoldable pub group_fills : List Fill → List Group → List Group
group_fills [] gs = gs
group_fills (f ∷ fs) gs = group_fills fs (add_to_group f gs)

module _ (d : Decimals) where
  open d use {Decimal, decimal_of, add, sub, mul, div, is_le}

  -- `update_pnl`: the profit of a group at the current price, and of all groups. The order in which
  -- the groups are added up is the map's own in the source.
  unfoldable pub sum_prices : List ℕ → Decimal
  sum_prices [] = zero_usd d
  sum_prices (p ∷ ps) = add (decimal_of p) (sum_prices ps)

  unfoldable pub group_pnl : Decimal → Group → Decimal
  group_pnl price g =
      let average = div (sum_prices g.prices) (decimal_of (max (length g.prices) 1)) in
      let quantity = decimal_of (sum_by (λ q. q) g.quantities % u64_bound) in
      if is_buy g.side then mul (sub price average) quantity else mul (sub average price) quantity

  unfoldable pub groups_pnl : Decimal → List Group → Decimal → Decimal
  groups_pnl price [] pnl = pnl
  groups_pnl price (g ∷ gs) pnl = groups_pnl price gs (add pnl (group_pnl price g))

  abbrev pub with_balance : Decimal → Decimal → UserRiskState Decimal → UserRiskState Decimal
  with_balance pnl balance s = record s {
    daily_pnl_usd = pnl;
    current_balance_usd = balance;
    peak_balance_usd =
        if is_above d balance s.peak_balance_usd then balance else s.peak_balance_usd;
  }

  abbrev pub with_drawdown : UserRiskState Decimal → UserRiskState Decimal
  with_drawdown s = record s { max_drawdown_pct = drawdown_of d s.max_drawdown_pct s }

  unfoldable pub update_pnl : Decimal → UserRiskState Decimal → UserRiskState Decimal
  update_pnl price s =
      let pnl = groups_pnl price (group_fills s.fills_today []) (zero_usd d) in
      with_drawdown (with_balance pnl (add s.current_balance_usd pnl) s)

  abbrev pub new_state : UserRiskState Decimal
  new_state = record {
    daily_pnl_usd = zero_usd d;
    total_exposure_usd = zero_usd d;
    max_drawdown_pct = zero_usd d;
    positions = [];
    fills_today = [];
    peak_balance_usd = zero_usd d;
    current_balance_usd = zero_usd d;
  }

  abbrev pub state_or_new : Option (UserRiskState Decimal) → UserRiskState Decimal
  state_or_new none = new_state
  state_or_new (some s) = s

  abbrev pub with_fill : Fill → Decimal → UserRiskState Decimal → UserRiskState Decimal
  with_fill f value s = record s {
    total_exposure_usd =
        if is_buy f.aggressor
        then add s.total_exposure_usd value
        else sub s.total_exposure_usd value;
    fills_today = s.fills_today ++ f ∷ [];
  }

  -- `state.daily_pnl_usd <= -self.limits.max_daily_loss_usd`
  unfoldable pub trips : RiskLimits Decimal → UserRiskState Decimal → Bool
  trips l s = is_le s.daily_pnl_usd (negated d l.max_daily_loss_usd)

  unfoldable pub update_on_fill : ℕ → Fill → Decimal → RiskManager Decimal → RiskManager Decimal
  update_on_fill user f price r =
      let filled =
        with_fill f (mul (decimal_of f.quantity) price)
          (state_or_new (lookup user r.user_states)) in
      let s = update_pnl price filled in
      record r {
        user_states = insert user s r.user_states;
        circuit_breaker = if trips r.limits s then true else r.circuit_breaker;
      }

  -- `reset_daily_stats`
  unfoldable pub reset_states : Table (UserRiskState Decimal) → Table (UserRiskState Decimal)
  reset_states [] = []
  reset_states (e ∷ t) =
      (
        e.0,
        record e.1 {
          daily_pnl_usd = zero_usd d;
          fills_today = [];
          peak_balance_usd = e.1.current_balance_usd;
        },
      )
      ∷ reset_states t

  unfoldable pub reset_daily_stats : RiskManager Decimal → RiskManager Decimal
  reset_daily_stats r = record r {
    user_states = reset_states r.user_states;
    circuit_breaker = false;
  }
