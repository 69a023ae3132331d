-- ===== src/Monitor.antt =====
-- api/crates/analytics/src/position_monitor.rs: `PositionMonitor`, the open positions and the alerts
-- about them. The map's key of a user and a market is a table of the user's markets; the floats of a
-- ratio are parameters. A time is in seconds.
pub mod Net
use w16crypto_engine.Common.Error.{Message, Part}
use w16crypto_engine.Base.{
  ◌==◌, ltb, if◌then◌else◌, ℤ, pos, wrap_i64, neg_i64, u64_as_i64, ◌+ℤ◌, ◌-ℤ◌, ◌*ℤ◌, ltb_ℤ, max_ℤ,
  is_zero_ℤ, pos_part, neg_part, Table, lookup, insert, sum_by, u64_bound, u32_bound, ℕ, ◌+◌, ◌-◌,
  ◌*◌, ◌/◌, ◌%◌, min, Bool, Option, none, some, List, [], ◌∷◌, ◌++◌, div_ℤ, total, not,
}

pub data AlertType : Type 0 where
  stop_loss take_profit max_drawdown position_expired unusual_size concentration_risk : AlertType

pub data AlertSeverity : Type 0 where
  info warning critical : AlertSeverity

-- An alert, without its text.
pub record PositionAlert : Type 0 where
  pub user_id : ℕ
  pub market_id : ℕ
  pub alert_type : AlertType
  pub severity : AlertSeverity
  pub position_size : ℤ
  pub unrealized_pnl : Option ℤ
  pub entry_price : Option ℕ
  pub current_price : Option ℕ
  pub timestamp : ℤ

pub record PositionData : Type 0 where
  pub net_quantity : ℤ
  pub entry_prices : List (ℕ × ℕ)
  pub last_fill_time : ℤ
  pub max_observed_value : ℤ
  pub current_value : ℤ

abbrev pub Monitored : Type 0
Monitored = Table (Table PositionData)

-- `HashMap::remove`
unfoldable pub forget : {V : Type 0} → ℕ → Table V → Table V
forget k [] = []
forget k (e ∷ t) = let rest = forget k t in if k == e.0 then rest else e ∷ rest

abbrev pub no_position : ℤ → PositionData
no_position now = record {
  net_quantity = pos 0;
  entry_prices = [];
  last_fill_time = now;
  max_observed_value = pos 0;
  current_value = pos 0;
}

abbrev pub or_no_position : ℤ → Option PositionData → PositionData
or_no_position now none = no_position now
or_no_position now (some p) = p

abbrev pub markets_of : ℕ → Monitored → Table PositionData
markets_of user t = elim (lookup user t) [ none ↦ [] | some ms ↦ ms ]

abbrev pub position_in : ℕ → ℕ → Monitored → Option PositionData
position_in user market t = lookup market (markets_of user t)

-- `side > 0` is a buy.
unfoldable pub position_delta : ℕ → ℤ → ℤ
position_delta quantity side =
    if ltb_ℤ (pos 0) side then u64_as_i64 quantity else neg_i64 (u64_as_i64 quantity)

abbrev pub total_quantity : List (ℕ × ℕ) → ℕ
total_quantity es = sum_by (λ e. e.1) es % u64_bound

-- `retain`: an entry goes once all of it is removed; one that is removed in part stays as it is.
unfoldable pub retain_entries : ℕ → List (ℕ × ℕ) → List (ℕ × ℕ)
retain_entries remaining [] = []
retain_entries remaining (e ∷ es) =
    let n = min e.1 remaining in
    let rest = retain_entries (remaining - n) es in
    if remaining == 0 then e ∷ rest else if ltb n e.1 then e ∷ rest else rest

abbrev pub entries_after : ℕ → ℕ → ℤ → List (ℕ × ℕ) → List (ℕ × ℕ)
entries_after price quantity delta es =
    if ltb_ℤ (pos 0) delta
    then es ++ (price, quantity) ∷ []
    else retain_entries (min quantity (total_quantity es)) es

abbrev pub updated : ℤ → ℕ → ℕ → ℤ → PositionData → PositionData
updated now price quantity side p =
    let net = wrap_i64 (p.net_quantity +ℤ position_delta quantity side) in
    let value = wrap_i64 (net *ℤ pos price) in
    record {
      net_quantity = net;
      entry_prices = entries_after price quantity (position_delta quantity side) p.entry_prices;
      last_fill_time = now;
      max_observed_value = max_ℤ p.max_observed_value value;
      current_value = value;
    }

-- A position of zero is removed.
abbrev pub put_position : ℕ → ℕ → PositionData → Monitored → Monitored
put_position user market p t =
    if is_zero_ℤ p.net_quantity
    then insert user (forget market (markets_of user t)) t
    else insert user (insert market p (markets_of user t)) t

unfoldable pub update_position : ℤ → ℕ → ℕ → ℕ → ℕ → ℤ → Monitored → Monitored
update_position now user market price quantity side t =
    put_position user market
      (updated now price quantity side (or_no_position now (position_in user market t))) t

-- `calculate_unrealized_pnl`
unfoldable pub average_entry : List (ℕ × ℕ) → ℕ
average_entry es =
    if total_quantity es == 0
    then 0
    else sum_by (λ e. e.0 * e.1) es % u64_bound / total_quantity es % u32_bound

abbrev pub unrealized : ℕ → PositionData → Option ℤ
unrealized price p = elim p.entry_prices [
  | [] ↦ none
  | e ∷ es ↦ some (wrap_i64 ((pos price -ℤ pos (average_entry (e ∷ es))) *ℤ p.net_quantity))
]

unfoldable pub calculate_unrealized_pnl : ℕ → ℕ → ℕ → Monitored → Option ℤ
calculate_unrealized_pnl user market price t = elim (position_in user market t) [
  | none ↦ none
  | some p ↦ unrealized price p
]

-- What the alerts use of `f64`: the quotient of two `i64`, an order, and the decimal n / m.
pub record Ratios : Type 1 where
  pub Float : Type 0
  pub ratio : ℤ → ℤ → Float
  pub is_above : Float → Float → Bool
  pub literal : ℕ → ℕ → Float

abbrev pub abs_size : ℤ → ℤ
abs_size a = if ltb_ℤ a (pos 0) then neg_i64 a else a

abbrev pub first_price : List (ℕ × ℕ) → Option ℕ
first_price [] = none
first_price (e ∷ es) = some e.0

module _ (f : Ratios) (now : ℤ) where
  open f use {ratio, is_above, literal}

  abbrev pub alert_of : ℕ → ℕ → AlertType → AlertSeverity → ℤ → PositionAlert
  alert_of user market kind severity size = record {
    user_id = user;
    market_id = market;
    alert_type = kind;
    severity = severity;
    position_size = size;
    unrealized_pnl = none;
    entry_price = none;
    current_price = none;
    timestamp = now;
  }

  -- `(now - pos.last_fill_time).num_hours() > MAX_POSITION_AGE_HOURS`
  unfoldable pub age_alerts : ℕ → ℕ → PositionData → List PositionAlert
  age_alerts user market p =
      if ltb_ℤ (pos 24) (div_ℤ (now -ℤ p.last_fill_time) 3600)
      then record (alert_of user market AlertType.position_expired AlertSeverity.warning
          p.net_quantity) { entry_price = first_price p.entry_prices }
        ∷ []
      else []

  unfoldable pub size_alerts : ℕ → ℕ → PositionData → List PositionAlert
  size_alerts user market p =
      if ltb_ℤ (pos 1000000000) (abs_size p.net_quantity)
      then alert_of user market AlertType.unusual_size AlertSeverity.warning p.net_quantity ∷ []
      else []

  abbrev pub drawdown_alert : ℕ → ℕ → AlertSeverity → PositionData → PositionAlert
  drawdown_alert user market severity p =
      record (alert_of user market AlertType.max_drawdown severity p.net_quantity) {
        unrealized_pnl = some (wrap_i64 (p.current_value -ℤ p.max_observed_value));
      }

  unfoldable pub drawdown_alerts : ℕ → ℕ → PositionData → List PositionAlert
  drawdown_alerts user market p =
      let drawdown =
        ratio (wrap_i64 (p.max_observed_value -ℤ p.current_value)) p.max_observed_value in
      if not (ltb_ℤ (pos 0) p.max_observed_value)
      then []
      else if is_above drawdown (literal 5 100)
      then drawdown_alert user market AlertSeverity.critical p ∷ []
      else if is_above drawdown (literal 3 100)
      then drawdown_alert user market AlertSeverity.warning p ∷ []
      else []

  unfoldable pub check_markets : ℕ → Table PositionData → List PositionAlert
  check_markets user [] = []
  check_markets user (e ∷ t) =
      age_alerts user e.0 e.1
      ++ size_alerts user e.0 e.1
      ++ drawdown_alerts user e.0 e.1
      ++ check_markets user t

  unfoldable pub check_all : Monitored → List PositionAlert
  check_all [] = []
  check_all (e ∷ t) = check_markets e.0 e.1 ++ check_all t

  -- `check_concentration`: the sum of the sizes, and the markets with more than half of it.
  unfoldable pub total_size : Table PositionData → ℤ
  total_size [] = pos 0
  total_size (e ∷ t) = wrap_i64 (abs_size e.1.net_quantity +ℤ total_size t)

  unfoldable pub concentrated : ℕ → ℤ → Table PositionData → List PositionAlert
  concentrated user total [] = []
  concentrated user total (e ∷ t) =
      let size = abs_size e.1.net_quantity in
      let rest = concentrated user total t in
      if is_above (ratio size total) (literal 5 10)
      then alert_of user e.0 AlertType.concentration_risk AlertSeverity.warning size ∷ rest
      else rest

  unfoldable pub check_concentration : ℕ → Monitored → List PositionAlert
  check_concentration user t =
      concentrated user (total_size (markets_of user t)) (markets_of user t)
