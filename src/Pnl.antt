-- ===== src/Pnl.antt =====
-- api/crates/analytics/src/pnl.rs: `PnLTracker`. A call answers, or it waits for a lock for ever.
-- A lock that a waiting call holds stays held. The times are left out, but for the day.
pub mod Waiting
pub mod Closing
pub mod Daily
use w16crypto_engine.Common.Types.{Fill, Side, is_buy}
use w16crypto_engine.Common.Price.{Decimals, micro}
use w16crypto_engine.Base.{
  ◌==◌, Table, lookup, insert, ℕ, ◌-◌, min, ltb, Bool, true, false, Option, none, some, List, [],
  ◌∷◌, ◌++◌, if◌then◌else◌, ◌||◌, not, map,
}

pub record PositionPnl (D : Type 0) : Type 0 where
  pub side : Side
  pub entry_price : D
  pub current_price : D
  pub quantity : ℕ
  pub realized_pnl : D
  pub unrealized_pnl : D

pub record DailyPerformance (D : Type 0) : Type 0 where
  pub date : ℕ
  pub starting_balance : D
  pub ending_balance : D
  pub total_pnl : D
  pub return_pct : D
  pub num_trades : ℕ
  pub win_rate : D
  pub avg_win : D
  pub avg_loss : D
  pub max_drawdown_pct : D
  pub sharpe_ratio : D

pub record PnlRecord (D : Type 0) : Type 0 where
  pub market_id : ℕ
  pub realized_pnl_usd : D
  pub unrealized_pnl_usd : D
  pub total_pnl_usd : D
  pub volume_traded : D
  pub num_trades : ℕ
  pub avg_trade_size : D
  pub sharpe_ratio : Option D

-- The records by day, the positions by user and market, the balances and the days' performance, and
-- whether a call holds the locks of the positions and of the records.
pub record PnlTracker (D : Type 0) : Type 0 where
  pub daily_records : Table (List (PnlRecord D))
  pub positions : Table (Table (List (PositionPnl D)))
  pub user_balances : Table D
  pub historical_performance : Table (List (DailyPerformance D))
  pub are_positions_held : Bool
  pub are_records_held : Bool

pub data Answer (A : Type 0) : Type 0 where
  answered : A → Answer A
  waiting : Answer A

-- `PnLTracker::new`
unfoldable pub new_tracker : {D : Type 0} → PnlTracker D
new_tracker = record {
  daily_records = [];
  positions = [];
  user_balances = [];
  historical_performance = [];
  are_positions_held = false;
  are_records_held = false;
}

abbrev pub or_empty : {A : Type 0} → Option (List A) → List A
or_empty none = []
or_empty (some xs) = xs

-- A user's positions in a market.
abbrev pub positions_of :
    {D : Type 0} → ℕ → ℕ → Table (Table (List (PositionPnl D))) → List (PositionPnl D)
positions_of user market t = or_empty (lookup market (or_empty (lookup user t)))

abbrev pub put_positions :
    {D : Type 0}
    → ℕ
    → ℕ
    → List (PositionPnl D)
    → Table (Table (List (PositionPnl D)))
    → Table (Table (List (PositionPnl D)))
put_positions user market ps t = insert user (insert market ps (or_empty (lookup user t))) t

-- What `retain_mut` leaves: the positions kept, the quantity still to close, the profit so far.
pub record Closed (D : Type 0) : Type 0 where
  pub kept : List (PositionPnl D)
  pub remaining : ℕ
  pub realized : D

module _ (d : Decimals) where
  open d use {Decimal, decimal_of, add, sub, mul, div}

  -- `Decimal::from(fill.price.0) / dec!(1_000_000)`
  abbrev pub fill_price : Fill → Decimal
  fill_price f = div (decimal_of f.price) (decimal_of micro)

  abbrev pub opened : Fill → Decimal → PositionPnl Decimal
  opened f price = record {
    side = Side.buy;
    entry_price = fill_price f;
    current_price = price;
    quantity = f.quantity;
    realized_pnl = decimal_of 0;
    unrealized_pnl = mul (sub price (fill_price f)) (decimal_of f.quantity);
  }

  abbrev pub keep_one : PositionPnl Decimal → Closed Decimal → Closed Decimal
  keep_one p c = record c { kept = p ∷ c.kept }

  abbrev pub less : ℕ → PositionPnl Decimal → PositionPnl Decimal
  less n p = record p { quantity = p.quantity - n }

  abbrev pub profit : Decimal → ℕ → PositionPnl Decimal → Decimal
  profit price n p = mul (sub price p.entry_price) (decimal_of n)

  -- The sale of `remaining` at a price, from the oldest position on.
  unfoldable pub close_positions :
      Decimal → ℕ → Decimal → List (PositionPnl Decimal) → Closed Decimal
  close_positions price remaining realized [] = record {
    kept = [];
    remaining = remaining;
    realized = realized;
  }
  close_positions price remaining realized (p ∷ ps) =
      let n = min remaining p.quantity in
      let untouched = close_positions price remaining realized ps in
      let rest = close_positions price (remaining - n) (add realized (profit price n p)) ps in
      if (remaining == 0) || not (is_buy p.side)
      then keep_one p untouched
      else if ltb n p.quantity
      then keep_one (less n p) rest
      else rest

  abbrev pub balance_or_zero : Option Decimal → Decimal
  balance_or_zero none = decimal_of 0
  balance_or_zero (some b) = b

  -- `update_balance`
  unfoldable pub update_balance : ℕ → Decimal → Table Decimal → Table Decimal
  update_balance user pnl t = insert user (add (balance_or_zero (lookup user t)) pnl) t

  -- What `record_fill` does to the positions and the balances.
  unfoldable pub apply_to_positions :
      ℕ → ℕ → Fill → Decimal → PnlTracker Decimal → PnlTracker Decimal
  apply_to_positions user market f price t =
      let ps = positions_of user market t.positions in
      let c = close_positions (fill_price f) f.quantity (decimal_of 0) ps in
      if is_buy f.aggressor
      then record t {
        positions = put_positions user market (ps ++ opened f price ∷ []) t.positions;
      }
      else record t {
        positions = put_positions user market c.kept t.positions;
        user_balances = update_balance user c.realized t.user_balances;
      }

  -- `update_prices`
  abbrev pub reprice : Decimal → PositionPnl Decimal → PositionPnl Decimal
  reprice price p = record p {
    current_price = price;
    unrealized_pnl =
        if is_buy p.side
        then mul (sub price p.entry_price) (decimal_of p.quantity)
        else mul (sub p.entry_price price) (decimal_of p.quantity);
  }

  unfoldable pub reprice_user :
      ℕ → Decimal → Table (List (PositionPnl Decimal)) → Table (List (PositionPnl Decimal))
  reprice_user market price [] = []
  reprice_user market price (e ∷ t) =
      (e.0, (if e.0 == market then map (reprice price) e.1 else e.1)) ∷ reprice_user market price t

  unfoldable pub update_prices : ℕ → Decimal → PnlTracker Decimal → Answer Unit × PnlTracker Decimal
  update_prices market price t = if t.are_positions_held then (Answer.waiting, t) else (
    Answer.answered tt,
    record t { positions = map (λ e. (e.0, reprice_user market price e.1)) t.positions },
  )

  -- The sums over a list of positions, `realized` and `unrealized`.
  unfoldable pub sum_pnl : (PositionPnl Decimal → Decimal) → List (PositionPnl Decimal) → Decimal
  sum_pnl part [] = decimal_of 0
  sum_pnl part (p ∷ ps) = add (part p) (sum_pnl part ps)

  abbrev pub pnl_of : List (PositionPnl Decimal) → Decimal × Decimal
  pnl_of ps = (sum_pnl (λ p. p.realized_pnl) ps, sum_pnl (λ p. p.unrealized_pnl) ps)

  unfoldable pub all_positions : {V : Type 0} → Table (List V) → List V
  all_positions [] = []
  all_positions (e ∷ t) = e.1 ++ all_positions t

  unfoldable pub get_user_pnl :
      ℕ → PnlTracker Decimal → Answer (Decimal × Decimal) × PnlTracker Decimal
  get_user_pnl user t =
      if t.are_positions_held
      then (Answer.waiting, t)
      else (Answer.answered (pnl_of (all_positions (or_empty (lookup user t.positions)))), t)

  unfoldable pub get_market_pnl :
      ℕ → ℕ → PnlTracker Decimal → Answer (Decimal × Decimal) × PnlTracker Decimal
  get_market_pnl user market t =
      if t.are_positions_held
      then (Answer.waiting, t)
      else (Answer.answered (pnl_of (positions_of user market t.positions)), t)

  abbrev pub pnl_record : ℕ → Decimal × Decimal → PnlRecord Decimal
  pnl_record market (realized, unrealized) = record {
    market_id = market;
    realized_pnl_usd = realized;
    unrealized_pnl_usd = unrealized;
    total_pnl_usd = add realized unrealized;
    volume_traded = decimal_of 0;
    num_trades = 1;
    avg_trade_size = decimal_of 0;
    sharpe_ratio = none;
  }

  -- `update_daily_record` after `get_market_pnl`.
  abbrev pub push_record :
      ℕ → ℕ → Answer (Decimal × Decimal) × PnlTracker Decimal → Answer Unit × PnlTracker Decimal
  push_record today market (Answer.waiting, t) = (Answer.waiting, t)
  push_record today market (Answer.answered pnl, t) =
      if t.are_records_held then (Answer.waiting, t) else (
        Answer.answered tt,
        record t {
          daily_records =
              insert today (or_empty (lookup today t.daily_records) ++ pnl_record market pnl ∷ [])
                t.daily_records;
        },
      )

  unfoldable pub update_daily_record :
      ℕ → ℕ → ℕ → PnlTracker Decimal → Answer Unit × PnlTracker Decimal
  unfolding get_market_pnl
  update_daily_record today user market t = push_record today market (get_market_pnl user market t)

  -- The lock of the positions is given back when the call that holds it answers.
  abbrev pub release_positions : Answer Unit × PnlTracker Decimal → Answer Unit × PnlTracker Decimal
  release_positions (Answer.waiting, t) = (Answer.waiting, t)
  release_positions (Answer.answered a, t) =
      (Answer.answered a, record t { are_positions_held = false })

  unfoldable pub record_fill :
      ℕ → ℕ → ℕ → Fill → Decimal → PnlTracker Decimal → Answer Unit × PnlTracker Decimal
  unfolding update_daily_record
  record_fill today user market f price t =
      if t.are_positions_held
      then (Answer.waiting, t)
      else release_positions (
          update_daily_record today user market
            (record (apply_to_positions user market f price t) { are_positions_held = true }))

  unfoldable pub get_daily_summary :
      ℕ → PnlTracker Decimal → Answer (Option (List (PnlRecord Decimal)))
  get_daily_summary today t =
      if t.are_records_held then Answer.waiting else Answer.answered (lookup today t.daily_records)
