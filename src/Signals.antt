-- ===== src/Signals.antt =====
-- api/crates/analytics/src/signals.rs: `SignalGenerator`, which keeps the latest fills and the book of
-- each market. Its children generate the signals and prove what they say. `CommonSignalType`, which
-- the file never imports, is read as `common::types::SignalType`.
pub mod Generation
pub mod Direction
pub mod Market
use w16crypto_engine.Common.Windows.{push_window}
use w16crypto_engine.Common.Types.{OrderBook, Fill, PriceLevel, Side}
use w16crypto_engine.Base.{Table, lookup, insert, ℕ, Option, none, some, List, [], map}

abbrev pub window_size : ℕ
window_size = 100

pub data TradingSignalType : Type 0 where
  buy sell hold : TradingSignalType

pub data SignalStrength : Type 0 where
  strong moderate weak : SignalStrength

pub record FillData : Type 0 where
  pub price : ℕ
  pub quantity : ℕ
  pub side : Side
  pub timestamp : ℕ

-- A level of the book is its price and its quantity.
pub record MarketData : Type 0 where
  pub fills : List FillData
  pub bids : List (ℕ × ℕ)
  pub asks : List (ℕ × ℕ)
  pub last_update : ℕ

abbrev pub empty_market : ℕ → MarketData
empty_market now = record { fills = []; bids = []; asks = []; last_update = now }

-- `entry(..).or_insert_with(..)`
abbrev pub entry_or_new : ℕ → Option MarketData → MarketData
entry_or_new now none = empty_market now
entry_or_new now (some d) = d

abbrev pub fill_data : ℕ → Fill → FillData
fill_data now x = record {
  price = x.price;
  quantity = x.quantity;
  side = x.aggressor;
  timestamp = now;
}

abbrev pub with_fill_data : ℕ → Fill → MarketData → MarketData
with_fill_data now x d = record d {
  fills = push_window window_size d.fills (fill_data now x);
  last_update = now;
}

unfoldable pub on_fill : ℕ → Fill → Table MarketData → Table MarketData
on_fill now x t =
    insert x.market_id (with_fill_data now x (entry_or_new now (lookup x.market_id t))) t

abbrev pub level : PriceLevel → ℕ × ℕ
level p = (p.price, p.quantity)

abbrev pub with_book : ℕ → OrderBook → MarketData → MarketData
with_book now b d = record d { bids = map level b.bids; asks = map level b.asks; last_update = now }

unfoldable pub on_book_update : ℕ → ℕ → OrderBook → Table MarketData → Table MarketData
on_book_update now market b t =
    insert market (with_book now b (entry_or_new now (lookup market t))) t
