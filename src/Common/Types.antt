-- ===== src/Common/Types.antt =====
-- api/crates/common/src/types.rs: the enums and structs that the services exchange.
-- A UUID is its 128-bit number, a `DateTime<Utc>` a number of seconds, an integer field its value;
-- the newtypes `Price(u32)` and `Quantity(u64)` are the numbers that they hold.
use w16crypto_engine.Base.{ℕ, Bool, true, false, Option, List, String, ◌-◌, ℤ}

pub data Side : Type 0 where
  buy sell : Side

pub opposite : Side → Side
opposite Side.buy = Side.sell
opposite Side.sell = Side.buy

abbrev pub is_buy : Side → Bool
is_buy Side.buy = true
is_buy Side.sell = false

pub data OrderKind : Type 0 where
  limit market : OrderKind

pub data OrderStatus : Type 0 where
  «open» partial filled cancelled rejected : OrderStatus

pub data MarketStatus : Type 0 where
  «open» paused settled cancelled : MarketStatus

pub data Outcome : Type 0 where
  yes_outcome no_outcome : Outcome

pub record Market : Type 0 where
  pub title : String
  pub description : String
  pub status : MarketStatus
  pub created_at : ℕ
  pub resolves_at : Option ℕ
  pub settled_at : Option ℕ
  pub outcome : Option Outcome

pub record Order : Type 0 where
  pub id : ℕ
  pub market_id : ℕ
  pub user_id : ℕ
  pub side : Side
  pub kind : OrderKind
  pub price : Option ℕ
  pub quantity : ℕ
  pub filled_quantity : ℕ
  pub status : OrderStatus
  pub sequence : ℕ
  pub created_at : ℕ
  pub updated_at : ℕ

-- `u64::saturating_sub` stops at 0, as `-` on ℕ does.
unfoldable pub remaining : Order → ℕ
remaining o = o.quantity - o.filled_quantity

pub record Fill : Type 0 where
  pub id : ℕ
  pub market_id : ℕ
  pub maker_order_id : ℕ
  pub taker_order_id : ℕ
  pub maker_user_id : ℕ
  pub taker_user_id : ℕ
  pub price : ℕ
  pub quantity : ℕ
  pub aggressor : Side
  pub sequence : ℕ
  pub filled_at : ℕ
  pub transaction_id : Option String

pub record OrderRequest : Type 0 where
  pub market_id : ℕ
  pub side : Side
  pub kind : OrderKind
  pub price : Option ℕ
  pub quantity : ℕ

pub record PriceLevel : Type 0 where
  pub price : ℕ
  pub quantity : ℕ
  pub count : ℕ

pub record OrderBook : Type 0 where
  pub market_id : ℕ
  pub bids : List PriceLevel
  pub asks : List PriceLevel
  pub sequence : ℕ

pub data SignalType : Type 0 where
  buy sell hold close : SignalType

-- `strength` and `confidence` are floats; a time is a number of seconds.
pub record Signal (F : Type 0) : Type 0 where
  pub id : ℕ
  pub market_id : ℕ
  pub signal_type : SignalType
  pub strength : F
  pub confidence : F
  pub expected_return : ℤ
  pub time_horizon : ℕ
  pub created_at : ℕ
  pub expires_at : ℕ
