-- ===== src/Trading/Events.antt =====
-- api-http/src/trading_engine.rs: what the reader of market data hands to the analytics.
use w16crypto_engine.Common.Floats.{Floats}
use w16crypto_engine.Common.Types.{Side, OrderBook, Fill, PriceLevel}
use w16crypto_engine.Base.{ℕ, String, Option, none, some, List, map}

-- polymarket/src/types.rs: a level of the exchange's book.
pub record OrderBookLevel (F : Type 0) : Type 0 where
  pub price : F
  pub size : F

-- A trade, with the side and the taker's order that the reader looks at and the type lacks.
pub record Trade (F : Type 0) : Type 0 where
  pub id : String
  pub market_id : String
  pub price : F
  pub size : F
  pub side : Side
  pub taker_order_id : String

pub data MarketDataEvent (F : Type 0) : Type 0 where
  order_book : String → List (OrderBookLevel F) → List (OrderBookLevel F) → MarketDataEvent F
  trade : Trade F → MarketDataEvent F
  price_change : MarketDataEvent F

-- What reaches the analytics.
pub data Update : Type 0 where
  book_update : ℕ → OrderBook → Update
  fill_update : Fill → Update

abbrev pub with_some : {A B : Type 0} → Option A → (A → Option B) → Option B
with_some none f = none
with_some (some a) f = f a

module _ (f : Floats) (parse : String → Option ℕ) (now : ℕ) where
  open f use {Float, literal, mul, as_u32, as_u64}

  abbrev pub millionths : Float → Float
  millionths x = mul x (literal 1000000 1)

  unfoldable pub price_level : OrderBookLevel Float → PriceLevel
  price_level l = record {
    price = as_u32 (millionths l.price);
    quantity = as_u64 (millionths l.size);
    count = 1;
  }

  abbrev pub book_of : ℕ → List (OrderBookLevel Float) → List (OrderBookLevel Float) → OrderBook
  book_of market bids asks = record {
    market_id = market;
    bids = map price_level bids;
    asks = map price_level asks;
    sequence = 0;
  }

  -- The size of a trade is not scaled, as that of a level is.
  unfoldable pub fill_of_trade : ℕ → ℕ → ℕ → Trade Float → Fill
  fill_of_trade id market order t = record {
    id = id;
    market_id = market;
    maker_order_id = 0;
    taker_order_id = order;
    maker_user_id = 0;
    taker_user_id = 0;
    price = as_u32 (millionths t.price);
    quantity = as_u64 t.size;
    aggressor = t.side;
    sequence = 0;
    filled_at = now;
    transaction_id = none;
  }

  -- A received event; `none` is one that is skipped.
  unfoldable pub on_event : MarketDataEvent Float → Option Update
  unfolding price_level
  on_event (order_book market bids asks) =
      with_some (parse market) λ id. some (book_update id (book_of id bids asks))
  on_event (trade t) = with_some (parse t.id) λ id. with_some (parse t.market_id) λ market.
      with_some (parse t.taker_order_id)
        λ order. some (fill_update (fill_of_trade id market order t))
  on_event price_change = none
