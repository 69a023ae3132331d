-- ===== src/Tests/Fixture.antt =====
-- Two traders with an open market, an order each and opposite positions in it.
use w16crypto_engine.Common.Types.{Side, Market, MarketStatus, Order, OrderKind, OrderStatus}
use w16crypto_engine.Db.State.{PositionChange, BalanceRow, UserRow, Db}
use w16crypto_engine.Positions.{EngineFillEvent}
use w16crypto_engine.Base.{ℤ, pos, negsuc, ℕ, false, none, some, [], ◌∷◌}

abbrev pub alice : UserRow
alice = record { email = "alice@example.com"; password_hash = "x"; is_admin = false }

abbrev pub funded : BalanceRow
funded = record { available = pos 1000; reserved = pos 500; version = 0 }

abbrev pub rain : Market
rain = record {
  title = "Rain";
  description = "Will it rain?";
  status = MarketStatus.«open»;
  created_at = 0;
  resolves_at = none;
  settled_at = none;
  outcome = none;
}

abbrev pub order_of : ℕ → ℕ → Side → Order
order_of id u side = record {
  id = id;
  market_id = 7;
  user_id = u;
  side = side;
  kind = OrderKind.limit;
  price = some 5000;
  quantity = 100;
  filled_quantity = 0;
  status = OrderStatus.«open»;
  sequence = 1;
  created_at = 0;
  updated_at = 0;
}

abbrev pub change_of : ℕ → ℤ → PositionChange
change_of u delta = record { fill_id = 20; user_id = u; market_id = 7; delta = delta }

abbrev pub bank : Db
bank = record {
  users = (1, alice) ∷ (2, alice) ∷ [];
  balances = (1, funded) ∷ (2, funded) ∷ [];
  markets = (7, rain) ∷ [];
  orders = (11, order_of 11 1 Side.buy) ∷ (12, order_of 12 2 Side.sell) ∷ [];
  fills = [];
  position_changes = change_of 1 (pos 100) ∷ change_of 2 (negsuc 99) ∷ [];
  audit_log = [];
  deposits = [];
  withdrawals = [];
  withdrawal_holds = [];
  idempotency_keys = [];
  engine_sequences = [];
}

-- The orders 11 and 12 trade 40 at a price of 5000.
abbrev pub trade : EngineFillEvent
trade = record {
  fill_id = 21;
  market_id = 7;
  maker_order_id = 12;
  taker_order_id = 11;
  maker_user_id = 2;
  taker_user_id = 1;
  price = 5000;
  quantity = 40;
  aggressor_side = "buy";
  sequence = 3;
  timestamp_ns = 0;
}
