-- ===== src/Db/Orders.antt =====
-- api/crates/db/src/orders.rs over the table `orders` of api/migrations/0001_initial.sql. A row's
-- BIGINT columns hold the order's `u64` fields cast to `i64` and are cast back when it is read, so
-- the row is kept as the order itself (`i64_as_u64-u64_as_i64`).
pub mod Placement
use w16crypto_engine.Common.Error.{err, ok, AppError, Fault}
use w16crypto_engine.Db.Balances.{get_balance, update_balance, covers, reserve_row, insufficient}
use w16crypto_engine.Db.State.{
  Db, Call, ◌>>=◌, transaction, or_fail, gets, ◌>>◌, rollback, fail, pure,
}
use w16crypto_engine.Common.Types.{OrderKind, OrderStatus, Order, Market, MarketStatus}
use w16crypto_engine.Base.{
  ℕ, ltb, ◌==◌, if◌then◌else◌, ℤ, pos, ltb_ℤ, leb_ℤ, u64_as_i64, lookup, contains, insert, Bool,
  true, false, not, ◌&&◌, Option, none, some,
}

abbrev pub price_check : Option ℕ → Bool
price_check none = true
price_check (some p) = ltb 0 p && ltb p 10000

abbrev pub limit_has_price : OrderKind → Option ℕ → Bool
limit_has_price OrderKind.limit none = false
limit_has_price _ _ = true

-- `filled_quantity >= 0` and `filled_quantity <= quantity`
abbrev pub filled_check : ℕ → ℕ → Bool
filled_check filled quantity =
    leb_ℤ (pos 0) (u64_as_i64 filled) && leb_ℤ (u64_as_i64 filled) (u64_as_i64 quantity)

-- The CHECKs of the table.
unfoldable pub order_check : Order → Bool
order_check o =
    price_check o.price
    && ltb_ℤ (pos 0) (u64_as_i64 o.quantity)
    && filled_check o.filled_quantity o.quantity
    && limit_has_price o.kind o.price

unfoldable pub insert_order : Order → Call Unit
insert_order o db =
    if not (order_check o)
    then (err (AppError.database Fault.check_violation), db)
    else if contains o.id db.orders
    then (err (AppError.database Fault.unique_violation), db)
    else if not (contains o.market_id db.markets && contains o.user_id db.users)
    then (err (AppError.database Fault.foreign_key), db)
    else (ok tt, record db { orders = insert o.id o db.orders })

unfoldable pub get_order : ℕ → Call Order
get_order id db = or_fail (lookup id db.orders) (AppError.order_not_found id) db

abbrev pub filled_order : OrderStatus → ℕ → ℕ → Order → Order
filled_order s filled now o = record o { status = s; filled_quantity = filled; updated_at = now }

-- UPDATE orders SET status, filled_quantity WHERE id: no row is no error.
unfoldable pub update_order_fill : ℕ → OrderStatus → ℕ → ℕ → Call Unit
update_order_fill id s filled now db = elim (lookup id db.orders) [
  | none ↦ (ok tt, db)
  | some o ↦
      if filled_check filled o.quantity
      then (ok tt, record db { orders = insert id (filled_order s filled now o) db.orders })
      else (err (AppError.database Fault.check_violation), db)
]

-- status IN ('open', 'partial')
abbrev pub is_working : OrderStatus → Bool
is_working OrderStatus.«open» = true
is_working OrderStatus.partial = true
is_working _ = false

abbrev pub cancelled_order : ℕ → Order → Order
cancelled_order now o = record o { status = OrderStatus.cancelled; updated_at = now }

unfoldable pub cancel_order : ℕ → ℕ → ℕ → Call Order
cancel_order id u now db = elim (lookup id db.orders) [
  | none ↦ (err (AppError.order_not_found id), db)
  | some o ↦
      if o.user_id == u && is_working o.status
      then (
        ok (cancelled_order now o),
        record db { orders = insert id (cancelled_order now o) db.orders },
      )
      else (err (AppError.order_not_found id), db)
]

-- The status of the market decides before any money moves.
abbrev pub check_market : Db → Option Market → ℕ → Call Unit
check_market before none m = do rollback before; fail (AppError.market_not_found m)
check_market before (some k) m = elim k.status [
  | MarketStatus.«open» ↦ pure tt
  | _ ↦ (do rollback before; fail AppError.market_not_open)
]

unfoldable pub place_order_body : Order → ℤ → Db → Call Unit
unfolding insert_order get_balance
place_order_body o cost before = do
  market ← gets (λ db. lookup o.market_id db.markets)
  check_market before market o.market_id
  affected ← update_balance o.user_id (covers cost) (reserve_row cost)
  if affected == 0 then (do rollback before; insufficient o.user_id cost) else insert_order o

unfoldable pub place_order_atomic : Order → ℤ → Call Unit
unfolding place_order_body
place_order_atomic o cost = transaction (place_order_body o cost)
