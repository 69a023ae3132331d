-- ===== src/Tests/Trading.antt =====
-- Orders, fills, markets and the checks of a request on the fixture.
use w16crypto_engine.Db.Balances.{get_balance, balance_fault}
use w16crypto_engine.Positions.Dedup.{process_again, retry_loses_fill}
use w16crypto_engine.Markets.Machine.{
  Transition, MarketStep-Transition, MarketReach-final, pause_step, reopen_step, market_next,
  market_here,
}
use w16crypto_engine.Positions.ZeroSum.{delivered, run_loop-market_net}
use w16crypto_engine.Common.Error.{err, ok, AppError, Fault}
use w16crypto_engine.Markets.{reopen, pause}
use w16crypto_engine.Tests.Fixture.{bank, rain, trade, order_of}
use w16crypto_engine.Db.Positions.Net.{market_net}
use w16crypto_engine.Db.Fills.{insert_fill_dedup, fill_fault, InsertFillOutcome}
use w16crypto_engine.Db.Orders.{place_order_atomic, place_order_body, insert_order, order_check}
use w16crypto_engine.Positions.Orders.{AreSound, IsSound, update_orders-moves, moved_if}
use w16crypto_engine.Risk.Limits.{InBands, signed_quantity, check_order_accepts}
use w16crypto_engine.Db.State.{Db}
use w16crypto_engine.Common.Types.{Order, OrderRequest, Market, Side, OrderKind, MarketStatus}
use w16crypto_engine.Db.Orders.Placement.{Placed, place_order_atomic-Placed}
use w16crypto_engine.Db.Positions.{get_position_for_user, net_position}
use w16crypto_engine.Risk.{
  new, check_order, check_price_bands, check_price, check_quantity_limit, check_position_limit,
  order_delta,
}
use w16crypto_engine.Positions.{
  Outage, fill_of, process, no_outage, run_loop, update_orders, aggressor, dlq_round,
}
use w16crypto_engine.Base.{
  pos, ◌+ℤ◌, ◌≤ℤ◌, ◌<ℤ◌, neg_ℤ, i64_bound, neg_i64, saturating_add_i64, lookup, ℕ, ◌≤◌, ◌<◌, ◌≡◌,
  refl, true, false, none, some, [], ◌∷◌, map, arith, ◌-ℤ◌, ◌==◌, ◌||◌,
}

abbrev bid : Order
bid = order_of 30 1 Side.buy

bid_placed : (place_order_atomic bid (pos 500) bank).0 ≡ ok tt
unfolding place_order_atomic place_order_body insert_order order_check get_balance balance_fault
    ◌-ℤ◌ ◌+ℤ◌
bid_placed = refl

place_order_atomic-Placed_example :
    Placed bid (pos 500) bank (place_order_atomic bid (pos 500) bank).1
place_order_atomic-Placed_example = place_order_atomic-Placed bid (pos 500) bank bid_placed

abbrev cut_off : Outage
cut_off = record { at_insert = false; at_balances = true; at_taker = false; at_maker = false }

trade_inserted : (insert_fill_dedup (fill_of trade 60) bank).0 ≡ ok InsertFillOutcome.inserted
unfolding insert_fill_dedup fill_fault fill_of aggressor
trade_inserted = refl

process_again_example :
    process no_outage trade 90 (process no_outage trade 60 bank).1
    ≡ (ok tt, (process no_outage trade 60 bank).1)
process_again_example = process_again no_outage no_outage trade 60 90 bank refl trade_inserted refl

abbrev lost : Db
lost = (process cut_off trade 60 bank).1

retry_loses_fill_example :
    ((process cut_off trade 60 bank).0 ≡ err (AppError.database Fault.disconnected))
    × (lost.balances ≡ bank.balances)
    × (lost.position_changes ≡ bank.position_changes)
    × (dlq_round no_outage (record { event = trade; retries = 0 }) 90 lost ≡ (none, lost))
retry_loses_fill_example =
    retry_loses_fill cut_off trade 60 90 0 bank refl refl trade_inserted (ground arith)

run_loop-market_net_example :
    market_net 7
      (run_loop
        (map delivered ((some trade, 60) ∷ (none, 61) ∷ (some trade, 62) ∷ []))
        bank).position_changes
    ≡ market_net 7 bank.position_changes
run_loop-market_net_example =
    run_loop-market_net 7 ((some trade, 60) ∷ (none, 61) ∷ (some trade, 62) ∷ []) bank

IsSound-order : (id u : ℕ) (s : Side) → IsSound (order_of id u s)
IsSound-order id u s = record { filled_le = ground arith; fits = ground arith }

bank-AreSound : AreSound bank.orders
unfolding AreSound
bank-AreSound = (IsSound-order 11 1 Side.buy, (IsSound-order 12 2 Side.sell, tt))

update_orders-moves_example :
    let after = (update_orders (fill_of trade 60) 60 bank).1.orders in
    (lookup 11 after
      ≡ moved_if ((11 == 12) || (11 == 11)) (fill_of trade 60) 60 (lookup 11 bank.orders))
    × AreSound after
unfolding fill_of
update_orders-moves_example = update_orders-moves (fill_of trade 60) 60 11 bank bank-AreSound refl

MarketStep-Transition_example :
    (m : Market) × (lookup 7 (pause 7 9 bank).1.markets ≡ some m)
    × Transition MarketStatus.«open» m.status
MarketStep-Transition_example = MarketStep-Transition 7 rain refl (pause_step 7 9)

abbrev called_off : Market
called_off = record rain { status = MarketStatus.cancelled }

abbrev closed_bank : Db
closed_bank = record bank { markets = (7, called_off) ∷ [] }

MarketReach-final_example :
    (m : Market) × (lookup 7 (reopen 7 9 closed_bank).1.markets ≡ some m)
    × (m.status ≡ MarketStatus.cancelled)
MarketReach-final_example =
    MarketReach-final 7 called_off refl refl (market_next market_here (reopen_step 7 9))

abbrev request : OrderRequest
request = record {
  market_id = 7;
  side = Side.sell;
  kind = OrderKind.limit;
  price = some 5000;
  quantity = 300;
}

request_accepted : (check_order new 1 request bank).0 ≡ ok tt
unfolding check_order check_price_bands check_price check_quantity_limit check_position_limit
    get_position_for_user net_position order_delta new neg_i64 neg_ℤ saturating_add_i64 ◌+ℤ◌
request_accepted = refl

abbrev quiet_bank : Db
quiet_bank = record bank { position_changes = [] }

below_i64 : new.max_position <ℤ pos 9223372036854775807
unfolding new
below_i64 = ground arith

low_enough : new.max_quantity < i64_bound
unfolding new
low_enough = ground arith

check_order_accepts_example :
    InBands new (some 5000)
    × (300 ≤ new.max_quantity)
    × (neg_ℤ new.max_position ≤ℤ signed_quantity Side.sell 300)
    × (signed_quantity Side.sell 300 ≤ℤ new.max_position)
    × ((check_order new 1 request quiet_bank).0 ≡ ok tt)
check_order_accepts_example =
    check_order_accepts new 1 request bank quiet_bank below_i64 low_enough request_accepted
