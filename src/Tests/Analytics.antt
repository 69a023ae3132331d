-- ===== src/Tests/Analytics.antt =====
-- Risk, profits and the cutting of orders, with numbers that compute.
use w16crypto_engine.Exposure.Fills.{
  update_on_fill, trips, update_pnl, with_fill, new_state, groups_pnl, group_fills, add_to_group,
  group_pnl, sum_prices,
}
use w16crypto_engine.Common.Types.{Fill, Side}
use w16crypto_engine.Execution.{
  AlgoOrder, create_twap, ExecutionEngine, new_engine, twap_order, add_order, get_algo_order,
}
use w16crypto_engine.Base.{
  ◌==◌, if◌then◌else◌, sum_by, ℤ, pos, pos_part, neg_part, sub_ℕ, leb_ℤ, div_ℤ, lookup, ◌+◌, ◌*◌,
  ◌≤◌, ◌≡◌, refl, true, false, ◌&&◌, none, some, List, [], ◌∷◌, ◌++◌,
}
use w16crypto_engine.Tests.Fixture.{order_of}
use w16crypto_engine.Common.Price.{Decimals}
use w16crypto_engine.Execution.Slices.{quantity_of}
use w16crypto_engine.Execution.Conservation.{Run, Run-conserves, sent_quantity, pending_in}
use w16crypto_engine.Execution.Creation.{IsCreated}
use w16crypto_engine.Execution.Executor.{tick, Sent}
use w16crypto_engine.Exposure.{
  default_limits, new_manager, RiskManager, UserRiskState, check_order_risk, refuse, Reason,
  negated,
}
use w16crypto_engine.Exposure.Breaker.{RiskReach, RiskReach-refuses}
use w16crypto_engine.Pnl.{new_tracker, record_fill, PnlTracker, Answer, positions_of}
use w16crypto_engine.Pnl.Closing.{record_fill-held, held_in, after_fill}
use w16crypto_engine.Pnl.Waiting.{record_fill-waits, Call, AreNo, run_calls}

-- Decimals that are whole numbers.
abbrev pub wholes : Decimals
wholes = record {
  Decimal = ℤ;
  decimal_of = pos;
  add = λ a b. sub_ℕ (pos_part a + pos_part b) (neg_part a + neg_part b);
  sub = λ a b. sub_ℕ (pos_part a + neg_part b) (neg_part a + pos_part b);
  mul = λ a b.
      sub_ℕ (pos_part a * pos_part b + neg_part a * neg_part b)
        (pos_part a * neg_part b + neg_part a * pos_part b);
  div = λ a b. div_ℤ a (pos_part b);
  round = λ a. a;
  ceil = λ a. a;
  abs = λ a. pos (pos_part a + neg_part a);
  is_le = leb_ℤ;
  to_u32 = λ a. some (pos_part a);
  to_u64 = λ a. some (pos_part a);
}

abbrev idle : {D : Type 0} → ExecutionEngine D
idle = new_engine false

-- Three slices of which two are due.
abbrev sold : AlgoOrder
sold = twap_order 7 Side.sell 100 30 3 (some 5000) (pos 0)

abbrev working : ExecutionEngine ℤ
working = add_order 1 sold idle

working-Run : Run wholes working (0 + sum_by quantity_of sold.child_orders) []
unfolding create_twap get_algo_order new_engine
working-Run =
    Run.created 1 sold (Run.start false)
      (IsCreated.twap 7 Side.sell 100 30 3 (some 5000) (pos 0) refl) refl

abbrev later : Sent (ExecutionEngine ℤ)
later = tick wholes (pos 10) (λ id n. true) working

later-Run : Run wholes later.value (0 + sum_by quantity_of sold.child_orders) ([] ++ later.requests)
later-Run = Run.ticked (pos 10) (λ id n. true) working-Run

Run-conserves_example :
    sent_quantity ([] ++ later.requests) + pending_in later.value.orders
    ≤ 0 + sum_by quantity_of sold.child_orders
Run-conserves_example = Run-conserves wholes later.value _ _ later-Run

abbrev bad_fill : Fill
bad_fill = record {
  id = 21;
  market_id = 7;
  maker_order_id = 12;
  taker_order_id = 11;
  maker_user_id = 2;
  taker_user_id = 1;
  price = 100;
  quantity = 1000;
  aggressor = Side.buy;
  sequence = 3;
  filled_at = 0;
  transaction_id = none;
}

abbrev manager : RiskManager ℤ
manager = update_on_fill wholes 1 bad_fill (pos 0) (new_manager wholes (default_limits wholes))

manager-RiskReach : RiskReach wholes (default_limits wholes) manager
manager-RiskReach = RiskReach.filled 1 bad_fill (pos 0) RiskReach.start

abbrev loser : UserRiskState ℤ
loser = update_pnl wholes (pos 0) (with_fill wholes bad_fill (pos 0) (new_state wholes))

loser_found : lookup 1 manager.user_states ≡ some loser
unfolding update_on_fill new_manager
loser_found = refl

too_much_lost : trips wholes (default_limits wholes) loser ≡ true
unfolding trips update_pnl groups_pnl group_fills add_to_group group_pnl sum_prices default_limits
too_much_lost = refl

limit_positive : leb_ℤ (pos 0) (negated wholes (default_limits wholes).max_daily_loss_usd) ≡ false
unfolding default_limits
limit_positive = refl

RiskReach-refuses_example :
    check_order_risk wholes 2 (order_of 30 2 Side.sell) (pos 5) manager
    ≡ refuse wholes Reason.breaker_active
RiskReach-refuses_example =
    RiskReach-refuses wholes (default_limits wholes) manager limit_positive manager-RiskReach 1
      loser loser_found too_much_lost 2 (order_of 30 2 Side.sell) (pos 5)

record_fill-held_example :
    held_in (positions_of 1 7 (record_fill wholes 3 1 7 bad_fill (pos 0) new_tracker).1.positions)
    ≡ (if (1 == 1) && (7 == 7)
        then after_fill bad_fill (held_in (positions_of 1 7 (new_tracker {D = ℤ}).positions))
        else held_in (positions_of 1 7 (new_tracker {D = ℤ}).positions))
unfolding new_tracker
record_fill-held_example = record_fill-held wholes 3 1 7 bad_fill (pos 0) new_tracker refl 1 7

abbrev filled_tracker : PnlTracker ℤ
filled_tracker = (record_fill wholes 3 1 7 bad_fill (pos 0) new_tracker).1

abbrev queries : List (Call ℤ)
queries = Call.user_pnl 1 ∷ Call.day_end 3 ∷ []

record_fill-waits_example :
    ((record_fill wholes 3 1 7 bad_fill (pos 0) new_tracker).0 ≡ Answer.waiting)
    × AreNo wholes (run_calls wholes queries filled_tracker).0
    × ((run_calls wholes queries filled_tracker).1.positions ≡ filled_tracker.positions)
record_fill-waits_example = record_fill-waits wholes 3 1 7 bad_fill (pos 0) new_tracker queries
