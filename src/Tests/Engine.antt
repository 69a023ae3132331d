-- ===== src/Tests/Engine.antt =====
-- Signals, regimes, the exchange's client and the trading engine, at concrete values.
use native.Mathlib.Nat.{native_laws}
use w16crypto_engine.Polymarket.Placing.{create_order}
use w16crypto_engine.Common.Error.{ok}
use w16crypto_engine.Trading.Status.{
  run_actions, Action, status_waits, running_engine, KeepsOn, IsSilent, stopped_waits,
}
use w16crypto_engine.Polymarket.{Reply, PolymarketClient, Decoded, with_circuit_breaker}
use w16crypto_engine.Polymarket.Budget.{
  AreFresh, Attempt, failed_requests, client_after, failed_requests-budget,
}
use w16crypto_engine.Trading.{get_status, start, initialize, LockCall}
use w16crypto_engine.Regime.{MarketStats, on_book, get_regime_state, on_trade, current_regime}
use w16crypto_engine.Common.Breaker.{CircuitBreakerConfig}
use w16crypto_engine.Common.Windows.{latest, reversed}
use w16crypto_engine.Tests.Queues.{naturals}
use w16crypto_engine.Common.Types.{OrderBook, Fill, Side}
use w16crypto_engine.Regime.Agreement.{
  IsOrdered, reported, Matches, get_regime_state-current, has_state, prices_kept,
}
use w16crypto_engine.Signals.{MarketData, FillData, fill_data}
use w16crypto_engine.Signals.Generation.{
  Draw, buys, sells, check_order_flow_imbalance, check_support_resistance,
}
use w16crypto_engine.Signals.Direction.{IsFair, Follows, signals_follow}
use w16crypto_engine.Base.{
  keep, sum_by, Table, OnSome, ℕ, zero, suc, ◌/◌, ◌≤◌, String, ◌≡◌, refl, Option, none, some, List,
  [], ◌∷◌, arith, ◌<◌, ◌⊎◌, false, ForAll, true, leb, lookup,
}

naturals-IsFair : IsFair naturals
unfolding IsFair
naturals-IsFair n d a t h some_volume half =
    let nothing : a / t ≡ 0 = native_laws.div-eq_of_lt (omega arith) in ground (arith, nothing)

naturals-IsOrdered : IsOrdered naturals
unfolding IsOrdered
naturals-IsOrdered x n m le over = ground (arith, le, over)

-- The text of a number has as many characters.
abbrev show_units : ℕ → String
show_units zero = String.[]
show_units (suc n) = String.◌∷◌ "x" (show_units n)

abbrev count_units : String → ℕ
count_units String.[] = 0
count_units (String.◌∷◌ c s) = suc (count_units s)

abbrev parse_units : String → Option ℕ
parse_units s = some (count_units s)

abbrev bought : Fill
bought = record {
  id = 1;
  market_id = 7;
  maker_order_id = 11;
  taker_order_id = 12;
  maker_user_id = 1;
  taker_user_id = 2;
  price = 500000;
  quantity = 40;
  aggressor = Side.buy;
  sequence = 1;
  filled_at = 10;
  transaction_id = none;
}

abbrev quotes : OrderBook
quotes = record {
  market_id = 7;
  bids = (record { price = 500000; quantity = 90; count = 1 }) ∷ [];
  asks = (record { price = 500005; quantity = 10; count = 1 }) ∷ [];
  sequence = 0;
}

abbrev draw : ℕ → Draw
draw n = record { id = n; fallback = 99; now = 20 }

-- Ten fills that bought.
abbrev ten_fills : List FillData
ten_fills = let x = fill_data 10 bought in x ∷ x ∷ x ∷ x ∷ x ∷ x ∷ x ∷ x ∷ x ∷ x ∷ []

abbrev busy : MarketData
busy = record {
  fills = ten_fills;
  bids = (500000, 90) ∷ [];
  asks = (500005, 10) ∷ [];
  last_update = 11;
}

signals_follow_example :
    OnSome
      (λ s.
        Follows s.signal_type
          (sum_by (λ x. x.quantity) (keep buys (latest 20 busy.fills)))
          (sum_by (λ x. x.quantity) (keep sells (latest 20 busy.fills))))
      (check_order_flow_imbalance naturals show_units parse_units (draw 1) busy "xx")
    × OnSome
        (λ s. Follows s.signal_type (sum_by (λ l. l.1) busy.bids) (sum_by (λ l. l.1) busy.asks))
        (check_support_resistance naturals show_units parse_units (draw 1) busy "xx")
unfolding reversed
signals_follow_example =
    signals_follow naturals naturals-IsFair show_units parse_units (draw 1) busy "xx" (omega arith)
      (omega arith)

abbrev seen : Table MarketStats
seen = on_book 11 7 quotes (on_trade 10 bought [])

get_regime_state-current_example :
    (reported (get_regime_state naturals 20 7 seen) ≡ current_regime naturals 7 seen)
    × (has_state (get_regime_state naturals 20 7 seen) ≡ leb 20 (prices_kept (lookup 7 seen)))
    × OnSome (λ s. Matches s.volatility s.regime) (get_regime_state naturals 20 7 seen)
get_regime_state-current_example = get_regime_state-current naturals naturals-IsOrdered 20 7 seen

abbrev same : String → String
same s = s

-- A client whose breaker opens at the second failure.
abbrev strict : CircuitBreakerConfig
strict = record { failure_threshold = 2; reset_timeout = 30; failure_window = 60 }

abbrev client : PolymarketClient
client = record {
  base_url = "url";
  api_key = "key";
  api_secret = "secret";
  api_passphrase = "phrase";
  config = strict;
  circuit_breaker = none;
}

abbrev attempt : Reply → Attempt ℕ
attempt reply = record {
  order = record {
    market_id = "m";
    asset_id = "";
    price = 1;
    size = 2;
    side = Side.buy;
    nonce = 3;
    time_in_force = "GTC";
  };
  now = 0;
  later = 0;
  reply = reply;
}

abbrev attempts : List (Attempt ℕ)
attempts =
    attempt (Reply.unreachable "down")
    ∷ attempt (Reply.answered 200 "{}")
    ∷ attempt (Reply.answered 500 "busy")
    ∷ attempt (Reply.unreachable "down")
    ∷ []

attempts-AreFresh : AreFresh 30 attempts
unfolding AreFresh
attempts-AreFresh = (omega arith, (omega arith, (omega arith, (omega arith, tt))))

failed_requests-budget_example :
    (failed_requests same "0" Decoded.value attempts (with_circuit_breaker strict client) ≤ 2)
    × ((failed_requests same "0" Decoded.value attempts (with_circuit_breaker strict client) < 2)
        ⊎ ((create_order same "0" Decoded.value
              (attempt (Reply.answered 200 "{}")).order
              0
              0
              (Reply.answered 200 "{}")
              (client_after same "0" Decoded.value attempts
                (with_circuit_breaker strict client))).sent
            ≡ []))
failed_requests-budget_example =
    failed_requests-budget same "0" Decoded.value strict attempts
      (attempt (Reply.answered 200 "{}")) client (omega arith) (omega arith) attempts-AreFresh
      (omega arith)

-- An engine that was stopped after the first round of its tasks.
abbrev worked : List Action
worked = Action.works true ∷ Action.starts ∷ []

status_waits_example :
    (get_status (run_actions worked running_engine) ≡ LockCall.waits)
    × ((start (run_actions worked running_engine)).0 ≡ LockCall.waits)
    × ((initialize (ok tt) (run_actions worked running_engine)).0 ≡ LockCall.waits)
unfolding ForAll KeepsOn
status_waits_example = status_waits worked (tt, (tt, tt))

abbrev ending : List Action
ending = Action.stops ∷ Action.works false ∷ Action.starts ∷ Action.works false ∷ []

stopped_waits_example :
    (get_status (run_actions ending running_engine) ≡ LockCall.waits)
    × ((start (run_actions ending running_engine)).0 ≡ LockCall.waits)
    × ((initialize (ok tt) (run_actions ending running_engine)).0 ≡ LockCall.waits)
unfolding ForAll IsSilent
stopped_waits_example = stopped_waits ending (tt, (refl, (tt, (refl, tt))))
