-- ===== src/Trading/Execution.antt =====
-- api-http/src/trading_engine.rs: a round of the loop that is meant to execute orders. A signal leads
-- to a question about its market at most, and the loop asks for the signals of a market that it has
-- just made up.
use w16crypto_engine.Trading.{TradingEngine, cancel_each, cancel_all_open_orders}
use w16crypto_engine.Orders.{cancel_placed}
use w16crypto_engine.Common.Error.{ok}
use w16crypto_engine.Signals.{MarketData}
use w16crypto_engine.Common.Types.{Signal, Order}
use w16crypto_engine.Signals.Generation.{Draw, generate, signals_of}
use w16crypto_engine.Common.Floats.{Floats, is_over}
use w16crypto_engine.Base.{
  if◌then◌else◌, Table, ℕ, String, Bool, ◌&&◌, Option, List, [], ◌∷◌, lookup, ◌≡◌, refl, ap, none,
  map,
}

each_stays : (active : List Order) → cancel_each active ≡ map (λ o. o.id) active
unfolding cancel_each cancel_placed
each_stays [] = refl
each_stays (o ∷ rest) = ap (λ left. o.id ∷ left) (each_stays rest)

module _ (f : Floats) (show : ℕ → String) (parse : String → Option ℕ) where
  open f use {Float, literal}

  abbrev pub is_strong : Signal Float → Bool
  is_strong s = is_over f s.strength (literal 8 10) && is_over f s.confidence (literal 8 10)

  -- The markets that the client is asked about.
  unfoldable pub ask_markets : Bool → List (Signal Float) → List ℕ
  ask_markets connected [] = []
  ask_markets connected (s ∷ rest) =
      let others = ask_markets connected rest in
      if is_strong s && connected then s.market_id ∷ others else others

  -- `market` is the new UUID.
  unfoldable pub execution_round :
      Draw → Draw → Draw → ℕ → Table MarketData → TradingEngine → List ℕ
  unfolding ask_markets
  execution_round a b c market t e = ask_markets e.connected (generate f show parse a b c market t)

  -- In a round for a market that the signal generator has not seen, as a new UUID is, the loop asks
  -- the client about nothing, and every open order that the shutdown finds stays open: the cancelling
  -- answers with success, and each order of the list is one that it could not cancel.
  pub shutdown_leaves_orders :
      (a b c : Draw) (market : ℕ) (t : Table MarketData) (e : TradingEngine) (active : List Order)
      → lookup market t ≡ none
      → (execution_round a b c market t e ≡ [])
        × (cancel_all_open_orders (ok active) ≡ (ok tt, map (λ o. o.id) active))
  unfolding execution_round generate signals_of cancel_all_open_orders
  shutdown_leaves_orders a b c market t e active new =
      (rw new refl, ap (λ left. (ok tt, left)) (each_stays active))
