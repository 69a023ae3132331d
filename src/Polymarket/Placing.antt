-- ===== src/Polymarket/Placing.antt =====
-- polymarket/src/client.rs: `create_order`, behind the circuit breaker.
use w16crypto_engine.Polymarket.Requests.{Request, order_request}
use w16crypto_engine.Orders.{CreateOrderRequest}
use w16crypto_engine.Polymarket.{
  Decoded, PolymarketClient, Reply, succeeded, check_circuit_breaker, failed, result_of,
}
use w16crypto_engine.Common.Error.{Result, ok, err}
use w16crypto_engine.Base.{ℕ, String, List, [], ◌∷◌}

-- What `create_order` answers with, the requests that it sends, and the client after it.
pub record Placed (F A : Type 0) : Type 0 where
  pub result : Result A
  pub sent : List (Request F)
  pub client : PolymarketClient

abbrev pub after_result : {A : Type 0} → Result A → ℕ → PolymarketClient → PolymarketClient
after_result (ok a) now c = succeeded now c
after_result (err e) now c = failed now c

module _ {F A : Type 0} (hash : String → String) (timestamp : String)
    (decode : String → Decoded A) where
  abbrev pub send_placed :
      CreateOrderRequest F → ℕ → Reply → Result Unit × PolymarketClient → Placed F A
  send_placed o now reply (err e, c) = record { result = err e; sent = []; client = c }
  send_placed o now reply (ok _, c) = record {
    result = result_of decode reply;
    sent = order_request hash timestamp o c ∷ [];
    client = after_result (result_of decode reply) now c;
  }

  -- The two clocks of the breaker read `now` and `later`.
  unfoldable pub create_order : CreateOrderRequest F → ℕ → ℕ → Reply → PolymarketClient → Placed F A
  create_order o now later reply c = send_placed o later reply (check_circuit_breaker now c)
