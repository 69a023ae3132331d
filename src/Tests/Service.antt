-- ===== src/Tests/Service.antt =====
-- The order service and its handlers, with integers for the decimals.
use text.Mathlib.Text.{◌==◌ as str_eq}
use w16crypto_engine.Common.Price.{price_from_decimal, quantity_from_decimal}
use w16crypto_engine.Reconciliation.{PendingOrder}
use w16crypto_engine.Http.{Response}
use w16crypto_engine.Db.Idempotency.{
  claim_idempotency_key, find_key, IdempotencyStatus, complete_idempotency_key,
}
use w16crypto_engine.Common.Error.{ok, Result, AppError, Message, err}
use w16crypto_engine.Common.Types.{Order, OrderRequest, Side, OrderKind}
use w16crypto_engine.Exposure.{
  RiskManager, new_manager, Reason, default_limits, check_order_risk, get_user_exposure,
}
use w16crypto_engine.Base.{ℤ, pos, ℕ, ◌≡◌, refl, sym, ap, ◌∙◌, ◌⊎◌, Option, none, some, List, []}
use w16crypto_engine.Tests.Web.{whole, trader}
use w16crypto_engine.Tests.Analytics.{wholes}
use w16crypto_engine.Tests.Fixture.{bank}
use w16crypto_engine.Orders
use w16crypto_engine.Orders.{Exchange, new_order, submit, send_order}
use w16crypto_engine.Http.Orders.{
  place_order, answer_order, PlaceOrderRequest, Shared, OrderArrival, OrderJson, claim_order_key,
  parse_payload,
}
use w16crypto_engine.Http.Orders.Retry.{place_order_retry, in_flight}

-- The exchange takes every order under one text.
abbrev market_place : Exchange
market_place = record {
  Float = ℕ;
  price_to_float = λ n. n;
  quantity_to_float = λ n. n;
  show_uuid = λ n. "id";
  create_order = λ r. ok "x1";
}

abbrev silent : Reason ℤ → Message
silent r = []

abbrev calm : RiskManager ℤ
calm = new_manager wholes (default_limits wholes)

abbrev wanted : OrderRequest
wanted = record {
  market_id = 7;
  side = Side.buy;
  kind = OrderKind.limit;
  price = some 5000000;
  quantity = 2000000;
}

abbrev bid : PlaceOrderRequest ℤ
bid = record { market_id = 7; side = "buy"; kind = "limit"; price = some (pos 5); quantity = pos 2 }

abbrev ask : PlaceOrderRequest ℤ
ask = record bid { side = "sell" }

abbrev answered_order : Order
answered_order = new_order 51 52 wanted 60

abbrev one_order : OrderJson
one_order = record { to_value = λ o. "{}"; from_value = λ v. some answered_order }

abbrev order_arrival : ℕ → OrderArrival
order_arrival now = record {
  header_key = some "k";
  fresh_key = "f";
  order_id = 50;
  answer_id = 51;
  drawn_user = 52;
  now = now;
  nonce = 1;
}

abbrev floor : Shared
floor = record { db = bank; pending = [] }

abbrev order_body : Result (Response Order) → Option Order
order_body (ok r) = some r.body
order_body (err e) = none

abbrev placed : Result (Response Order) × Shared
placed =
    place_order whole wholes market_place one_order silent trader (order_arrival 60) bid calm floor

placed_order : order_body placed.0 ≡ some answered_order
unfolding place_order claim_order_key claim_idempotency_key find_key parse_payload
    price_from_decimal submit w16crypto_engine.Orders.place_order check_order_risk new_manager
    quantity_from_decimal get_user_exposure default_limits send_order complete_idempotency_key
placed_order = refl

key_fresh : (claim_idempotency_key 1 "k" 60 bank).0 ≡ ok IdempotencyStatus.fresh
unfolding claim_idempotency_key find_key
key_fresh = refl

reads_back :
    (o : Order)
    → placed.0 ≡ ok (answer_order whole wholes market_place one_order silent 201 o)
    → some answered_order ≡ some o
reads_back o h = sym placed_order ∙ ap order_body h

-- The same key again, for another order.
abbrev again : Result (Response Order) × Shared
again =
    place_order whole wholes market_place one_order silent trader (order_arrival 90) ask calm
      placed.1

place_order_retry_example :
    ((o : Order) × (placed.0 ≡ ok (answer_order whole wholes market_place one_order silent 201 o))
      × (again ≡ (ok (answer_order whole wholes market_place one_order silent 200 o), placed.1)))
    ⊎ ((e : AppError) × (placed.0 ≡ err e) × (again ≡ (err in_flight, placed.1)))
place_order_retry_example =
    place_order_retry whole wholes market_place one_order silent trader (order_arrival 60)
      (order_arrival 90) bid ask calm calm floor placed.1 1 refl refl key_fresh reads_back refl

abbrev sent : Result Unit × List PendingOrder
sent = w16crypto_engine.Orders.place_order wholes market_place silent 50 60 1 52 wanted calm []
