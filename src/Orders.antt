-- ===== src/Orders.antt =====
-- api/crates/orders/src/lib.rs: `OrderService`, which asks the risk manager, sends an order to the
-- exchange and registers it as pending. The exchange, the floats of its requests, their conversion
-- (`to_float` is defined nowhere), `Uuid::to_string` and the text of a refusal are parameters.
pub mod Placing
use w16crypto_engine.Exposure.{
  RiskManager, RiskCheckResult, Reason, check_order_risk, get_user_exposure,
}
use w16crypto_engine.Reconciliation.{PendingOrder, register}
use w16crypto_engine.Common.Types.{Order, OrderRequest, OrderStatus, Side}
use w16crypto_engine.Common.Price.{Decimals}
use w16crypto_engine.Common.Error.{Message, Part, AppError, Result, ok, err}
use w16crypto_engine.Base.{ℕ, String, Option, none, some, List, [], ◌∷◌, if◌then◌else◌, not}

-- polymarket/src/types.rs: the fields of `CreateOrderRequest` that the service sets.
pub record CreateOrderRequest (F : Type 0) : Type 0 where
  pub market_id : String
  pub asset_id : String
  pub price : F
  pub size : F
  pub side : Side
  pub nonce : ℕ
  pub time_in_force : String

-- `create_order` answers with the exchange's text for the order.
pub record Exchange : Type 1 where
  pub Float : Type 0
  pub price_to_float : ℕ → Float
  pub quantity_to_float : ℕ → Float
  pub show_uuid : ℕ → String
  pub create_order : CreateOrderRequest Float → Result String

-- An order as `place_order` and `submit` make it.
abbrev pub new_order : ℕ → ℕ → OrderRequest → ℕ → Order
new_order id user r now = record {
  id = id;
  market_id = r.market_id;
  user_id = user;
  side = r.side;
  kind = r.kind;
  price = r.price;
  quantity = r.quantity;
  filled_quantity = 0;
  status = OrderStatus.«open»;
  sequence = 0;
  created_at = now;
  updated_at = now;
}

-- `OrderService::cancel`, `get` and `list_for_user`, which are not written yet.
unfoldable pub cancel_placed : ℕ → ℕ → Result Order
cancel_placed user id =
    err (AppError.bad_request (Part.text "Order cancellation not implemented" ∷ []))

unfoldable pub get_placed : ℕ → Result Order
get_placed id = err (AppError.not_found (Part.text "Order not found" ∷ []))

unfoldable pub list_for_user : ℕ → Option ℕ → Option ℕ → Result (List Order)
list_for_user user market limit = ok []

module _ (d : Decimals) (x : Exchange) (describe : Reason d.Decimal → Message) where
  open d use {Decimal}
  open x use {Float, price_to_float, quantity_to_float, show_uuid, create_order}

  -- `unwrap_or_default` of the reason.
  abbrev pub message_of : Option (Reason Decimal) → Message
  message_of none = []
  message_of (some r) = describe r

  abbrev pub create_request : OrderRequest → ℕ → ℕ → CreateOrderRequest Float
  create_request r price nonce = record {
    market_id = show_uuid r.market_id;
    asset_id = "";
    price = price_to_float price;
    size = quantity_to_float r.quantity;
    side = r.side;
    nonce = nonce;
    time_in_force = "GTC";
  }

  abbrev pub register_placed :
      OrderRequest → Result String → List PendingOrder → Result Unit × List PendingOrder
  register_placed r (ok id) ps =
      (ok tt, register (record { order_id = id; market_id = show_uuid r.market_id }) ps)
  register_placed r (err e) ps = (err e, ps)

  -- The order goes to the exchange, if it has a price.
  unfoldable pub send_order :
      OrderRequest → ℕ → Option ℕ → List PendingOrder → Result Unit × List PendingOrder
  send_order r nonce none ps =
      (err (AppError.bad_request (Part.text "Price required for limit order" ∷ [])), ps)
  send_order r nonce (some price) ps =
      register_placed r (create_order (create_request r price nonce)) ps

  -- The risk of the order at the price that `place_order` hands over: the user's exposure.
  abbrev pub risk_of : ℕ → ℕ → OrderRequest → ℕ → RiskManager Decimal → RiskCheckResult Decimal
  risk_of id user r now m =
      check_order_risk d user (new_order id user r now) (get_user_exposure d user m) m

  -- `id`, `now` and `nonce` are the new identifier, the time, and the time in microseconds.
  unfoldable pub place_order :
      ℕ
      → ℕ
      → ℕ
      → ℕ
      → OrderRequest
      → RiskManager Decimal
      → List PendingOrder
      → Result Unit × List PendingOrder
  place_order id now nonce user r m ps =
      let risk = risk_of id user r now m in
      if not risk.allowed
      then (err (AppError.risk_limit_exceeded (message_of risk.reason)), ps)
      else send_order r nonce r.price ps

  -- `submit`: for a user with a new identifier. The order that it answers with has another one.
  abbrev pub submitted : ℕ → ℕ → ℕ → OrderRequest → Result Unit → Result Order
  submitted id now user r (ok _) = ok (new_order id user r now)
  submitted id now user r (err e) = err e

  unfoldable pub submit :
      ℕ
      → ℕ
      → ℕ
      → ℕ
      → ℕ
      → OrderRequest
      → RiskManager Decimal
      → List PendingOrder
      → Result Order × List PendingOrder
  submit id answered now nonce user r m ps =
      let out = place_order id now nonce user r m ps in (submitted answered now user r out.0, out.1)
