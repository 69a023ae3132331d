-- ===== src/Http/Orders.antt =====
-- api/crates/api-http/src/handlers/orders.rs: the users' orders, under a key that makes a request
-- idempotent. The tables and the pending orders are the state; the risk manager is only read.
pub mod Retry
use text.Mathlib.Text.{◌==◌ as str_eq}
use w16crypto_engine.Base.{
  ◌==◌, if◌then◌else◌, ℤ, pos, ltb_ℤ, u32_bound, i64_as_u64, ℕ, ◌%◌, String, Option, none, some,
  List, [], ◌∷◌,
}
use w16crypto_engine.Orders.{Exchange, submit, cancel_placed, get_placed, list_for_user}
use w16crypto_engine.Exposure.{RiskManager, Reason}
use w16crypto_engine.Reconciliation.{PendingOrder}
use w16crypto_engine.Common.Types.{Order, OrderRequest, OrderKind, Side}
use w16crypto_engine.Common.Price.{Decimals, price_from_decimal, quantity_from_decimal}
use w16crypto_engine.Common.Error.{Message, Part, AppError, Result, ok, err, and_then}
use w16crypto_engine.Db.State.{Db, Call, pure, fail, ◌>>=◌}
use w16crypto_engine.Db.Idempotency.{
  IdempotencyStatus, get_idempotency_response, claim_idempotency_key, complete_idempotency_key,
}
use w16crypto_engine.Http.{Web, AuthContext, Response, user_of}

pub record PlaceOrderRequest (D : Type 0) : Type 0 where
  pub market_id : ℕ
  pub side : String
  pub kind : String
  pub price : Option D
  pub quantity : D

-- serde_json, to a stored order and back.
pub record OrderJson : Type 0 where
  pub to_value : Order → String
  pub from_value : String → Option Order

-- What a request draws or reads besides its body: the keys, the identifiers that the service draws
-- for the order it sends, for the order it answers with and for the user, and the times.
pub record OrderArrival : Type 0 where
  pub header_key : Option String
  pub fresh_key : String
  pub order_id : ℕ
  pub answer_id : ℕ
  pub drawn_user : ℕ
  pub now : ℕ
  pub nonce : ℕ

abbrev pub order_key : OrderArrival → String
order_key a = elim a.header_key [ none ↦ a.fresh_key | some k ↦ k ]

-- The tables and the reconciler's pending orders.
pub record Shared : Type 0 where
  pub db : Db
  pub pending : List PendingOrder

abbrev pub invalid : {A : Type 0} → String → Result A
invalid m = err (AppError.validation (Part.text m ∷ []))

abbrev pub parse_side : String → Result Side
parse_side s =
    if str_eq s "buy"
    then ok Side.buy
    else if str_eq s "sell"
    then ok Side.sell
    else invalid "side must be buy or sell"

abbrev pub parse_kind : String → Result OrderKind
parse_kind s =
    if str_eq s "limit"
    then ok OrderKind.limit
    else if str_eq s "market"
    then ok OrderKind.market
    else invalid "kind must be limit or market"

abbrev pub cached_order : ℕ → String → IdempotencyStatus → Call (Option String)
cached_order u key IdempotencyStatus.complete = get_idempotency_response u key
cached_order u key IdempotencyStatus.processing =
    fail (AppError.conflict (Part.text "duplicate request in flight" ∷ []))
cached_order u key IdempotencyStatus.fresh = pure none

module _ (w : Web) (d : Decimals) (x : Exchange) (j : OrderJson)
    (describe : Reason d.Decimal → Message) where
  open w use {to_lowercase}
  open d use {Decimal, decimal_of, is_le}
  open j use {to_value, from_value}

  abbrev pub parse_price : Option Decimal → Result (Option ℕ)
  parse_price none = ok none
  parse_price (some p) = elim (price_from_decimal d p) [
    | none ↦ invalid "price must be in (0, 1)"
    | some n ↦ ok (some n)
  ]

  abbrev pub check_quantity : Decimal → Result Unit
  check_quantity q = if is_le q (decimal_of 0) then invalid "quantity must be positive" else ok tt

  unfoldable pub parse_payload : PlaceOrderRequest Decimal → Result OrderRequest
  parse_payload p = and_then (parse_side (to_lowercase p.side)) λ side.
      and_then (parse_kind (to_lowercase p.kind)) λ kind. and_then (parse_price p.price) λ price.
        and_then (check_quantity p.quantity) λ _. ok (record {
          market_id = p.market_id;
          side = side;
          kind = kind;
          price = price;
          quantity = quantity_from_decimal d p.quantity;
        })

  -- The key is claimed before the payload is looked at.
  unfoldable pub claim_order_key : AuthContext → OrderArrival → Call (ℕ × Option String)
  claim_order_key a at = do
    u ← user_of w a
    status ← claim_idempotency_key u (order_key at) at.now
    stored ← cached_order u (order_key at) status
    pure (u, stored)

  abbrev pub answer_order : ℕ → Order → Response Order
  answer_order status o = record { status = status; body = o }

  -- The order is stored under the key once the exchange has it.
  abbrev pub store_order :
      ℕ → OrderArrival → Result Order × List PendingOrder → Db → Result (Response Order) × Shared
  store_order u at (err e, ps) db = (err e, record { db = db; pending = ps })
  store_order u at (ok o, ps) db =
      let out = complete_idempotency_key u (order_key at) (to_value o) db in
      (and_then out.0 λ _. ok (answer_order 201 o), record { db = out.1; pending = ps })

  abbrev pub submit_payload :
      ℕ
      → OrderArrival
      → Result OrderRequest
      → RiskManager Decimal
      → Shared
      → Result (Response Order) × Shared
  submit_payload u at (err e) m s = (err e, s)
  submit_payload u at (ok r) m s =
      store_order u at
        (submit d x describe at.order_id at.answer_id at.now at.nonce at.drawn_user r m s.pending)
        s.db

  abbrev pub read_stored : Option Order → Result (Response Order)
  read_stored none = err (AppError.internal (Part.text "stored response" ∷ []))
  read_stored (some o) = ok (answer_order 200 o)

  -- After the claim.
  abbrev pub continue_order :
      OrderArrival
      → PlaceOrderRequest Decimal
      → RiskManager Decimal
      → List PendingOrder
      → Result (ℕ × Option String) × Db
      → Result (Response Order) × Shared
  continue_order at p m ps (err e, db) = (err e, record { db = db; pending = ps })
  continue_order at p m ps (ok (u, some value), db) =
      (read_stored (from_value value), record { db = db; pending = ps })
  continue_order at p m ps (ok (u, none), db) =
      submit_payload u at (parse_payload p) m (record { db = db; pending = ps })

  unfoldable pub place_order :
      AuthContext
      → OrderArrival
      → PlaceOrderRequest Decimal
      → RiskManager Decimal
      → Shared
      → Result (Response Order) × Shared
  place_order a at p m s = continue_order at p m s.pending (claim_order_key a at s.db)

  abbrev pub as_user : {A : Type 0} → AuthContext → (ℕ → Result A) → Result A
  as_user a f = elim (w.parse_uuid a.user_id) [ none ↦ err AppError.unauthorized | some u ↦ f u ]

  unfoldable pub cancel_order : AuthContext → ℕ → Result Order
  cancel_order a id = as_user a λ u. cancel_placed u id

  unfoldable pub get_order : AuthContext → ℕ → Result Order
  get_order a id =
      as_user a
        λ u. and_then (get_placed id) λ o. if o.user_id == u then ok o else err AppError.forbidden

  abbrev pub min_200 : ℤ → ℤ
  min_200 n = if ltb_ℤ n (pos 200) then n else pos 200

  -- `limit.unwrap_or(50).min(200) as u32`
  abbrev pub limit_of : Option ℤ → ℕ
  limit_of none = 50
  limit_of (some n) = i64_as_u64 (min_200 n) % u32_bound

  unfoldable pub list_orders : AuthContext → Option ℕ → Option ℤ → Result (List Order)
  list_orders a market limit = as_user a λ u. list_for_user u market (some (limit_of limit))
