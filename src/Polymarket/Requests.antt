-- ===== src/Polymarket/Requests.antt =====
-- polymarket/src/client.rs: the requests of each call, with their headers. Keccak-256 is a parameter.
use w16crypto_engine.Orders.{CreateOrderRequest}
use w16crypto_engine.Polymarket.{PolymarketClient}
use w16crypto_engine.Base.{String, Option, none, some, List, [], ◌∷◌}
use Prim.Native.String.{◌++◌}

pub data Method : Type 0 where
  get post delete : Method

-- The body is that of `create_order`; the settings of the order that are never given are left out.
pub record Request (F : Type 0) : Type 0 where
  pub method : Method
  pub url : String
  pub query : List (String × String)
  pub body : Option (CreateOrderRequest F)
  pub headers : List (String × String)

-- polymarket/src/types.rs: the status of an order at the exchange.
pub data ExchangeStatus : Type 0 where
  «open» filled cancelled live partially_filled : ExchangeStatus

abbrev pub exchange_status_text : ExchangeStatus → String
exchange_status_text ExchangeStatus.«open» = "open"
exchange_status_text ExchangeStatus.filled = "filled"
exchange_status_text ExchangeStatus.cancelled = "cancelled"
exchange_status_text ExchangeStatus.live = "live"
exchange_status_text ExchangeStatus.partially_filled = "partially_filled"

abbrev pub orders_query : Option String → Option ExchangeStatus → List (String × String)
orders_query none none = []
orders_query none (some s) = ("status", exchange_status_text s) ∷ []
orders_query (some m) none = ("marketId", m) ∷ []
orders_query (some m) (some s) = ("marketId", m) ∷ ("status", exchange_status_text s) ∷ []

-- `timestamp` is the text of the time; `hash` is Keccak-256 in hexadecimal. The signature does not
-- depend on the request, and the secret is not used.
unfoldable pub auth_headers : (String → String) → String → PolymarketClient → List (String × String)
auth_headers hash timestamp c =
    ("POLYMARKET-API-KEY", c.api_key)
    ∷ ("POLYMARKET-SIGNATURE", hash (timestamp ++ "GET/clob/config"))
    ∷ ("POLYMARKET-TIMESTAMP", timestamp)
    ∷ ("POLYMARKET-PASSPHRASE", c.api_passphrase)
    ∷ ("Host", "clob.polymarket.com")
    ∷ []

module _ {F : Type 0} (hash : String → String) (timestamp : String) where
  abbrev pub bare : Method → String → List (String × String) → PolymarketClient → Request F
  bare method path query c = record {
    method = method;
    url = c.base_url ++ path;
    query = query;
    body = none;
    headers = auth_headers hash timestamp c;
  }

  unfoldable pub markets_request : PolymarketClient → Request F
  markets_request c = bare Method.get "/markets" (("active", "true") ∷ ("archived", "false") ∷ []) c

  unfoldable pub market_request : String → PolymarketClient → Request F
  market_request market c = bare Method.get ("/markets/" ++ market) [] c

  unfoldable pub orderbook_request : String → String → PolymarketClient → Request F
  orderbook_request market asset c =
      bare Method.get ("/markets/" ++ market ++ "/orderbook") (("asset_id", asset) ∷ []) c

  -- `limit` is the text of the number.
  unfoldable pub trades_request : String → String → String → PolymarketClient → Request F
  trades_request market asset limit c =
      bare Method.get ("/markets/" ++ market ++ "/trades")
        (("asset_id", asset) ∷ ("limit", limit) ∷ []) c

  unfoldable pub order_request : CreateOrderRequest F → PolymarketClient → Request F
  order_request o c = record (bare Method.post "/orders" [] c) { body = some o }

  unfoldable pub cancel_request : String → PolymarketClient → Request F
  cancel_request order c = bare Method.delete ("/orders/" ++ order) [] c

  unfoldable pub orders_request :
      Option String → Option ExchangeStatus → PolymarketClient → Request F
  orders_request market status c = bare Method.get "/orders" (orders_query market status) c

  unfoldable pub balance_request : PolymarketClient → Request F
  balance_request c = bare Method.get "/balance" [] c

  unfoldable pub profile_request : PolymarketClient → Request F
  profile_request c = bare Method.get "/profile" [] c

  unfoldable pub credentials_request : PolymarketClient → Request F
  credentials_request c = bare Method.get "/auth/api-key-nonce" [] c
