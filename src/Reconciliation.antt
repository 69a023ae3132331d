-- ===== src/Reconciliation.antt =====
-- api/crates/orders/src/reconciliation.rs: the orders sent to the exchange that are not filled yet,
-- by the exchange's text for each, and what a fill does. `Uuid::to_string` is a parameter.
use w16crypto_engine.Db.Positions.{record_position_change}
use w16crypto_engine.Db.State.{Db}
use w16crypto_engine.Common.Error.{Result, ok, err}
use w16crypto_engine.Positions.{EngineFillEvent}
use w16crypto_engine.Base.{if◌then◌else◌, ℤ, u64_as_i64, neg_i64, ℕ, String, List, [], ◌∷◌}
use text.Mathlib.Text.{◌==◌ as str_eq}

-- The fields that the reconciler reads; a quantity and a time go with them.
pub record PendingOrder : Type 0 where
  pub order_id : String
  pub market_id : String

-- `DashMap::remove`
unfoldable pub finalize : String → List PendingOrder → List PendingOrder
finalize key [] = []
finalize key (p ∷ ps) =
    let rest = finalize key ps in if str_eq key p.order_id then rest else p ∷ rest

-- `DashMap::insert`: an order with the same text is replaced.
unfoldable pub register : PendingOrder → List PendingOrder → List PendingOrder
unfolding finalize
register p ps = p ∷ finalize p.order_id ps

-- `event.quantity as i64`, or its negation.
unfoldable pub fill_delta : EngineFillEvent → ℤ
fill_delta e =
    if str_eq e.aggressor_side "buy" then u64_as_i64 e.quantity else neg_i64 (u64_as_i64 e.quantity)

-- The pending orders after the fill: an error leaves them alone.
abbrev pub finalized : String → List PendingOrder → Result Unit → List PendingOrder
finalized key ps (ok _) = finalize key ps
finalized key ps (err _) = ps

unfoldable pub process_fill :
    (ℕ → String) → EngineFillEvent → List PendingOrder → Db → (Result Unit × Db) × List PendingOrder
unfolding finalize
process_fill show e ps db =
    let out = record_position_change e.fill_id e.taker_user_id e.market_id (fill_delta e) db in
    (out, finalized (show e.taker_order_id) ps out.0)
