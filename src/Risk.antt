-- ===== src/Risk.antt =====
-- api/crates/risk/src/lib.rs: `RiskControls`, the checks of an order request against the limits.
pub mod Limits
use w16crypto_engine.Db.Positions.{get_position_for_user}
use w16crypto_engine.Db.State.{Call, guard, ◌>>◌, pure}
use w16crypto_engine.Common.Error.{Result, ok, err, AppError, Part}
use w16crypto_engine.Common.Types.{OrderRequest, Side}
use w16crypto_engine.Base.{
  ℕ, ltb, ℤ, pos, negsuc, ltb_ℤ, u64_as_i64, neg_i64, saturating_add_i64, Bool, true, not, ◌||◌,
  Option, none, some, [], ◌∷◌,
}

pub record RiskControls : Type 0 where
  pub max_position : ℤ
  pub min_price : ℕ
  pub max_price : ℕ
  pub max_quantity : ℕ

-- `RiskControls::new`
unfoldable pub new : RiskControls
new = record {
  max_position = pos 100000000;
  min_price = 1;
  max_price = 9999;
  max_quantity = 100000000;
}

-- `RiskControls::with_limits`
unfoldable pub with_limits : ℤ → ℕ → ℕ → ℕ → RiskControls
with_limits max_position min_price max_price max_quantity = record {
  max_position = max_position;
  min_price = min_price;
  max_price = max_price;
  max_quantity = max_quantity;
}

abbrev pub in_bands : RiskControls → ℕ → Bool
in_bands c p = not (ltb p c.min_price || ltb c.max_price p)

unfoldable pub check_price : RiskControls → Option ℕ → Call Unit
check_price c none = pure tt
check_price c (some p) = guard (in_bands c p) (
    AppError.validation (
      Part.text "price "
      ∷ Part.number (pos p)
      ∷ Part.text " outside allowed range ["
      ∷ Part.number (pos c.min_price)
      ∷ Part.text ", "
      ∷ Part.number (pos c.max_price)
      ∷ Part.text "]"
      ∷ []))

unfoldable pub check_price_bands : RiskControls → OrderRequest → Call Unit
unfolding check_price
check_price_bands c req = check_price c req.price

unfoldable pub check_quantity_limit : RiskControls → OrderRequest → Call Unit
check_quantity_limit c req = guard (not (ltb c.max_quantity req.quantity)) (
    AppError.validation (
      Part.text "quantity "
      ∷ Part.number (pos req.quantity)
      ∷ Part.text " exceeds maximum allowed "
      ∷ Part.number (pos c.max_quantity)
      ∷ []))

-- `get_position_for_user(…).await.unwrap_or(0)`: a failure counts as no position.
abbrev pub position_or_zero : Result ℤ → ℤ
position_or_zero (ok net) = net
position_or_zero (err _) = pos 0

unfoldable pub order_delta : Side → ℕ → ℤ
order_delta Side.buy q = u64_as_i64 q
order_delta Side.sell q = neg_i64 (u64_as_i64 q)

-- `projected.abs() > max_position`. `abs` of the least `i64` overflows: it stays negative.
abbrev pub abs_i64 : ℤ → ℤ
abs_i64 (pos n) = pos n
abs_i64 (negsuc n) = neg_i64 (negsuc n)

unfoldable pub check_position_limit : RiskControls → ℕ → OrderRequest → Call Unit
unfolding order_delta
check_position_limit c u req db =
    let net = position_or_zero (get_position_for_user u req.market_id db).0 in
    let projected = saturating_add_i64 net (order_delta req.side req.quantity) in
    guard (not (ltb_ℤ c.max_position (abs_i64 projected)))
      (AppError.validation (
        Part.text "projected position "
        ∷ Part.number projected
        ∷ Part.text " would exceed limit "
        ∷ Part.number c.max_position
        ∷ []))
      db

unfoldable pub check_order : RiskControls → ℕ → OrderRequest → Call Unit
unfolding check_price_bands check_quantity_limit check_position_limit
check_order c u req = do
  check_price_bands c req
  check_quantity_limit c req
  check_position_limit c u req
