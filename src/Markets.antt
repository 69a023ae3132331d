-- ===== src/Markets.antt =====
-- api/crates/markets/src/lib.rs: `MarketService`, the administrators' state machine of a market.
pub mod Outcomes
pub mod Machine
use w16crypto_engine.Db.Users.{audit}
use w16crypto_engine.Common.Error.{AppError, Part}
use w16crypto_engine.Db.Markets.{get_market, set_market_status, insert_market}
use w16crypto_engine.Db.State.{Call, ◌>>=◌, ◌>>◌, guard, pure}
use w16crypto_engine.Common.Types.{MarketStatus, Market}
use w16crypto_engine.Base.{ℕ, leb, ◌==◌, String, Bool, true, false, not, Option, some, [], ◌∷◌}
use Prim.Native.String.{len}

-- `str::trim` is the standard library's, and so an argument; `len` counts bytes.
unfoldable pub create : (String → String) → ℕ → ℕ → String → String → Option ℕ → ℕ → Call Market
create trim id now title description resolves_at created_by = do
  let t = trim title
  guard (not (len t == 0)) (AppError.validation (Part.text "title is required" ∷ []))
  guard (leb (len t) 200) (AppError.validation (Part.text "title exceeds 200 characters" ∷ []))
  market ← insert_market id now t description resolves_at
  audit (some created_by) "create" "market" (some id)
  pure market

abbrev pub is_open : MarketStatus → Bool
is_open MarketStatus.«open» = true
is_open _ = false

abbrev pub is_paused : MarketStatus → Bool
is_paused MarketStatus.paused = true
is_paused _ = false

abbrev pub is_settled : MarketStatus → Bool
is_settled MarketStatus.settled = true
is_settled _ = false

unfoldable pub pause : ℕ → ℕ → Call Unit
pause id by = do
  market ← get_market id
  guard (is_open market.status)
      (AppError.bad_request (Part.text "only open markets can be paused" ∷ []))
  set_market_status id MarketStatus.paused
  audit (some by) "pause" "market" (some id)

unfoldable pub reopen : ℕ → ℕ → Call Unit
reopen id by = do
  market ← get_market id
  guard (is_paused market.status)
      (AppError.bad_request (Part.text "only paused markets can be reopened" ∷ []))
  set_market_status id MarketStatus.«open»
  audit (some by) "reopen" "market" (some id)

unfoldable pub cancel_market : ℕ → ℕ → Call Unit
cancel_market id by = do
  market ← get_market id
  guard (not (is_settled market.status))
      (AppError.bad_request (Part.text "cannot cancel a settled market" ∷ []))
  set_market_status id MarketStatus.cancelled
  audit (some by) "cancel" "market" (some id)
