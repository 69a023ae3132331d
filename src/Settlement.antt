-- ===== src/Settlement.antt =====
-- api/crates/settlement/src/lib.rs: the settlement of a market.
pub mod Payouts
pub mod Once
use w16crypto_engine.Common.Error.{AppError, Part}
use w16crypto_engine.Db.Markets.{get_market, apply_settlement_payouts}
use w16crypto_engine.Db.State.{Call, ◌>>=◌, ◌>>◌, guard, pure}
use w16crypto_engine.Db.Positions.{PositionRow, get_user_positions}
use w16crypto_engine.Common.Types.{Outcome, MarketStatus}
use w16crypto_engine.Base.{
  ℕ, leb, if◌then◌else◌, ℤ, pos, ◌+ℤ◌, leb_ℤ, is_zero_ℤ, Bool, true, false, not, Option, none, some,
  List, [], ◌∷◌, String, wrap_i64,
}

pub record SettlementSummary : Type 0 where
  pub market_id : ℕ
  pub outcome : Outcome
  pub payouts : List (ℕ × ℤ)
  pub total_payout : ℤ

-- A short position, and any position when the outcome is No, is paid nothing.
abbrev pub amount_for : Outcome → ℤ → ℤ
amount_for Outcome.yes_outcome net = net
amount_for Outcome.no_outcome net = pos 0

-- The closure of `filter_map`.
abbrev pub payout : Outcome → PositionRow → Option (ℕ × ℤ)
payout o r =
    if leb_ℤ r.net_quantity (pos 0)
    then none
    else if is_zero_ℤ (amount_for o r.net_quantity)
    then none
    else some (r.user_id, amount_for o r.net_quantity)

unfoldable pub payouts_of : Outcome → List PositionRow → List (ℕ × ℤ)
payouts_of o [] = []
payouts_of o (r ∷ rs) =
    let rest = payouts_of o rs in elim (payout o r) [ none ↦ rest | some p ↦ p ∷ rest ]

-- `sum()` of `i64`, which wraps.
unfoldable pub sum_payouts : ℤ → List (ℕ × ℤ) → ℤ
sum_payouts acc [] = acc
sum_payouts acc ((_, a) ∷ ps) = sum_payouts (wrap_i64 (acc +ℤ a)) ps

abbrev pub can_settle : MarketStatus → Bool
can_settle MarketStatus.«open» = true
can_settle MarketStatus.paused = true
can_settle _ = false

-- `{:?}` of a status
abbrev pub status_text : MarketStatus → String
status_text MarketStatus.«open» = "Open"
status_text MarketStatus.paused = "Paused"
status_text MarketStatus.settled = "Settled"
status_text MarketStatus.cancelled = "Cancelled"

abbrev pub window_open : ℕ → Option ℕ → Bool
window_open now none = true
window_open now (some t) = leb t now

abbrev pub cannot_settle : MarketStatus → AppError
cannot_settle s =
    AppError.bad_request
      (Part.text "market cannot be settled from status " ∷ Part.text (status_text s) ∷ [])

abbrev pub summary_of : ℕ → Outcome → List PositionRow → SettlementSummary
summary_of id o rows = record {
  market_id = id;
  outcome = o;
  payouts = payouts_of o rows;
  total_payout = sum_payouts (pos 0) (payouts_of o rows);
}

unfoldable pub settle : ℕ → Outcome → ℕ → Call SettlementSummary
settle id o now = do
  market ← get_market id
  guard (can_settle market.status) (cannot_settle market.status)
  guard (window_open now market.resolves_at)
      (AppError.bad_request (Part.text "resolution window has not opened yet" ∷ []))
  rows ← get_user_positions id
  apply_settlement_payouts id o now (payouts_of o rows)
  pure (summary_of id o rows)
