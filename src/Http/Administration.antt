-- ===== src/Http/Administration.antt =====
-- api/crates/api-http/src/handlers/markets.rs: the administrators' calls on markets.
pub mod Admins
use w16crypto_engine.Db.Markets.{get_market}
use w16crypto_engine.Db.Listing.{list_markets}
use text.Mathlib.Text.{◌==◌ as str_eq}
use w16crypto_engine.Common.Error.{Part}
use w16crypto_engine.Markets.{reopen, pause, create}
use w16crypto_engine.Settlement.{SettlementSummary, settle}
use w16crypto_engine.Db.State.{◌>>◌, ◌>>=◌, or_fail}
use w16crypto_engine.Http.{
  Web, AuthContext, Call, Response, require_admin, user_of, AppError, respond,
}
use w16crypto_engine.Common.Types.{Outcome, MarketStatus, Market, paused, «open»}
use w16crypto_engine.Base.{if◌then◌else◌, ℕ, String, Option, none, some, [], ◌∷◌, List}

pub record CreateMarketRequest : Type 0 where
  pub title : String
  pub description : String
  pub resolves_at : Option ℕ

-- The filter of `list_markets`: a text that names no status filters nothing.
unfoldable pub status_filter : Option String → Option MarketStatus
status_filter none = none
status_filter (some s) =
    if str_eq s "open"
    then some MarketStatus.«open»
    else if str_eq s "paused"
    then some MarketStatus.paused
    else if str_eq s "settled"
    then some MarketStatus.settled
    else if str_eq s "cancelled"
    then some MarketStatus.cancelled
    else none

-- `list_markets` and `get_market`, which anybody may call.
unfoldable pub list_all_markets : Option String → Call (Response (List (ℕ × Market)))
unfolding status_filter
list_all_markets status = do rows ← list_markets (status_filter status); respond 200 rows

unfoldable pub show_market : ℕ → Call (Response Market)
show_market id = do market ← get_market id; respond 200 market

unfoldable pub parse_outcome : String → Option Outcome
parse_outcome s =
    if str_eq s "yes"
    then some Outcome.yes_outcome
    else if str_eq s "no"
    then some Outcome.no_outcome
    else none

module _ (w : Web) where
  open w use {trim, to_lowercase}

  unfoldable pub create_market : AuthContext → ℕ → ℕ → CreateMarketRequest → Call (Response Market)
  create_market a id now req = do
    require_admin a
    u ← user_of w a
    market ← create trim id now req.title req.description req.resolves_at u
    respond 201 market

  unfoldable pub pause_market : AuthContext → ℕ → Call (Response Unit)
  pause_market a id = do require_admin a; u ← user_of w a; pause id u; respond 204 tt

  unfoldable pub reopen_market : AuthContext → ℕ → Call (Response Unit)
  reopen_market a id = do require_admin a; u ← user_of w a; reopen id u; respond 204 tt

  -- The text is read before the administrator's identity.
  unfoldable pub settle_market : AuthContext → ℕ → ℕ → String → Call (Response SettlementSummary)
  unfolding parse_outcome
  settle_market a id now text = do
    require_admin a
    o ←
        or_fail (parse_outcome (to_lowercase text))
          (AppError.validation (Part.text "outcome must be 'yes' or 'no'" ∷ []))
    u ← user_of w a
    summary ← settle id o now
    respond 200 summary
