-- ===== src/Tests/Lists.antt =====
-- Queries that list rows, at concrete tables.
use w16crypto_engine.Db.Listing.Pages.{IsPage, lists-IsPage}
use w16crypto_engine.Common.Error.{ok}
use w16crypto_engine.Http.Withdrawals.Privacy.{list_mine-own}
use w16crypto_engine.Tests.Fixture.{bank}
use w16crypto_engine.Db.Listing.{
  list_withdrawals, list_markets, if_asked, is_market_status, list_user_orders, is_wanted,
}
use w16crypto_engine.Http.{Response}
use w16crypto_engine.Common.Types.{Market, Order}
use w16crypto_engine.Tests.Web.{whole, trader}
use w16crypto_engine.Db.State.{Db, WithdrawalRow, WithdrawalStatus}
use w16crypto_engine.Http.Withdrawals.{ListWithdrawalsQuery, list_mine, parse_status}
use w16crypto_engine.Base.{
  ◌==◌, length, ForAll, pos, ℕ, ◌≤◌, ◌≡◌, refl, ◌&&◌, none, some, List, [], ◌∷◌,
}

abbrev withdrawn : ℕ → WithdrawalRow
withdrawn user = record {
  user_id = user;
  amount = pos 3;
  status = WithdrawalStatus.pending;
  reviewed_by = none;
  reviewed_at = none;
}

abbrev stocked : Db
stocked = record bank {
  withdrawals = (40, withdrawn 1) ∷ (41, withdrawn 2) ∷ (42, withdrawn 1) ∷ [];
}

lists-IsPage_example :
    ((rows : List (ℕ × Market)) × (list_markets none stocked ≡ (ok rows, stocked))
      × IsPage
          (λ r. if_asked (λ s. is_market_status r.1.status s) none)
          (λ r. r.1.created_at)
          200
          stocked.markets
          rows)
    × ((rows : List (ℕ × Order)) × (list_user_orders 1 (some 7) (pos 2) stocked
          ≡ (ok rows, stocked))
        × IsPage
            (λ r. (r.1.user_id == 1) && if_asked (λ m. r.1.market_id == m) (some 7))
            (λ r. r.1.created_at)
            2
            stocked.orders
            rows)
    × ((rows : List (ℕ × WithdrawalRow)) × (list_withdrawals
            (λ id. id)
            (some 1)
            none
            (pos 2)
            stocked
          ≡ (ok rows, stocked))
        × IsPage (is_wanted (some 1) none) (λ r. r.0) 2 stocked.withdrawals rows)
lists-IsPage_example = lists-IsPage 1 2 (some 7) (some 1) none none (λ id. id) stocked

abbrev every : ListWithdrawalsQuery
every = record { status = some "pending"; limit = none }

abbrev mine : Response (List (ℕ × WithdrawalRow))
mine = record { status = 200; body = (42, withdrawn 1) ∷ (40, withdrawn 1) ∷ [] }

mine_found : (list_mine whole (λ id. id) trader every stocked).0 ≡ ok mine
unfolding list_mine list_withdrawals parse_status
mine_found = refl

list_mine-own_example :
    (u : ℕ) × (whole.parse_uuid trader.user_id ≡ some u)
    × ForAll (λ r. r.1.user_id ≡ u) mine.body
    × (length mine.body ≤ 200)
list_mine-own_example = list_mine-own whole (λ id. id) trader every stocked mine mine_found
