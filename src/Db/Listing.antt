-- ===== src/Db/Listing.antt =====
-- The queries of api/crates/db/src that list rows: `SELECT … WHERE … ORDER BY … DESC LIMIT …`. Rows
-- whose columns of the order are equal may come in any order; the model takes that of the table.
pub mod Pages
pub mod Rows
use w16crypto_engine.Common.Error.{err, AppError, Fault, ok, Result}
use w16crypto_engine.Common.Types.{MarketStatus, Fill, Market, Order}
use w16crypto_engine.Db.State.{Db, WithdrawalStatus, Call, WithdrawalRow}
use w16crypto_engine.Base.{
  leb, ◌==◌, if◌then◌else◌, take, keep, ℤ, pos, pos_part, ltb_ℤ, Table, ℕ, Bool, true, false, ◌&&◌,
  Option, none, some, List, [], ◌∷◌,
}

-- A row goes before the first whose column is not larger.
unfoldable pub put_row : {A : Type 0} → (A → ℕ) → A → List A → List A
put_row column x [] = x ∷ []
put_row column x (y ∷ ys) =
    let rest = put_row column x ys in if leb (column y) (column x) then x ∷ y ∷ ys else y ∷ rest

-- ORDER BY column DESC
unfoldable pub order_by : {A : Type 0} → (A → ℕ) → List A → List A
unfolding put_row
order_by column [] = []
order_by column (x ∷ xs) = put_row column x (order_by column xs)

-- A query on a table, which leaves the tables alone. PostgreSQL refuses a negative LIMIT.
abbrev pub select :
    {V : Type 0} → (Db → Table V) → (ℕ × V → Bool) → (ℕ × V → ℕ) → ℤ → Call (List (ℕ × V))
select table test column limit db =
    if ltb_ℤ limit (pos 0)
    then (err (AppError.database Fault.negative_limit), db)
    else (ok (take (pos_part limit) (order_by column (keep test (table db)))), db)

abbrev pub is_market_status : MarketStatus → MarketStatus → Bool
is_market_status MarketStatus.«open» MarketStatus.«open» = true
is_market_status MarketStatus.paused MarketStatus.paused = true
is_market_status MarketStatus.settled MarketStatus.settled = true
is_market_status MarketStatus.cancelled MarketStatus.cancelled = true
is_market_status _ _ = false

abbrev pub is_withdrawal_status : WithdrawalStatus → WithdrawalStatus → Bool
is_withdrawal_status WithdrawalStatus.pending WithdrawalStatus.pending = true
is_withdrawal_status WithdrawalStatus.approved WithdrawalStatus.approved = true
is_withdrawal_status WithdrawalStatus.rejected WithdrawalStatus.rejected = true
is_withdrawal_status _ _ = false

-- A condition that is asked for, or none.
abbrev pub if_asked : {A : Type 0} → (A → Bool) → Option A → Bool
if_asked test none = true
if_asked test (some a) = test a

-- `FillRow` has the column `transaction_id` and the table of migrations/ has not, so no row is decoded.
abbrev pub decode_fills : Result (List (ℕ × Fill)) × Db → Result (List (ℕ × Fill)) × Db
decode_fills (err e, db) = (err e, db)
decode_fills (ok [], db) = (ok [], db)
decode_fills (ok (r ∷ rs), db) = (err (AppError.database Fault.not_decoded), db)

unfoldable pub list_fills : ℕ → ℤ → Call (List (ℕ × Fill))
unfolding order_by
list_fills market limit db =
    decode_fills (select (λ d. d.fills) (λ r. r.1.market_id == market) (λ r. r.1.sequence) limit db)

unfoldable pub list_markets : Option MarketStatus → Call (List (ℕ × Market))
unfolding order_by
list_markets status =
    select (λ db. db.markets) (λ r. if_asked (λ s. is_market_status r.1.status s) status)
      (λ r. r.1.created_at) (pos 200)

unfoldable pub list_user_orders : ℕ → Option ℕ → ℤ → Call (List (ℕ × Order))
unfolding order_by
list_user_orders user market limit =
    select (λ db. db.orders)
      (λ r. (r.1.user_id == user) && if_asked (λ m. r.1.market_id == m) market)
      (λ r. r.1.created_at) limit

abbrev pub is_wanted : Option ℕ → Option WithdrawalStatus → ℕ × WithdrawalRow → Bool
is_wanted user status r =
    if_asked (λ u. r.1.user_id == u) user
    && if_asked (λ s. is_withdrawal_status r.1.status s) status

-- `created_at` is the column of that name, by the key of the row; nothing else reads it.
unfoldable pub list_withdrawals :
    (ℕ → ℕ) → Option ℕ → Option WithdrawalStatus → ℤ → Call (List (ℕ × WithdrawalRow))
unfolding order_by
list_withdrawals created_at user status limit =
    select (λ db. db.withdrawals) (is_wanted user status) (λ r. created_at r.0) limit
