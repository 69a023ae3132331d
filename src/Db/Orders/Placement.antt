-- ===== src/Db/Orders/Placement.antt =====
-- What placing an order does to the money and to the table of orders.
use w16crypto_engine.Db.Balances.{balance_fault, covers, insufficient}
use w16crypto_engine.Db.Orders.{
  insert_order, ok, Call, check_market, order_check, reserve_row, update_balance, rollback,
  place_order_body, place_order_atomic, AppError, err, price_check, limit_has_price, filled_check,
}
use w16crypto_engine.Common.Types.{Order, Market, MarketStatus, OrderKind}
use w16crypto_engine.Db.State.{
  Db, BalanceRow, ◌>>=◌, ◌>>◌, Result-cases, conclude_ok, continue, transaction_atomic,
  continue_err,
}
use w16crypto_engine.Base.{
  ◌==◌, if◌then◌else◌, ℤ, ◌≤ℤ◌, lookup, contains, insert, ℕ, ◌≡◌, true, false, Option, none, some,
  Bool-cases, Option-cases, leb_ℤ, refl, ◌⊎◌, inl, inr, Bool, arith, Table, ap, lookup-insert_self,
  sym, ◌∙◌, pos, ◌+ℤ◌, ◌-ℤ◌, ◌<ℤ◌, ltb_ℤ, u64_as_i64, OnSome, ◌+◌, ◌<◌, ◌&&◌,
}

-- The CHECKs of the table, on the columns as PostgreSQL has them.
abbrev pub MeetsChecks : Order → Type 0
MeetsChecks o =
    OnSome (λ p. (0 < p) × (p < 10000)) o.price
    × (pos 0 <ℤ u64_as_i64 o.quantity)
    × (pos 0 ≤ℤ u64_as_i64 o.filled_quantity)
    × (u64_as_i64 o.filled_quantity ≤ℤ u64_as_i64 o.quantity)
    × ((o.kind ≡ OrderKind.market) ⊎ ((p : ℕ) × (o.price ≡ some p)))

-- The tables after a placement that succeeds: the market was open, the balance covered the cost, and
-- the cost went from what is available to what is reserved.
abbrev pub Placed : Order → ℤ → Db → Db → Type 0
Placed o cost db db' =
    ((k : Market) × (lookup o.market_id db.markets ≡ some k) × (k.status ≡ MarketStatus.«open»))
    × ((row : BalanceRow) × (lookup o.user_id db.balances ≡ some row)
        × (cost ≤ℤ row.available)
        × (lookup o.user_id db'.balances
            ≡ some (record {
              available = row.available -ℤ cost;
              reserved = row.reserved +ℤ cost;
              version = row.version + 1;
            })))
    × (lookup o.id db.orders ≡ none)
    × (db'.orders ≡ insert o.id o db.orders)
    × MeetsChecks o

abbrev is_open : MarketStatus → Bool
is_open MarketStatus.«open» = true
is_open _ = false

status_cases : (s : MarketStatus) → (s ≡ MarketStatus.«open») ⊎ (is_open s ≡ false)
status_cases MarketStatus.«open» = inl refl
status_cases MarketStatus.paused = inr refl
status_cases MarketStatus.settled = inr refl
status_cases MarketStatus.cancelled = inr refl

market_check_ok :
    (before db : Db) (k : Option Market) (m : ℕ)
    → (check_market before k m db).0 ≡ ok tt
    → ((x : Market) × (k ≡ some x) × (x.status ≡ MarketStatus.«open»))
      × (check_market before k m db ≡ (ok tt, db))
market_check_ok before db none m h = cc
market_check_ok before db (some k) m h = elim (status_cases k.status) [
  | inl e ↦ ((k, refl, e), ground arith)
  | inr e ↦ absurd (ground arith)
]

insert_order_ok :
    (o : Order) (db : Db)
    → (insert_order o db).0 ≡ ok tt
    → (order_check o ≡ true)
      × (contains o.id db.orders ≡ false)
      × ((insert_order o db).1 ≡ record db { orders = insert o.id o db.orders })
unfolding insert_order
insert_order_ok o db h = ground arith

-- The reservation within the placement, and what follows it.
pay_then_insert : Order → ℤ → Db → Call Unit
pay_then_insert o cost before = do
  affected ← update_balance o.user_id (covers cost) (reserve_row cost)
  if affected == 0 then (do rollback before; insufficient o.user_id cost) else insert_order o

pay_then_insert_ok :
    (o : Order) (cost : ℤ) (before db : Db)
    → (pay_then_insert o cost before db).0 ≡ ok tt
    → ((row : BalanceRow) × (lookup o.user_id db.balances ≡ some row)
        × (cost ≤ℤ row.available)
        × (balance_fault (reserve_row cost row) ≡ none)
        × (pay_then_insert o cost before db
            ≡ insert_order o
                (record db { balances = insert o.user_id (reserve_row cost row) db.balances })))
unfolding pay_then_insert
pay_then_insert_ok o cost before db h = elim (Option-cases (lookup o.user_id db.balances)) [
  | inl none_there ↦ absurd (ground arith)
  | inr (row, e) ↦ elim (Bool-cases (leb_ℤ cost row.available)) [
    | inl enough ↦ elim (Option-cases (balance_fault (reserve_row cost row))) [
      | inl fine ↦ (row, e, ground arith, fine, ground arith)
      | inr (f, bad) ↦ absurd (ground arith)
    ]
    | inr short ↦ absurd (ground arith)
  ]
]

contains-false : {A : Type 0} (k : ℕ) (t : Table A) → contains k t ≡ false → lookup k t ≡ none
contains-false k t h = ground arith

clash : {e : AppError} → ¬ (ok (tt {0}) ≡ err e)
clash h = cc

-- The body is the check of the market, then the reservation, then the insertion.
body_ok :
    (o : Order) (cost : ℤ) (db : Db)
    → (place_order_body o cost db db).0 ≡ ok tt
    → ((k : Market) × (lookup o.market_id db.markets ≡ some k) × (k.status ≡ MarketStatus.«open»))
      × (place_order_body o cost db db ≡ pay_then_insert o cost db db)
unfolding place_order_body pay_then_insert
body_ok o cost db h =
    elim (Result-cases (check_market db (lookup o.market_id db.markets) o.market_id db).0) [
      | inl (a, e) ↦
          let (there, same) = market_check_ok db db (lookup o.market_id db.markets) o.market_id e in
          (there, ap (continue (λ _. pay_then_insert o cost db)) same)
      | inr (x, e) ↦
          let market = check_market db (lookup o.market_id db.markets) o.market_id db in
          let gone = continue_err (λ (_ : Unit {0}). pay_then_insert o cost db) market e in
          absurd (clash (sym h ∙ ap (λ x. x.0) gone))
    ]

kind_priced :
    (k : OrderKind) (price : Option ℕ)
    → limit_has_price k price ≡ true
    → (k ≡ OrderKind.market) ⊎ ((p : ℕ) × (price ≡ some p))
kind_priced OrderKind.market price h = inl refl
kind_priced OrderKind.limit none h = absurd (cc)
kind_priced OrderKind.limit (some p) h = inr (p, refl)

price_in_range :
    (price : Option ℕ) → price_check price ≡ true → OnSome (λ p. (0 < p) × (p < 10000)) price
unfolding OnSome
price_in_range none h = tt
price_in_range (some p) h = ground arith

four :
    (a b c d : Bool) → (a && b && c && d) ≡ true → (a ≡ true) × (b ≡ true) × (c ≡ true) × (d ≡ true)
four a b c d h = ground arith

order_check-MeetsChecks : (o : Order) → order_check o ≡ true → MeetsChecks o
unfolding order_check
order_check-MeetsChecks o h =
    let (priced, positive, filled, kind) =
      four (price_check o.price) (ltb_ℤ (pos 0) (u64_as_i64 o.quantity))
        (filled_check o.filled_quantity o.quantity) (limit_has_price o.kind o.price) h in
    (
      price_in_range o.price priced,
      ground (arith, positive),
      ground (arith, filled),
      ground (arith, filled),
      kind_priced o.kind o.price kind,
    )

-- An order that is placed is in an open market; its cost was available and went from there to
-- what is reserved; it meets the CHECKs of the table, and is there under a key that was free.
pub place_order_atomic-Placed :
    (o : Order) (cost : ℤ) (db : Db)
    → (place_order_atomic o cost db).0 ≡ ok tt
    → Placed o cost db (place_order_atomic o cost db).1
unfolding place_order_atomic
place_order_atomic-Placed o cost db h =
    let whole = conclude_ok db (place_order_body o cost db db) h in
    let body = sym (ap (λ x. x.0) whole) ∙ h in
    let (market, same) = body_ok o cost db body in
    let paid = sym (ap (λ x. x.0) same) ∙ body in
    let (row, found, enough, fine, next) = pay_then_insert_ok o cost db db paid in
    let money = insert o.user_id (reserve_row cost row) db.balances in
    let entered = sym (ap (λ x. x.0) next) ∙ paid in
    let (check, new, after) = insert_order_ok o (record db { balances = money }) entered in
    let end = ap (λ x. x.1) (whole ∙ same ∙ next) ∙ after in
    let kept = lookup-insert_self o.user_id (reserve_row cost row) db.balances in
    (
      market,
      (row, found, enough, ap (λ d. lookup o.user_id d.balances) end ∙ kept),
      contains-false o.id db.orders new,
      ap (λ d. d.orders) end,
      order_check-MeetsChecks o check,
    )

-- A placement that fails leaves every table as it was.
pub place_order_atomic-undone :
    (o : Order) (cost : ℤ) (db : Db) {e : AppError}
    → (place_order_atomic o cost db).0 ≡ err e
    → (place_order_atomic o cost db).1 ≡ db
unfolding place_order_atomic
place_order_atomic-undone o cost db h = transaction_atomic (place_order_body o cost) db h
