-- ===== src/Db/Fills.antt =====
-- api/crates/db/src/fills.rs over the table `fills` of api/migrations/0001_initial.sql, whose
-- pairs of market and sequence are unique.
use w16crypto_engine.Common.Error.{Fault, err, AppError, ok}
use w16crypto_engine.Db.State.{Call, Db}
use w16crypto_engine.Common.Types.{Fill}
use w16crypto_engine.Base.{
  ℕ, ltb, ◌==◌, if◌then◌else◌, exists, pos, ltb_ℤ, u64_as_i64, contains, insert, Bool, not, ◌&&◌,
  Option, none, some,
}

pub data InsertFillOutcome : Type 0 where
  inserted duplicate : InsertFillOutcome

abbrev pub same_sequence : Fill → ℕ × Fill → Bool
same_sequence f (_, g) = f.market_id == g.market_id && f.sequence == g.sequence

-- What the columns' types and CHECKs refuse: `price > 0 AND price < 10000`, `quantity > 0`, with
-- the quantity cast to `i64`. The price is cast to `i32`; one that does not fit becomes negative,
-- and one that fits must be below 10000 as well.
abbrev pub fill_check : Fill → Bool
fill_check f = ltb 0 f.price && ltb f.price 10000 && ltb_ℤ (pos 0) (u64_as_i64 f.quantity)

-- The tables that a fill refers to.
abbrev pub fill_refers : Fill → Db → Bool
fill_refers f db =
    contains f.market_id db.markets
    && contains f.maker_order_id db.orders
    && contains f.taker_order_id db.orders
    && contains f.maker_user_id db.users
    && contains f.taker_user_id db.users

unfoldable pub fill_fault : Fill → Db → Option Fault
fill_fault f db =
    if contains f.id db.fills
    then some Fault.unique_violation
    else if not (fill_refers f db)
    then some Fault.foreign_key
    else none

-- The CHECKs hold before the conflict is looked for; the key and the references only for a row
-- that is inserted.
unfoldable pub insert_fill_dedup : Fill → Call InsertFillOutcome
insert_fill_dedup f db =
    if not (fill_check f)
    then (err (AppError.database Fault.check_violation), db)
    else if exists (same_sequence f) db.fills
    then (ok InsertFillOutcome.duplicate, db)
    else elim (fill_fault f db) [
      | some x ↦ (err (AppError.database x), db)
      | none ↦ (ok InsertFillOutcome.inserted, record db { fills = insert f.id f db.fills })
    ]
