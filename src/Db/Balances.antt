-- ===== src/Db/Balances.antt =====
-- api/crates/db/src/balances.rs over the table `balances` of api/migrations/0001_initial.sql:
-- BIGINT columns, `available >= 0` and `reserved >= 0` checked at every write.
pub mod Funds
pub mod Effects
pub mod Transfer
use w16crypto_engine.Base.{
  ℕ, ℤ, pos, negsuc, ◌+◌, ◌+ℤ◌, ◌-ℤ◌, Bool, true, false, not, ◌&&◌, ◌||◌, Option, none, some, List,
  [], ◌∷◌, String, lookup, insert, contains, ltb, ltb_ℤ, leb_ℤ, max_ℤ, fits_i64, i64_as_u64,
  i64_bound, ◌==◌, if◌then◌else◌,
}
use w16crypto_engine.Common.Types.{Outcome}
use w16crypto_engine.Common.Error.{AppError, Fault, Result, ok, err}
use w16crypto_engine.Db.State.{
  Db, BalanceRow, DepositRow, Call, pure, fail, fault, ◌>>=◌, ◌>>◌, gets, transaction,
}

abbrev pub empty_row : BalanceRow
empty_row = record { available = pos 0; reserved = pos 0; version = 0 }

-- What the column types and the CHECKs of migrations/0001_initial.sql refuse in a row.
unfoldable pub balance_fault : BalanceRow → Option Fault
balance_fault r =
    if fits_i64 r.available && fits_i64 r.reserved && ltb r.version i64_bound
    then if leb_ℤ (pos 0) r.available && leb_ℤ (pos 0) r.reserved
      then none
      else some Fault.check_violation
    else some Fault.out_of_range

-- The write of one row, unless a constraint refuses it; the count is that of the rows affected.
abbrev pub commit_row : ℕ → BalanceRow → Option Fault → Call ℕ
commit_row u r none db = (ok 1, record db { balances = insert u r db.balances })
commit_row u r (some f) db = (err (AppError.database f), db)

abbrev pub write_balance : ℕ → BalanceRow → Call ℕ
write_balance u r = commit_row u r (balance_fault r)

-- UPDATE balances SET … WHERE user_id = u AND …
abbrev pub update_balance : ℕ → (BalanceRow → Bool) → (BalanceRow → BalanceRow) → Call ℕ
update_balance u test set db = elim (lookup u db.balances) [
  | none ↦ (ok 0, db)
  | some r ↦ if test r then write_balance u (set r) db else (ok 0, db)
]

abbrev pub always : BalanceRow → Bool
always r = true

abbrev pub covers : ℤ → BalanceRow → Bool
covers amount r = leb_ℤ amount r.available

-- SET available = available - $2, reserved = reserved + $2
abbrev pub reserve_row : ℤ → BalanceRow → BalanceRow
reserve_row a r = record {
  available = r.available -ℤ a;
  reserved = r.reserved +ℤ a;
  version = r.version + 1;
}

-- SET available = available + $2, reserved = GREATEST(0, reserved - $2)
abbrev pub release_row : ℤ → BalanceRow → BalanceRow
release_row a r = record {
  available = r.available +ℤ a;
  reserved = max_ℤ (pos 0) (r.reserved -ℤ a);
  version = r.version + 1;
}

-- SET reserved = GREATEST(0, reserved - $2)
abbrev pub spend_row : ℤ → BalanceRow → BalanceRow
spend_row a r = record {
  available = r.available;
  reserved = max_ℤ (pos 0) (r.reserved -ℤ a);
  version = r.version + 1;
}

-- SET available = balances.available + $2
abbrev pub credit_row : ℤ → BalanceRow → BalanceRow
credit_row a r = record {
  available = r.available +ℤ a;
  reserved = r.reserved;
  version = r.version + 1;
}

-- The row that INSERT INTO balances (user_id, available) proposes.
abbrev pub new_row : ℤ → BalanceRow
new_row a = record { available = a; reserved = pos 0; version = 0 }

-- INSERT INTO balances (user_id, available) … ON CONFLICT (user_id) DO UPDATE … . The row that is
-- proposed is held to the CHECKs before the conflict is looked for, and to the reference to
-- `users` only if it is inserted.
abbrev pub upsert_balance : ℕ → ℤ → Call ℕ
upsert_balance u a db = elim (balance_fault (new_row a)) [
  | some f ↦ (err (AppError.database f), db)
  | none ↦ elim (lookup u db.balances) [
    | some r ↦ write_balance u (credit_row a r) db
    | none ↦
        if contains u db.users
        then write_balance u (new_row a) db
        else (err (AppError.database Fault.foreign_key), db)
  ]
]

unfoldable pub get_balance : ℕ → Call BalanceRow
get_balance u db = (ok (elim (lookup u db.balances) [ none ↦ empty_row | some r ↦ r ]), db)

unfoldable pub credit_balance : ℕ → ℤ → Call Unit
credit_balance u a = upsert_balance u a >>= λ _. pure tt

-- Run when no row was affected: the error carries the balance that is there.
abbrev pub insufficient : {A : Type 0} → ℕ → ℤ → Call A
insufficient u a = get_balance u >>= λ bal.
    fail (AppError.insufficient_balance (i64_as_u64 a) (i64_as_u64 bal.available))

unfoldable pub reserve_balance : ℕ → ℤ → Call Unit
unfolding get_balance
reserve_balance u a = update_balance u (covers a) (reserve_row a) >>= λ affected.
    if affected == 0 then insufficient u a else pure tt

unfoldable pub release_reservation : ℕ → ℤ → Call Unit
release_reservation u a = update_balance u always (release_row a) >>= λ _. pure tt

unfoldable pub apply_fill_balances : ℕ → ℕ → ℤ → Call Unit
apply_fill_balances buyer seller cost = transaction λ _. do
  update_balance buyer always (spend_row cost)
  update_balance seller always (release_row cost)
  pure tt

-- INSERT INTO deposits, under a key that the server draws: `CHECK (amount > 0)`.
abbrev pub insert_deposit : ℕ → DepositRow → Call Unit
insert_deposit id d db =
    if not (ltb_ℤ (pos 0) d.amount)
    then (err (AppError.database Fault.check_violation), db)
    else if contains id db.deposits
    then (err (AppError.database Fault.unique_violation), db)
    else if not (contains d.user_id db.users)
    then (err (AppError.database Fault.foreign_key), db)
    else (ok tt, record db { deposits = insert id d db.deposits })

unfoldable pub record_deposit : ℕ → ℕ → ℤ → String → Call Unit
record_deposit id u a reference = transaction λ _. do
  insert_deposit id (record { user_id = u; amount = a; reference = reference })
  upsert_balance u a
  pure tt
