-- ===== src/Db/Balances/Funds.antt =====
-- The money in the table `balances`, and how a write of one row changes it.
use w16crypto_engine.Db.Balances.{upsert_balance, credit_row, new_row, ok, balance_fault}
use w16crypto_engine.Base.{
  ℕ, ℤ, pos, ◌+ℤ◌, none, some, Option, Table, lookup, total, Option-cases, int_laws, insert,
  total-insert, total-insert_new, ◌≡◌, inl, inr, arith,
}
use w16crypto_engine.Db.State.{Db, BalanceRow}

abbrev pub row_value : BalanceRow → ℤ
row_value r = r.available +ℤ r.reserved

-- All that the users hold, available or reserved.
abbrev pub funds : Table BalanceRow → ℤ
funds = total row_value

abbrev pub row_available : Option BalanceRow → ℤ
row_available none = pos 0
row_available (some r) = r.available

abbrev pub row_reserved : Option BalanceRow → ℤ
row_reserved none = pos 0
row_reserved (some r) = r.reserved

-- What a user can spend, and what is set aside; 0 without a row.
abbrev pub available_of : ℕ → Db → ℤ
available_of u db = row_available (lookup u db.balances)

abbrev pub reserved_of : ℕ → Db → ℤ
reserved_of u db = row_reserved (lookup u db.balances)

credit_funds :
    (u : ℕ) (a : ℤ) (old : BalanceRow) (t : Table BalanceRow)
    → lookup u t ≡ some old
    → funds (insert u (credit_row a old) t) ≡ funds t +ℤ a
credit_funds u a old t e = grind (int_laws, total-insert row_value u (credit_row a old) old t e)

new_funds :
    (u : ℕ) (a : ℤ) (t : Table BalanceRow)
    → lookup u t ≡ none
    → funds (insert u (new_row a) t) ≡ funds t +ℤ a
new_funds u a t e = grind (int_laws, total-insert_new row_value u (new_row a) t e)

-- An upsert that succeeds adds its amount to the money in the accounts.
pub upsert_balance-funds :
    (u : ℕ) (a : ℤ) (db : Db) {n : ℕ}
    → (upsert_balance u a db).0 ≡ ok n
    → funds (upsert_balance u a db).1.balances ≡ funds db.balances +ℤ a
upsert_balance-funds u a db h = elim (Option-cases (balance_fault (new_row a))) [
  | inr (f, n) ↦ absurd (ground arith)
  | inl m ↦ elim (Option-cases (lookup u db.balances)) [
    | inl absent ↦ ground (arith, new_funds u a db.balances absent)
    | inr (old, e) ↦ elim (Option-cases (balance_fault (credit_row a old))) [
      | inl n ↦ ground (arith, credit_funds u a old db.balances e)
      | inr (f, n) ↦ absurd (ground arith)
    ]
  ]
]
