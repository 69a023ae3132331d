-- ===== src/Db/Withdrawals/Outcomes.antt =====
-- How each call on the withdrawals can end: it changed nothing, or it wrote these rows.
use w16crypto_engine.Common.Error.{ok, err, AppError}
use w16crypto_engine.Db.Balances.{get_balance, reserve_row, balance_fault, release_row, spend_row}
use w16crypto_engine.Db.State.{Db, BalanceRow, WithdrawalRow, WithdrawalStatus, transaction_atomic}
use w16crypto_engine.Db.Withdrawals.{
  create_withdrawal, pending_row, approve_withdrawal, reject_withdrawal, reviewed_row, no_pending,
  approve_withdrawal_body, reject_withdrawal_body, create_withdrawal_body,
}
use w16crypto_engine.Base.{
  ℕ, ℤ, pos, Option-cases, ◌≤ℤ◌, ◌<ℤ◌, lookup, insert, ◌≡◌, inl, inr, none, some, arith, Table,
  erase, ◌≢◌,
}

-- A request that went through.
pub record Created (id u : ℕ) (a : ℤ) (db db' : Db) (old : BalanceRow) : Type 0 where
  pub row : lookup u db.balances ≡ some old
  pub covered : a ≤ℤ old.available
  pub positive : pos 0 <ℤ a
  pub fresh : lookup id db.withdrawals ≡ none
  pub result : db' ≡ record db {
    balances = insert u (reserve_row a old) db.balances;
    withdrawals = insert id (pending_row u a) db.withdrawals;
    withdrawal_holds = insert id (record { user_id = u; amount = a }) db.withdrawal_holds;
  }

pub create_withdrawal-Created :
    (id u : ℕ) (a : ℤ) (db : Db) {w : WithdrawalRow}
    → (create_withdrawal id u a db).0 ≡ ok w
    → (old : BalanceRow) × Created id u a db (create_withdrawal id u a db).1 old
unfolding create_withdrawal get_balance
create_withdrawal-Created id u a db h = elim (Option-cases (lookup u db.balances)) [
  | inl absent ↦ absurd (ground arith)
  | inr (old, e) ↦ elim (Option-cases (balance_fault (reserve_row a old))) [
    | inl t ↦ (old, ground arith)
    | inr (f, t) ↦ absurd (ground arith)
  ]
]

abbrev pub updated : ℕ → (BalanceRow → BalanceRow) → Table BalanceRow → Table BalanceRow
updated u set t = elim (lookup u t) [ none ↦ t | some r ↦ insert u (set r) t ]

-- A review that went through: it found the withdrawal pending.
pub record Reviewed (s : WithdrawalStatus) (set : ℤ → BalanceRow → BalanceRow) (id admin now : ℕ)
    (db db' : Db) (w : WithdrawalRow) : Type 0 where
  pub row : lookup id db.withdrawals ≡ some w
  pub was_pending : w.status ≡ WithdrawalStatus.pending
  pub result : db' ≡ record db {
    balances = updated w.user_id (set w.amount) db.balances;
    withdrawals = insert id (reviewed_row s admin now w) db.withdrawals;
    withdrawal_holds = erase id db.withdrawal_holds;
  }

pub approve_withdrawal-Reviewed :
    (id admin now : ℕ) (db : Db) {v : WithdrawalRow}
    → (approve_withdrawal id admin now db).0 ≡ ok v
    → (w : WithdrawalRow) × Reviewed WithdrawalStatus.approved spend_row id admin now db
        (approve_withdrawal id admin now db).1
        w
      × (v ≡ reviewed_row WithdrawalStatus.approved admin now w)
unfolding approve_withdrawal
approve_withdrawal-Reviewed id admin now db h = elim (Option-cases (lookup id db.withdrawals)) [
  | inl absent ↦ absurd (ground arith)
  | inr (w, e) ↦ elim (Option-cases (lookup w.user_id db.balances)) [
    | inl none_there ↦ (w, ground arith, ground arith)
    | inr (old, o) ↦ elim (Option-cases (balance_fault (spend_row w.amount old))) [
      | inl t ↦ (w, ground arith, ground arith)
      | inr (f, t) ↦ absurd (ground arith)
    ]
  ]
]

pub reject_withdrawal-Reviewed :
    (id admin now : ℕ) (db : Db) {v : WithdrawalRow}
    → (reject_withdrawal id admin now db).0 ≡ ok v
    → (w : WithdrawalRow) × Reviewed WithdrawalStatus.rejected release_row id admin now db
        (reject_withdrawal id admin now db).1
        w
      × (v ≡ reviewed_row WithdrawalStatus.rejected admin now w)
unfolding reject_withdrawal
reject_withdrawal-Reviewed id admin now db h = elim (Option-cases (lookup id db.withdrawals)) [
  | inl absent ↦ absurd (ground arith)
  | inr (w, e) ↦ elim (Option-cases (lookup w.user_id db.balances)) [
    | inl none_there ↦ (w, ground arith, ground arith)
    | inr (old, o) ↦ elim (Option-cases (balance_fault (release_row w.amount old))) [
      | inl t ↦ (w, ground arith, ground arith)
      | inr (f, t) ↦ absurd (ground arith)
    ]
  ]
]

-- A review of a withdrawal that is not pending, or not there, is refused and changes nothing.
pub review_twice :
    (id admin now : ℕ) (db : Db)
    → ((w : WithdrawalRow)
        → lookup id db.withdrawals ≡ some w
        → w.status ≢ WithdrawalStatus.pending)
    → (approve_withdrawal id admin now db ≡ (err (no_pending id), db))
      × (reject_withdrawal id admin now db ≡ (err (no_pending id), db))
unfolding approve_withdrawal reject_withdrawal
review_twice id admin now db final = elim (Option-cases (lookup id db.withdrawals)) [
  | inl absent ↦ ground arith
  | inr (w, e) ↦ ground (arith, final w e)
]

-- A call that fails changes nothing.
pub create_withdrawal_atomic :
    (id u : ℕ) (a : ℤ) (db : Db) {e : AppError}
    → (create_withdrawal id u a db).0 ≡ err e
    → (create_withdrawal id u a db).1 ≡ db
unfolding create_withdrawal
create_withdrawal_atomic id u a db h = transaction_atomic (create_withdrawal_body id u a) db h

pub approve_withdrawal_atomic :
    (id admin now : ℕ) (db : Db) {e : AppError}
    → (approve_withdrawal id admin now db).0 ≡ err e
    → (approve_withdrawal id admin now db).1 ≡ db
unfolding approve_withdrawal
approve_withdrawal_atomic id admin now db h =
    transaction_atomic (approve_withdrawal_body id admin now) db h

pub reject_withdrawal_atomic :
    (id admin now : ℕ) (db : Db) {e : AppError}
    → (reject_withdrawal id admin now db).0 ≡ err e
    → (reject_withdrawal id admin now db).1 ≡ db
unfolding reject_withdrawal
reject_withdrawal_atomic id admin now db h =
    transaction_atomic (reject_withdrawal_body id admin now) db h
