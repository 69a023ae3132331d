-- ===== src/Db/Withdrawals.antt =====
-- api/crates/db/src/withdrawals.rs over api/migrations/0003_withdrawals.sql: a withdrawal is
-- pending, then approved or rejected once; its hold lasts while it is pending.
pub mod Pending
pub mod Outcomes
pub mod Backing
pub mod Lifecycle
pub mod Conservation
pub mod Finality
use w16crypto_engine.Db.Balances.{
  get_balance, update_balance, covers, always, reserve_row, release_row, spend_row, insufficient,
}
use w16crypto_engine.Common.Error.{AppError, Part, ok, err, Fault}
use w16crypto_engine.Db.State.{
  WithdrawalStatus, Call, WithdrawalRow, IdempotencyRow, transaction, ◌>>=◌, or_fail, ◌>>◌,
  rollback, pure, Db,
}
use w16crypto_engine.Base.{
  ℕ, ℤ, pos, Bool, keep, Option, if◌then◌else◌, erase, ◌∷◌, some, lookup, contains, true, none, [],
  false, insert, leb, not, ltb_ℤ, length, ◌-◌, ◌==◌,
}

abbrev pub is_pending : WithdrawalStatus → Bool
is_pending WithdrawalStatus.pending = true
is_pending _ = false

abbrev pub pending_row : ℕ → ℤ → WithdrawalRow
pending_row u a = record {
  user_id = u;
  amount = a;
  status = WithdrawalStatus.pending;
  reviewed_by = none;
  reviewed_at = none;
}

-- INSERT INTO withdrawals (user_id, amount) … RETURNING *, under a key that the server draws.
abbrev pub insert_withdrawal : ℕ → ℕ → ℤ → Call WithdrawalRow
insert_withdrawal id u a db =
    if not (ltb_ℤ (pos 0) a)
    then (err (AppError.database Fault.check_violation), db)
    else if contains id db.withdrawals
    then (err (AppError.database Fault.unique_violation), db)
    else if not (contains u db.users)
    then (err (AppError.database Fault.foreign_key), db)
    else (
      ok (pending_row u a),
      record db { withdrawals = insert id (pending_row u a) db.withdrawals },
    )

-- INSERT INTO withdrawal_holds
abbrev pub insert_hold : ℕ → ℕ → ℤ → Call Unit
insert_hold id u a db =
    if contains id db.withdrawal_holds
    then (err (AppError.database Fault.unique_violation), db)
    else (
      ok tt,
      record db {
        withdrawal_holds = insert id (record { user_id = u; amount = a }) db.withdrawal_holds;
      },
    )

abbrev pub delete_hold : ℕ → Call Unit
delete_hold id db = (ok tt, record db { withdrawal_holds = erase id db.withdrawal_holds })

abbrev pub reviewed_row : WithdrawalStatus → ℕ → ℕ → WithdrawalRow → WithdrawalRow
reviewed_row s admin now w = record {
  user_id = w.user_id;
  amount = w.amount;
  status = s;
  reviewed_by = some admin;
  reviewed_at = some now;
}

-- UPDATE withdrawals SET status = s, … WHERE id = $1 AND status = 'pending' RETURNING *
abbrev pub review : WithdrawalStatus → ℕ → ℕ → ℕ → Call (Option WithdrawalRow)
review s id admin now db = elim (lookup id db.withdrawals) [
  | none ↦ (ok none, db)
  | some w ↦
      if is_pending w.status
      then if contains admin db.users
        then (
          ok (some (reviewed_row s admin now w)),
          record db { withdrawals = insert id (reviewed_row s admin now w) db.withdrawals },
        )
        else (err (AppError.database Fault.foreign_key), db)
      else (ok none, db)
]

abbrev pub no_pending : ℕ → AppError
no_pending id = AppError.not_found (Part.text "pending withdrawal " ∷ Part.uuid id ∷ [])

unfoldable pub create_withdrawal_body : ℕ → ℕ → ℤ → Db → Call WithdrawalRow
unfolding get_balance
create_withdrawal_body id u a before = do
  affected ← update_balance u (covers a) (reserve_row a)
  if affected == 0
      then (do rollback before; insufficient u a)
      else (do row ← insert_withdrawal id u a; insert_hold id u a; pure row)

unfoldable pub create_withdrawal : ℕ → ℕ → ℤ → Call WithdrawalRow
unfolding create_withdrawal_body
create_withdrawal id u a = transaction (create_withdrawal_body id u a)

unfoldable pub approve_withdrawal_body : ℕ → ℕ → ℕ → Db → Call WithdrawalRow
approve_withdrawal_body id admin now _ = do
  found ← review WithdrawalStatus.approved id admin now
  row ← or_fail found (no_pending id)
  update_balance row.user_id always (spend_row row.amount)
  delete_hold id
  pure row

unfoldable pub approve_withdrawal : ℕ → ℕ → ℕ → Call WithdrawalRow
unfolding approve_withdrawal_body
approve_withdrawal id admin now = transaction (approve_withdrawal_body id admin now)

unfoldable pub reject_withdrawal_body : ℕ → ℕ → ℕ → Db → Call WithdrawalRow
reject_withdrawal_body id admin now _ = do
  found ← review WithdrawalStatus.rejected id admin now
  row ← or_fail found (no_pending id)
  update_balance row.user_id always (release_row row.amount)
  delete_hold id
  pure row

unfoldable pub reject_withdrawal : ℕ → ℕ → ℕ → Call WithdrawalRow
unfolding reject_withdrawal_body
reject_withdrawal id admin now = transaction (reject_withdrawal_body id admin now)

-- DELETE FROM idempotency_keys WHERE expires_at < now(): the rest, and how many went.
unfoldable pub expire_idempotency_keys : ℕ → Call ℕ
expire_idempotency_keys now db =
    let rest = keep (λ (k : IdempotencyRow). leb now k.expires_at) db.idempotency_keys in
    (ok (length db.idempotency_keys - length rest), record db { idempotency_keys = rest })
