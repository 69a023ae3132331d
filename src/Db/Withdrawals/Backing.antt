-- ===== src/Db/Withdrawals/Backing.antt =====
-- Every pending withdrawal stays backed by its user's reserved money.
use w16crypto_engine.Db.Balances.{reserve_row, release_row, spend_row}
use w16crypto_engine.Db.Withdrawals.Outcomes.{
  create_withdrawal_atomic, create_withdrawal-Created, updated, Reviewed, approve_withdrawal_atomic,
  reject_withdrawal_atomic, reject_withdrawal-Reviewed, approve_withdrawal-Reviewed,
}
use w16crypto_engine.Db.Balances.Funds.{reserved_of, row_reserved}
use w16crypto_engine.Db.Withdrawals.{
  create_withdrawal, pending_row, reject_withdrawal, approve_withdrawal, reviewed_row,
}
use w16crypto_engine.Db.Withdrawals.Pending.{
  AreAmounts, pending_of, insert-AreAmounts, held_by, lookup-AreAmounts,
}
use w16crypto_engine.Db.State.{Db, WithdrawalRow, BalanceRow, Result-cases, WithdrawalStatus}
use w16crypto_engine.Base.{
  ℕ, ℤ, pos, ◌==◌, ◌≤ℤ◌, insert, lookup-insert, ◌≡◌, sym, inl, inr, arith, subst, Bool-cases,
  Option-cases, ◌-ℤ◌, int_laws, lookup, ◌≢◌, none, some, total-insert, total-insert_new,
}

-- No amount is negative, and a user's reserved money covers the user's pending withdrawals.
pub record IsBacked (db : Db) : Type 0 where
  pub amounts : AreAmounts db.withdrawals
  pub backed : (u : ℕ) → pending_of u db.withdrawals ≤ℤ reserved_of u db

created_backed :
    (db : Db) (id u j : ℕ) (a : ℤ) (old : BalanceRow)
    → lookup u db.balances ≡ some old
    → lookup id db.withdrawals ≡ none
    → pending_of j db.withdrawals ≤ℤ reserved_of j db
    → pending_of j (insert id (pending_row u a) db.withdrawals)
      ≤ℤ row_reserved (lookup j (insert u (reserve_row a old) db.balances))
unfolding held_by
created_backed db id u j a old e fresh h = elim (Bool-cases (j == u)) [
  | inl y ↦ grind (
    int_laws,
    total-insert_new (held_by j) id (pending_row u a) db.withdrawals fresh,
    lookup-insert j u (reserve_row a old) db.balances,
  )
  | inr n ↦ grind (
    int_laws,
    total-insert_new (held_by j) id (pending_row u a) db.withdrawals fresh,
    lookup-insert j u (reserve_row a old) db.balances,
  )
]

reviewed_backed :
    (db : Db) (id j : ℕ) (w w' : WithdrawalRow) (set : BalanceRow → BalanceRow)
    → ((r : BalanceRow) → r.reserved -ℤ w.amount ≤ℤ (set r).reserved)
    → lookup id db.withdrawals ≡ some w
    → w.status ≡ WithdrawalStatus.pending
    → w'.status ≢ WithdrawalStatus.pending
    → pos 0 ≤ℤ w.amount
    → pending_of j db.withdrawals ≤ℤ reserved_of j db
    → pending_of j (insert id w' db.withdrawals)
      ≤ℤ row_reserved (lookup j (updated w.user_id set db.balances))
unfolding held_by
reviewed_backed db id j w w' set keeps e p f z h =
    elim (Option-cases (lookup w.user_id db.balances)) [
      | inl absent ↦ grind (int_laws, total-insert (held_by j) id w' w db.withdrawals e)
      | inr (r, o) ↦ elim (Bool-cases (j == w.user_id)) [
        | inl y ↦ grind (
          int_laws,
          keeps r,
          total-insert (held_by j) id w' w db.withdrawals e,
          lookup-insert j w.user_id (set r) db.balances,
        )
        | inr n ↦ grind (
          int_laws,
          total-insert (held_by j) id w' w db.withdrawals e,
          lookup-insert j w.user_id (set r) db.balances,
        )
      ]
    ]

-- A request for a withdrawal keeps every user's pending withdrawals covered by reserved money.
pub create_withdrawal-IsBacked :
    (id u : ℕ) (a : ℤ) (db : Db) → IsBacked db → IsBacked (create_withdrawal id u a db).1
create_withdrawal-IsBacked id u a db h = elim (Result-cases (create_withdrawal id u a db).0) [
  | inr (e, q) ↦ subst IsBacked (sym (create_withdrawal_atomic id u a db q)) h
  | inl (v, q) ↦
      let (old, c) = create_withdrawal-Created id u a db q in
      subst IsBacked (sym c.result) (record {
        amounts =
            insert-AreAmounts id (pending_row u a) db.withdrawals (omega (arith, c.positive))
              h.amounts;
        backed = λ j. created_backed db id u j a old c.row c.fresh (h.backed j);
      })
]

Reviewed-IsBacked :
    (s : WithdrawalStatus) (set : ℤ → BalanceRow → BalanceRow) (id admin now : ℕ) (db db' : Db)
    (w : WithdrawalRow)
    → s ≢ WithdrawalStatus.pending
    → ((a : ℤ) (r : BalanceRow) → r.reserved -ℤ a ≤ℤ (set a r).reserved)
    → IsBacked db
    → Reviewed s set id admin now db db' w
    → IsBacked db'
Reviewed-IsBacked s set id admin now db db' w final keeps h c =
    let z = lookup-AreAmounts id w db.withdrawals h.amounts c.row in
    subst IsBacked (sym c.result) (record {
      amounts = insert-AreAmounts id (reviewed_row s admin now w) db.withdrawals z h.amounts;
      backed = λ j.
          reviewed_backed db id j w (reviewed_row s admin now w) (set w.amount) (keeps w.amount)
            c.row c.was_pending final z (h.backed j);
    })

-- An approval keeps every user's pending withdrawals covered by reserved money.
pub approve_withdrawal-IsBacked :
    (id admin now : ℕ) (db : Db) → IsBacked db → IsBacked (approve_withdrawal id admin now db).1
approve_withdrawal-IsBacked id admin now db h =
    elim (Result-cases (approve_withdrawal id admin now db).0) [
      | inr (e, q) ↦ subst IsBacked (sym (approve_withdrawal_atomic id admin now db q)) h
      | inl (v, q) ↦
          let (w, c, _) = approve_withdrawal-Reviewed id admin now db q in
          Reviewed-IsBacked WithdrawalStatus.approved spend_row id admin now db _ w (λ y. cc)
            (λ a r. ground arith) h c
    ]

-- A rejection keeps every user's pending withdrawals covered by reserved money.
pub reject_withdrawal-IsBacked :
    (id admin now : ℕ) (db : Db) → IsBacked db → IsBacked (reject_withdrawal id admin now db).1
reject_withdrawal-IsBacked id admin now db h =
    elim (Result-cases (reject_withdrawal id admin now db).0) [
      | inr (e, q) ↦ subst IsBacked (sym (reject_withdrawal_atomic id admin now db q)) h
      | inl (v, q) ↦
          let (w, c, _) = reject_withdrawal-Reviewed id admin now db q in
          Reviewed-IsBacked WithdrawalStatus.rejected release_row id admin now db _ w (λ y. cc)
            (λ a r. ground arith) h c
    ]
