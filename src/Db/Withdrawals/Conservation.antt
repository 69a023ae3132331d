-- ===== src/Db/Withdrawals/Conservation.antt =====
-- What the withdrawals do to the money as a whole.
use w16crypto_engine.Db.Withdrawals.Pending.{held_by, lookup-AreAmounts, held_by-le-pending_of}
use w16crypto_engine.Db.Withdrawals.Outcomes.{
  updated, Reviewed, create_withdrawal_atomic, create_withdrawal-Created, approve_withdrawal_atomic,
  approve_withdrawal-Reviewed, reject_withdrawal_atomic, reject_withdrawal-Reviewed,
}
use w16crypto_engine.Db.Balances.{reserve_row, release_row, spend_row}
use w16crypto_engine.Db.Balances.Funds.{funds, row_value, reserved_of}
use w16crypto_engine.Db.Withdrawals.{
  create_withdrawal, approve_withdrawal, reject_withdrawal, pending_row, reviewed_row,
}
use w16crypto_engine.Db.Withdrawals.Backing.{IsBacked}
use w16crypto_engine.Db.State.{Db, WithdrawalStatus, BalanceRow, WithdrawalRow, Result-cases}
use w16crypto_engine.Base.{
  ℕ, ℤ, if◌then◌else◌, pos, ◌+ℤ◌, int_laws, Table, lookup, insert, total, total-insert,
  total-insert_new, ◌≡◌, Bool, true, false, none, some, Option-cases, ◌≤ℤ◌, ◌≢◌, inl, inr, arith,
  refl, ap, ◌∙◌,
}
use w16crypto_engine.Db.Withdrawals.Lifecycle.{
  Step, Reach, create, approve, reject, here, next, Reach-IsBacked,
}

abbrev is_approved : WithdrawalStatus → Bool
is_approved WithdrawalStatus.approved = true
is_approved _ = false

-- What a withdrawal has paid out.
unfoldable pub paid_by : WithdrawalRow → ℤ
paid_by w = if is_approved w.status then w.amount else pos 0

-- What the approved withdrawals have paid out, together.
abbrev pub paid_out : Table WithdrawalRow → ℤ
paid_out = total paid_by

-- The money that is still in the accounts and the money that has left them.
abbrev pub accounted : Db → ℤ
accounted db = funds db.balances +ℤ paid_out db.withdrawals

exchange : (t' t new old d : ℤ) → t' +ℤ old ≡ t +ℤ new → new +ℤ d ≡ old → t' +ℤ d ≡ t
exchange t' t new old d h k = grind int_laws

rebalance : (f' f p' p x y : ℤ) → f' +ℤ x ≡ f → p' +ℤ y ≡ p +ℤ x → y ≡ pos 0 → f' +ℤ p' ≡ f +ℤ p
rebalance f' f p' p x y h k z = grind int_laws

-- A write that takes `d` from a row that has at least `a` reserved, where `d` is 0 or `a`.
funds-updated :
    (db : Db) (u : ℕ) (set : BalanceRow → BalanceRow) (a d : ℤ)
    → ((r : BalanceRow) → a ≤ℤ r.reserved → row_value (set r) +ℤ d ≡ row_value r)
    → pos 0 ≤ℤ d
    → d ≤ℤ a
    → a ≤ℤ reserved_of u db
    → funds (updated u set db.balances) +ℤ d ≡ funds db.balances
funds-updated db u set a d v z le h = elim (Option-cases (lookup u db.balances)) [
  | inl absent ↦ let z' : a ≤ℤ pos 0 = rw absent at h in rw (absent, updated) (omega int_laws)
  | inr (r, e) ↦
      let h' : a ≤ℤ r.reserved = rw e at h in
      rw (e, updated)
        (exchange _ _ _ _ d (total-insert row_value u (set r) r db.balances e) (v r h'))
]

created_accounted :
    (db : Db) (id u : ℕ) (a : ℤ) (old : BalanceRow)
    → lookup u db.balances ≡ some old
    → lookup id db.withdrawals ≡ none
    → funds (insert u (reserve_row a old) db.balances)
        +ℤ paid_out (insert id (pending_row u a) db.withdrawals)
      ≡ accounted db
unfolding paid_by
created_accounted db id u a old e f = grind (
  int_laws,
  total-insert row_value u (reserve_row a old) old db.balances e,
  total-insert_new paid_by id (pending_row u a) db.withdrawals f,
)

Reviewed-accounted :
    (s : WithdrawalStatus) (set : ℤ → BalanceRow → BalanceRow) (id admin now : ℕ) (db db' : Db)
    (w : WithdrawalRow)
    → s ≢ WithdrawalStatus.pending
    → ((r : BalanceRow)
        → w.amount ≤ℤ r.reserved
        → row_value (set w.amount r) +ℤ paid_by (reviewed_row s admin now w) ≡ row_value r)
    → IsBacked db
    → Reviewed s set id admin now db db' w
    → accounted db' ≡ accounted db
unfolding paid_by held_by
Reviewed-accounted s set id admin now db db' w final v h c =
    let z = lookup-AreAmounts id w db.withdrawals h.amounts c.row in
    let le : held_by w.user_id w ≤ℤ reserved_of w.user_id db = omega (
      arith,
      held_by-le-pending_of w.user_id id w db.withdrawals h.amounts c.row,
      h.backed w.user_id,
    ) in
    let le' : w.amount ≤ℤ reserved_of w.user_id db = ground (arith, le, c.was_pending) in
    let unpaid : paid_by w ≡ pos 0 = rw c.was_pending in
    let f =
      funds-updated db w.user_id (set w.amount) w.amount (paid_by (reviewed_row s admin now w)) v
        (ground arith) (ground arith) le' in
    let p = total-insert paid_by id (reviewed_row s admin now w) w db.withdrawals c.row in
    rw c.result (rebalance _ _ _ _ _ _ f p unpaid)

spent_value :
    (w : WithdrawalRow) (admin now : ℕ) (r : BalanceRow)
    → w.amount ≤ℤ r.reserved
    → row_value (spend_row w.amount r)
        +ℤ paid_by (reviewed_row WithdrawalStatus.approved admin now w)
      ≡ row_value r
unfolding paid_by
spent_value w admin now r h = grind int_laws

released_value :
    (w : WithdrawalRow) (admin now : ℕ) (r : BalanceRow)
    → w.amount ≤ℤ r.reserved
    → row_value (release_row w.amount r)
        +ℤ paid_by (reviewed_row WithdrawalStatus.rejected admin now w)
      ≡ row_value r
unfolding paid_by
released_value w admin now r h = grind int_laws

Step-accounted : {db db' : Db} → Step db db' → IsBacked db → accounted db' ≡ accounted db
Step-accounted {db} (create id u a) h = elim (Result-cases (create_withdrawal id u a db).0) [
  | inr (e, q) ↦ ap accounted (create_withdrawal_atomic id u a db q)
  | inl (v, q) ↦
      let (old, c) = create_withdrawal-Created id u a db q in
      ap accounted c.result ∙ created_accounted db id u a old c.row c.fresh
]
Step-accounted {db} (approve id admin now) h =
    elim (Result-cases (approve_withdrawal id admin now db).0) [
      | inr (e, q) ↦ ap accounted (approve_withdrawal_atomic id admin now db q)
      | inl (v, q) ↦
          let (w, c, _) = approve_withdrawal-Reviewed id admin now db q in
          Reviewed-accounted WithdrawalStatus.approved spend_row id admin now db _ w (λ y. cc)
            (spent_value w admin now) h c
    ]
Step-accounted {db} (reject id admin now) h =
    elim (Result-cases (reject_withdrawal id admin now db).0) [
      | inr (e, q) ↦ ap accounted (reject_withdrawal_atomic id admin now db q)
      | inl (v, q) ↦
          let (w, c, _) = reject_withdrawal-Reviewed id admin now db q in
          Reviewed-accounted WithdrawalStatus.rejected release_row id admin now db _ w (λ y. cc)
            (released_value w admin now) h c
    ]

-- From tables in which every user's reserved money covers the user's pending withdrawals, none of a
-- negative amount, no sequence of requests, approvals and rejections makes or loses money: what the
-- users hold and what the approved withdrawals have paid out add up to the same.
pub Reach-accounted : {db db' : Db} → IsBacked db → Reach db db' → accounted db' ≡ accounted db
Reach-accounted h here = refl
Reach-accounted h (next r s) = Step-accounted s (Reach-IsBacked h r) ∙ Reach-accounted h r
