-- ===== src/Db/Withdrawals/Finality.antt =====
-- A withdrawal is reviewed once.
use w16crypto_engine.Db.Withdrawals.Outcomes.{
  create_withdrawal_atomic, create_withdrawal-Created, approve_withdrawal_atomic,
  approve_withdrawal-Reviewed, reject_withdrawal_atomic, reject_withdrawal-Reviewed,
}
use w16crypto_engine.Db.Withdrawals.{
  create_withdrawal, approve_withdrawal, reject_withdrawal, pending_row, reviewed_row,
}
use w16crypto_engine.Db.State.{Db, WithdrawalStatus, WithdrawalRow, Result-cases}
use w16crypto_engine.Base.{
  ℕ, Table, lookup, insert, ◌≡◌, none, some, ◌≢◌, inl, inr, arith, lookup-insert_ne, ap, ◌∙◌,
}
use w16crypto_engine.Db.Withdrawals.Lifecycle.{Step, Reach, create, approve, reject, here, next}

-- A row under another key stays, and the key that was pending or free is another.
kept_under :
    (id k : ℕ) (w v : WithdrawalRow) (t : Table WithdrawalRow)
    → lookup id t ≡ some w
    → id ≢ k
    → lookup id (insert k v t) ≡ some w
kept_under id k w v t e ne = lookup-insert_ne id k v t ne ∙ e

taken :
    (id k : ℕ) (w : WithdrawalRow) (t : Table WithdrawalRow)
    → lookup id t ≡ some w
    → lookup k t ≡ none
    → id ≢ k
taken id k w t e n same = let n' : lookup id t ≡ none = rw same n in cc

other :
    (id k : ℕ) (w v : WithdrawalRow) (t : Table WithdrawalRow)
    → lookup id t ≡ some w
    → lookup k t ≡ some v
    → v.status ≡ WithdrawalStatus.pending
    → w.status ≢ WithdrawalStatus.pending
    → id ≢ k
other id k w v t e f p n same = n (let f' : lookup id t ≡ some v = rw same f in ground arith)

Step-final :
    {db db' : Db} (id : ℕ) (w : WithdrawalRow)
    → w.status ≢ WithdrawalStatus.pending
    → lookup id db.withdrawals ≡ some w
    → Step db db'
    → lookup id db'.withdrawals ≡ some w
Step-final {db} id w final e (create k u a) = elim (Result-cases (create_withdrawal k u a db).0) [
  | inr (x, q) ↦ ap (λ d. lookup id d.withdrawals) (create_withdrawal_atomic k u a db q) ∙ e
  | inl (v, q) ↦
      let (old, c) = create_withdrawal-Created k u a db q in
      ap (λ d. lookup id d.withdrawals) c.result
      ∙ kept_under id k w (pending_row u a) db.withdrawals e (taken id k w db.withdrawals e c.fresh)
]
Step-final {db} id w final e (approve k admin now) =
    elim (Result-cases (approve_withdrawal k admin now db).0) [
      | inr (x, q) ↦
          ap (λ d. lookup id d.withdrawals) (approve_withdrawal_atomic k admin now db q) ∙ e
      | inl (v, q) ↦
          let (old, c, _) = approve_withdrawal-Reviewed k admin now db q in
          ap (λ d. lookup id d.withdrawals) c.result
          ∙ kept_under id k w (reviewed_row WithdrawalStatus.approved admin now old) db.withdrawals
              e (other id k w old db.withdrawals e c.row c.was_pending final)
    ]
Step-final {db} id w final e (reject k admin now) =
    elim (Result-cases (reject_withdrawal k admin now db).0) [
      | inr (x, q) ↦
          ap (λ d. lookup id d.withdrawals) (reject_withdrawal_atomic k admin now db q) ∙ e
      | inl (v, q) ↦
          let (old, c, _) = reject_withdrawal-Reviewed k admin now db q in
          ap (λ d. lookup id d.withdrawals) c.result
          ∙ kept_under id k w (reviewed_row WithdrawalStatus.rejected admin now old) db.withdrawals
              e (other id k w old db.withdrawals e c.row c.was_pending final)
    ]

-- A withdrawal that is not pending any more stays as it is, whatever calls follow.
pub Reach-final :
    {db db' : Db} (id : ℕ) (w : WithdrawalRow)
    → w.status ≢ WithdrawalStatus.pending
    → lookup id db.withdrawals ≡ some w
    → Reach db db'
    → lookup id db'.withdrawals ≡ some w
Reach-final id w final e here = e
Reach-final id w final e (next r s) = Step-final id w final (Reach-final id w final e r) s
