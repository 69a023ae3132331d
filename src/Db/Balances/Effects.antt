-- ===== src/Db/Balances/Effects.antt =====
-- What each call on the balances does to the user's account, to the others and to the total.
use w16crypto_engine.Base.{
  ℕ, ℤ, ◌+ℤ◌, neg_ℤ, ◌≡◌, refl, ◌≢◌, Option, none, some, inl, inr, lookup, insert, lookup-insert,
  int_laws, arith, Option-cases, Bool-cases, pos, max_ℤ, ◌-ℤ◌, total-insert,
}
use w16crypto_engine.Common.Error.{Result, ok, err, Fault}
use w16crypto_engine.Db.State.{Db, BalanceRow}
use w16crypto_engine.Db.Balances.{
  reserve_balance, get_balance, commit_row, balance_fault, reserve_row, covers, credit_balance,
  release_reservation, release_row, new_row, credit_row,
}
use w16crypto_engine.Db.Balances.Funds.{funds, available_of, reserved_of, row_value}

-- What a call that began at `db` has done to `u`'s account: it failed and changed nothing, or it
-- moved the two amounts by `a` and `r`, the total by both, and no other account.
abbrev pub Moves : {A : Type 0} → Db → ℕ → ℤ → ℤ → Result A × Db → Type 0
Moves db u a r (ok _, db') =
    (available_of u db' ≡ available_of u db +ℤ a)
    × (reserved_of u db' ≡ reserved_of u db +ℤ r)
    × (funds db'.balances ≡ funds db.balances +ℤ (a +ℤ r))
    × ((j : ℕ) → j ≢ u → lookup j db'.balances ≡ lookup j db.balances)
Moves db u a r (err _, db') = db' ≡ db

pub insert-Moves :
    (db : Db) (u : ℕ) (r old : BalanceRow) (a b : ℤ)
    → lookup u db.balances ≡ some old
    → r.available ≡ old.available +ℤ a
    → r.reserved ≡ old.reserved +ℤ b
    → Moves {A = Unit {0}} db u a b (ok tt, record db { balances = insert u r db.balances })
insert-Moves db u r old a b h p q = (
  ground (arith, lookup-insert u u r db.balances),
  ground (arith, lookup-insert u u r db.balances),
  grind (int_laws, total-insert row_value u r old db.balances h),
  λ j ne. ground (arith, lookup-insert j u r db.balances),
)

commit_row-Moves :
    (db : Db) (u : ℕ) (r old : BalanceRow) (a b : ℤ) (f : Option Fault)
    → lookup u db.balances ≡ some old
    → r.available ≡ old.available +ℤ a
    → r.reserved ≡ old.reserved +ℤ b
    → Moves db u a b (commit_row u r f db)
commit_row-Moves db u r old a b none h p q = insert-Moves db u r old a b h p q
commit_row-Moves db u r old a b (some f) h p q = refl

-- A reservation moves its amount from what is available to what is reserved, or fails and changes
-- nothing.
pub reserve_balance-Moves :
    (u : ℕ) (a : ℤ) (db : Db) → Moves db u (neg_ℤ a) a (reserve_balance u a db)
unfolding reserve_balance get_balance
reserve_balance-Moves u a db = elim (Option-cases (lookup u db.balances)) [
  | inl absent ↦ ground arith
  | inr (old, e) ↦ elim (Bool-cases (covers a old)) [
    | inl t ↦ elim (Option-cases (balance_fault (reserve_row a old))) [
      | inl n ↦ ground (
        arith,
        insert-Moves db u (reserve_row a old) old (neg_ℤ a) a e (omega int_laws) (omega int_laws),
      )
      | inr (f, n) ↦ ground arith
    ]
    | inr t ↦ ground arith
  ]
]

-- A release for a user that has a row changes nothing, or adds its amount to what is available and
-- takes it from what is reserved, which stops at 0: then the total grows.
pub release_reservation-Moves :
    (u : ℕ) (a : ℤ) (db : Db) (old : BalanceRow)
    → lookup u db.balances ≡ some old
    → Moves db u a (max_ℤ (pos 0) (old.reserved -ℤ a) -ℤ old.reserved) (release_reservation u a db)
unfolding release_reservation
release_reservation-Moves u a db old e = elim (Option-cases (balance_fault (release_row a old))) [
  | inl n ↦ ground (
    arith,
    insert-Moves db u (release_row a old) old a (max_ℤ (pos 0) (old.reserved -ℤ a) -ℤ old.reserved)
        e refl (omega int_laws),
  )
  | inr (f, n) ↦ ground arith
]

-- A credit of a user that has a row adds its amount to what is available.
pub credit_balance-Moves :
    (u : ℕ) (a : ℤ) (db : Db) (old : BalanceRow)
    → lookup u db.balances ≡ some old
    → Moves db u a (pos 0) (credit_balance u a db)
unfolding credit_balance
credit_balance-Moves u a db old e = elim (Option-cases (balance_fault (new_row a))) [
  | inr (f, n) ↦ ground arith
  | inl m ↦ elim (Option-cases (balance_fault (credit_row a old))) [
    | inl n ↦
        ground (arith, insert-Moves db u (credit_row a old) old a (pos 0) e refl (omega int_laws))
    | inr (f, n) ↦ ground arith
  ]
]
