-- ===== src/Settlement/Payouts.antt =====
-- What a settlement pays, to whom, and that it happens once.
use w16crypto_engine.Db.Markets.{pay_all}
use w16crypto_engine.Db.Balances.Funds.{funds, upsert_balance-funds}
use w16crypto_engine.Common.Error.{ok, AppError, Result, err}
use w16crypto_engine.Db.Positions.{PositionRow}
use w16crypto_engine.Common.Types.{Outcome}
use w16crypto_engine.Db.Balances.{upsert_balance}
use w16crypto_engine.Db.State.{Db, Result-cases, continue_ok, continue_err}
use w16crypto_engine.Settlement.{payouts_of}
use w16crypto_engine.Base.{
  ℕ, ℤ, pos, ◌+ℤ◌, ◌<ℤ◌, ◌≡◌, refl, inl, inr, List, [], ◌∷◌, arith, int_laws, +ℤ_zero, sym, ap, ◌∙◌,
}

-- When the outcome is No nobody is paid, the holders of short positions included.
pub payouts_of_no : (rows : List PositionRow) → payouts_of Outcome.no_outcome rows ≡ []
unfolding payouts_of
payouts_of_no [] = refl
payouts_of_no (r ∷ rs) = ground (arith, payouts_of_no rs)

-- Every amount that is paid is positive.
pub ArePositive : List (ℕ × ℤ) → Type 0
ArePositive [] = Unit
ArePositive ((_, a) ∷ ps) = (pos 0 <ℤ a) × ArePositive ps

pub payouts_of-ArePositive :
    (o : Outcome) (rows : List PositionRow) → ArePositive (payouts_of o rows)
unfolding payouts_of ArePositive
payouts_of-ArePositive o [] = tt
payouts_of-ArePositive Outcome.yes_outcome (r ∷ rs) =
    ground (arith, payouts_of-ArePositive Outcome.yes_outcome rs)
payouts_of-ArePositive Outcome.no_outcome (r ∷ rs) =
    ground (arith, payouts_of-ArePositive Outcome.no_outcome rs)

-- What the payouts come to, exactly.
unfoldable pub paid_total : List (ℕ × ℤ) → ℤ
paid_total [] = pos 0
paid_total ((_, a) ∷ ps) = a +ℤ paid_total ps

add_twice : (a b c : ℤ) → a +ℤ b +ℤ c ≡ a +ℤ (b +ℤ c)
add_twice a b c = omega int_laws

not_ok : {x : AppError} (r : Result Unit) → r ≡ err x → r ≡ ok tt → ⊥
not_ok r e h = cc

pub pay_all-funds :
    (ps : List (ℕ × ℤ)) (db : Db)
    → (pay_all ps db).0 ≡ ok tt
    → funds (pay_all ps db).1.balances ≡ funds db.balances +ℤ paid_total ps
unfolding pay_all paid_total
pay_all-funds [] db h = sym (+ℤ_zero (funds db.balances))
pay_all-funds ((u, a) ∷ ps) db h = elim (Result-cases (upsert_balance u a db).0) [
  | inl (n, e) ↦
      let db' = (upsert_balance u a db).1 in
      let step : pay_all ((u, a) ∷ ps) db ≡ pay_all ps db' =
        continue_ok (λ _. pay_all ps) (upsert_balance u a db) e in
      ap (λ x. funds x.1.balances) step
      ∙ pay_all-funds ps db' (sym (ap (λ x. x.0) step) ∙ h)
      ∙ ap (λ n. n +ℤ paid_total ps) (upsert_balance-funds u a db e)
      ∙ add_twice (funds db.balances) a (paid_total ps)
  | inr (x, e) ↦ absurd (
      not_ok (pay_all ((u, a) ∷ ps) db).0
        (ap (λ y. y.0) (continue_err (λ _. pay_all ps) (upsert_balance u a db) e)) h)
]
