-- ===== src/Http/Withdrawals/Safety.antt =====
-- The withdrawals' invariants hold behind the handlers as well.
use w16crypto_engine.Db.Balances.Funds.{funds}
use w16crypto_engine.Common.Error.{Result, ok, err}
use w16crypto_engine.Db.Withdrawals.Pending.{AreAmounts}
use w16crypto_engine.Db.Withdrawals.Conservation.{accounted, paid_out, Reach-accounted}
use w16crypto_engine.Db.Withdrawals.Lifecycle.{
  Reach, here, Step, create, Reach-IsBacked, approve, reject, next,
}
use w16crypto_engine.Db.Withdrawals.Backing.{IsBacked}
use w16crypto_engine.Http.Withdrawals.{
  request, approve_request, reject_request, create_withdrawal, approve_withdrawal,
  reject_withdrawal, requested, approved_by, rejected_by, withdrawal_units,
}
use w16crypto_engine.Db.State.{Db, Keeps, ◌>>=◌, ◌>>◌, Call, pure, >>=-Keeps, continue}
use w16crypto_engine.Db.Users.{audit}
use w16crypto_engine.Http.{Web, AuthContext, respond}
use w16crypto_engine.Base.{
  ℕ, String, Option, arith, ◌+ℤ◌, total, ◌≡◌, refl, sym, ap, subst, ◌∙◌, some, Bool-cases,
  Option-cases, ℤ, pos, ltb_ℤ, ◌⊎◌, inl, inr,
}

audit-Keeps :
    (u : Option ℕ) (action entity : String) (id : Option ℕ)
    → Keeps (λ d. d.withdrawals) (audit u action entity id)
unfolding audit
audit-Keeps u action entity id db = ground arith

audit-balances :
    (u : Option ℕ) (action entity : String) (id : Option ℕ)
    → Keeps (λ d. d.balances) (audit u action entity id)
unfolding audit
audit-balances u action entity id db = ground arith

module _ (w : Web) where
  -- A request to the handlers, by anyone.
  pub data HttpStep (db : Db) : Db → Type 0 where
    asking :
        (a : AuthContext) (id : ℕ) (amount : w.Float) → HttpStep db (request w a id amount db).1
    approving : (a : AuthContext) (id now : ℕ) → HttpStep db (approve_request w a id now db).1
    rejecting : (a : AuthContext) (id now : ℕ) → HttpStep db (reject_request w a id now db).1

  pub data HttpReach (db : Db) : Db → Type 0 where
    arrived : HttpReach db db
    then_next : {db₁ db₂ : Db} → HttpReach db db₁ → HttpStep db₁ db₂ → HttpReach db db₂

-- What a handler has done to the money and the withdrawals: what some calls of the database do.
abbrev Refines : Db → Db → Type 0
Refines db db' =
    (db₁ : Db) × Reach db db₁ × (db'.withdrawals ≡ db₁.withdrawals) × (db'.balances ≡ db₁.balances)

refused : (db : Db) → Refines db db
refused db = (db, here, refl, refl)

-- A call of the machine, and then an audit and an answer.
Refines-step :
    {A B : Type 0} (m : Call A) (k : A → Call B) (db : Db)
    → Step db (m db).1
    → ((a : A) → Keeps (λ d. d.withdrawals) (k a))
    → ((a : A) → Keeps (λ d. d.balances) (k a))
    → Refines db ((m >>= k) db).1
Refines-step {A} m k db s p q = ((m db).1, next here s, rows (m db), money (m db))
  where
    rows : (x : Result A × Db) → (continue k x).1.withdrawals ≡ x.1.withdrawals
    rows (ok a, db') = p a db'
    rows (err e, db') = refl

    money : (x : Result A × Db) → (continue k x).1.balances ≡ x.1.balances
    money (ok a, db') = q a db'
    money (err e, db') = refl

closing_withdrawals :
    {B : Type 0} (u : Option ℕ) (action : String) (id : ℕ) (b : B)
    → Keeps (λ d. d.withdrawals) (audit u action "withdrawal" (some id) >> pure b)
closing_withdrawals u action id b =
    >>=-Keeps (λ d. d.withdrawals) (audit u action "withdrawal" (some id)) (λ _. pure b)
      (audit-Keeps u action "withdrawal" (some id)) (λ _ db. refl)

closing_balances :
    {B : Type 0} (u : Option ℕ) (action : String) (id : ℕ) (b : B)
    → Keeps (λ d. d.balances) (audit u action "withdrawal" (some id) >> pure b)
closing_balances u action id b =
    >>=-Keeps (λ d. d.balances) (audit u action "withdrawal" (some id)) (λ _. pure b)
      (audit-balances u action "withdrawal" (some id)) (λ _ db. refl)

requested-Refines : (u id : ℕ) (n : ℤ) (db : Db) → Refines db (requested u id n db).1
unfolding requested
requested-Refines u id n db =
    Refines-step (create_withdrawal id u n)
      (λ row. audit (some u) "request_withdrawal" "withdrawal" (some id) >> respond 201 row) db
      (create id u n)
      (λ row.
        closing_withdrawals (some u) "request_withdrawal" id (record { status = 201; body = row }))
      (λ row.
        closing_balances (some u) "request_withdrawal" id (record { status = 201; body = row }))

approved_by-Refines : (u id now : ℕ) (db : Db) → Refines db (approved_by u id now db).1
unfolding approved_by
approved_by-Refines u id now db =
    Refines-step (approve_withdrawal id u now)
      (λ row. audit (some u) "approve_withdrawal" "withdrawal" (some id) >> respond 200 row) db
      (approve id u now)
      (λ row.
        closing_withdrawals (some u) "approve_withdrawal" id (record { status = 200; body = row }))
      (λ row.
        closing_balances (some u) "approve_withdrawal" id (record { status = 200; body = row }))

rejected_by-Refines : (u id now : ℕ) (db : Db) → Refines db (rejected_by u id now db).1
unfolding rejected_by
rejected_by-Refines u id now db =
    Refines-step (reject_withdrawal id u now)
      (λ row. audit (some u) "reject_withdrawal" "withdrawal" (some id) >> respond 200 row) db
      (reject id u now)
      (λ row.
        closing_withdrawals (some u) "reject_withdrawal" id (record { status = 200; body = row }))
      (λ row.
        closing_balances (some u) "reject_withdrawal" id (record { status = 200; body = row }))

-- A handler is refused before the database is called, or it ends with one of the three above.
abbrev Ends : {A : Type 0} → Db → (ℕ → Call A) → Result A × Db → Type 0
Ends db k out = (out.1 ≡ db) ⊎ ((u : ℕ) × (out ≡ k u db))

Ends-Refines :
    {A : Type 0} (db : Db) (k : ℕ → Call A) (out : Result A × Db)
    → ((u : ℕ) → Refines db (k u db).1)
    → Ends db k out
    → Refines db out.1
Ends-Refines db k out h (inl same) = subst (Refines db) (sym same) (refused db)
Ends-Refines db k out h (inr (u, e)) = subst (Refines db) (sym (ap (λ x. x.1) e)) (h u)

module _ (w : Web) where
  request-Ends :
      (a : AuthContext) (id : ℕ) (x : w.Float) (db : Db)
      → Ends db (λ u. requested u id (withdrawal_units w x)) (request w a id x db)
  unfolding request
  request-Ends a id x db = elim (Option-cases (w.parse_uuid a.user_id)) [
    | inl unknown ↦ inl (ground arith)
    | inr (u, e) ↦ elim (Bool-cases (w.is_le x (w.float_of 0))) [
      | inl low ↦ inl (ground arith)
      | inr high ↦ elim (Bool-cases (ltb_ℤ (pos 0) (withdrawal_units w x))) [
        | inl enough ↦ inr (u, ground arith)
        | inr small ↦ inl (ground arith)
      ]
    ]
  ]

  approve-Ends :
      (a : AuthContext) (id now : ℕ) (db : Db)
      → Ends db (λ u. approved_by u id now) (approve_request w a id now db)
  unfolding approve_request
  approve-Ends a id now db = elim (Option-cases (w.parse_uuid a.user_id)) [
    | inl unknown ↦ inl (ground arith)
    | inr (u, e) ↦ elim (Bool-cases a.is_admin) [
      | inl admin ↦ inr (u, ground arith)
      | inr other ↦ inl (ground arith)
    ]
  ]

  reject-Ends :
      (a : AuthContext) (id now : ℕ) (db : Db)
      → Ends db (λ u. rejected_by u id now) (reject_request w a id now db)
  unfolding reject_request
  reject-Ends a id now db = elim (Option-cases (w.parse_uuid a.user_id)) [
    | inl unknown ↦ inl (ground arith)
    | inr (u, e) ↦ elim (Bool-cases a.is_admin) [
      | inl admin ↦ inr (u, ground arith)
      | inr other ↦ inl (ground arith)
    ]
  ]

  HttpStep-Refines : {db db' : Db} → HttpStep w db db' → Refines db db'
  HttpStep-Refines {db} (asking a id x) =
      Ends-Refines db (λ u. requested u id (withdrawal_units w x)) (request w a id x db)
        (λ u. requested-Refines u id (withdrawal_units w x) db) (request-Ends a id x db)
  HttpStep-Refines {db} (approving a id now) =
      Ends-Refines db (λ u. approved_by u id now) (approve_request w a id now db)
        (λ u. approved_by-Refines u id now db) (approve-Ends a id now db)
  HttpStep-Refines {db} (rejecting a id now) =
      Ends-Refines db (λ u. rejected_by u id now) (reject_request w a id now db)
        (λ u. rejected_by-Refines u id now db) (reject-Ends a id now db)

same-IsBacked :
    (db db' : Db)
    → db'.withdrawals ≡ db.withdrawals
    → db'.balances ≡ db.balances
    → IsBacked db
    → IsBacked db'
same-IsBacked db db' r b h = record {
  amounts = subst AreAmounts (sym r) h.amounts;
  backed = λ u. rw (r, b) (h.backed u);
}

module _ (w : Web) where
  -- If every user's reserved money covers the user's pending withdrawals, none of a negative amount,
  -- then through any requests to the three handlers, by anyone, this stays so, and the money held
  -- and paid out stays the same in total.
  pub HttpReach-safe :
      {db db' : Db}
      → IsBacked db
      → HttpReach w db db'
      → IsBacked db' × (accounted db' ≡ accounted db)
  HttpReach-safe h arrived = (h, refl)
  HttpReach-safe h (then_next {db₁} {db₂} r s) =
      let (backed, total) = HttpReach-safe h r in
      let (db₃, reach, rows, money) = HttpStep-Refines w s in
      (
        same-IsBacked db₃ db₂ rows money (Reach-IsBacked backed reach),
        ap (λ b. funds b +ℤ paid_out db₂.withdrawals) money
            ∙ ap (λ t. funds db₃.balances +ℤ paid_out t) rows
            ∙ Reach-accounted backed reach
            ∙ total,
      )
