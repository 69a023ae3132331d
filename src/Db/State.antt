-- ===== src/Db/State.antt =====
-- The tables of api/migrations/*.sql as a record, and a database call as a function of it.
-- A key is its UUID's number. A statement that a constraint refuses gives a `database` error and
-- writes nothing.
use w16crypto_engine.Base.{
  ℕ, ℤ, Bool, Option, none, some, List, String, Table, if◌then◌else◌, ◌≡◌, refl, ◌⊎◌, inl, inr,
  arith, ◌∙◌,
}
use w16crypto_engine.Common.Types.{Market, Order, Fill}
use w16crypto_engine.Common.Error.{AppError, Fault, Result, ok, err}

pub record UserRow : Type 0 where
  pub email : String
  pub password_hash : String
  pub is_admin : Bool

-- A row of `balances`; Rust's `BalanceRow` has the first two columns.
pub record BalanceRow : Type 0 where
  pub available : ℤ
  pub reserved : ℤ
  pub version : ℕ

pub record PositionChange : Type 0 where
  pub fill_id : ℕ
  pub user_id : ℕ
  pub market_id : ℕ
  pub delta : ℤ

pub record AuditRow : Type 0 where
  pub user_id : Option ℕ
  pub action : String
  pub entity : String
  pub entity_id : Option ℕ

pub record DepositRow : Type 0 where
  pub user_id : ℕ
  pub amount : ℤ
  pub reference : String

pub data WithdrawalStatus : Type 0 where
  pending approved rejected : WithdrawalStatus

pub record WithdrawalRow : Type 0 where
  pub user_id : ℕ
  pub amount : ℤ
  pub status : WithdrawalStatus
  pub reviewed_by : Option ℕ
  pub reviewed_at : Option ℕ

pub record WithdrawalHold : Type 0 where
  pub user_id : ℕ
  pub amount : ℤ

pub record IdempotencyRow : Type 0 where
  pub user_id : ℕ
  pub key : String
  pub status : ℕ
  pub response : Option String
  pub expires_at : ℕ

pub record Db : Type 0 where
  pub users : Table UserRow
  pub balances : Table BalanceRow
  pub markets : Table Market
  pub orders : Table Order
  pub fills : Table Fill
  pub position_changes : List PositionChange
  pub audit_log : List AuditRow
  pub deposits : Table DepositRow
  pub withdrawals : Table WithdrawalRow
  pub withdrawal_holds : Table WithdrawalHold
  pub idempotency_keys : List IdempotencyRow
  pub engine_sequences : Table ℕ

-- A call: the result, and the tables after it, whether it failed or not.
abbrev pub Call : Type 0 → Type 0
Call A = Db → Result A × Db

abbrev pub pure : {A : Type 0} → A → Call A
pure a db = (ok a, db)

abbrev pub fail : {A : Type 0} → AppError → Call A
fail e db = (err e, db)

abbrev pub fault : {A : Type 0} → Fault → Call A
fault f = fail (AppError.database f)

-- A call goes on with its result, or ends with its error.
abbrev pub continue : {A B : Type 0} → (A → Call B) → Result A × Db → Result B × Db
continue f (ok a, db) = f a db
continue f (err e, db) = (err e, db)

infixl 5 ◌>>=◌ ◌>>◌
abbrev pub ◌>>=◌ : {A B : Type 0} → Call A → (A → Call B) → Call B
◌>>=◌ m f db = continue f (m db)

abbrev pub ◌>>◌ : {A B : Type 0} → Call A → Call B → Call B
m >> k = m >>= λ _. k

abbrev pub gets : {A : Type 0} → (Db → A) → Call A
gets f db = (ok (f db), db)

abbrev pub guard : Bool → AppError → Call (Unit {0})
guard b e db = (if b then ok tt else err e, db)

-- `ok_or_else`
abbrev pub or_fail : {A : Type 0} → Option A → AppError → Call A
or_fail none e = fail e
or_fail (some a) e = pure a

-- `tx.rollback()`: the tables are again as they were at `begin`.
abbrev pub rollback : Db → Call (Unit {0})
rollback before db = (ok tt, before)

-- What `tx.commit()` or the drop of the transaction makes of the body's end.
abbrev pub conclude : {A : Type 0} → Db → Result A × Db → Result A × Db
conclude before (ok a, db) = (ok a, db)
conclude before (err e, db) = (err e, before)

-- `pool.begin()` up to `tx.commit()`. The body gets the tables at `begin`; an error that leaves it
-- drops the transaction, which rolls it back.
abbrev pub transaction : {A : Type 0} → (Db → Call A) → Call A
transaction body db = conclude db (body db db)

-- A transaction that fails leaves the tables as they were.
pub transaction_atomic :
    {A : Type 0} (body : Db → Call A) (db : Db) {e : AppError}
    → (transaction body db).0 ≡ err e
    → (transaction body db).1 ≡ db
transaction_atomic body db h = ground arith

pub Result-cases :
    {A : Type 0} (r : Result A) → ((a : A) × (r ≡ ok a)) ⊎ ((e : AppError) × (r ≡ err e))
Result-cases (ok a) = inl (a, refl)
Result-cases (err e) = inr (e, refl)

-- A call that leaves a part of the tables as it is.
abbrev pub Keeps {ℓ} : {A : Type 0} {X : Type ℓ} → (Db → X) → Call A → Type ℓ
Keeps part m = (db : Db) → part (m db).1 ≡ part db

pub >>=-Keeps {ℓ} :
    {A B : Type 0} {X : Type ℓ} (part : Db → X) (m : Call A) (f : A → Call B)
    → Keeps part m
    → ((a : A) → Keeps part (f a))
    → Keeps part (m >>= f)
>>=-Keeps {A} part m f h k db = rest (m db) ∙ h db
  where
    rest : (x : Result A × Db) → part (continue f x).1 ≡ part x.1
    rest (ok a, db') = k a db'
    rest (err e, db') = refl

-- A transaction leaves alone what its body does.
pub transaction-Keeps {ℓ} :
    {A : Type 0} {X : Type ℓ} (part : Db → X) (body : Db → Call A)
    → ((before : Db) → Keeps part (body before))
    → Keeps part (transaction body)
transaction-Keeps {A} part body h db = end (body db db) (h db db)
  where
    end : (x : Result A × Db) → part x.1 ≡ part db → part (conclude db x).1 ≡ part db
    end (ok a, db') e = e
    end (err x, db') e = refl

pub continue_ok :
    {A B : Type 0} (f : A → Call B) (x : Result A × Db) {a : A}
    → x.0 ≡ ok a
    → continue f x ≡ f a x.1
continue_ok f (ok b, db) h = ground arith
continue_ok f (err e, db) h = cc

pub continue_err :
    {A B : Type 0} (f : A → Call B) (x : Result A × Db) {e : AppError}
    → x.0 ≡ err e
    → continue f x ≡ (err e, x.1)
continue_err f (ok b, db) h = cc
continue_err f (err y, db) h = ground arith

pub conclude_ok :
    {A : Type 0} (before : Db) (x : Result A × Db) {a : A}
    → (conclude before x).0 ≡ ok a
    → conclude before x ≡ x
conclude_ok before (ok b, db) h = refl
conclude_ok before (err e, db) h = cc

-- A call that goes on to a result had a result of its own, and what follows ran on it.
pub >>=-ok :
    {A B : Type 0} (m : Call A) (f : A → Call B) (db : Db) {b : B}
    → ((m >>= f) db).0 ≡ ok b
    → (a : A) × ((m db).0 ≡ ok a) × ((m >>= f) db ≡ f a (m db).1)
>>=-ok {A} m f db {b} h = split (m db) h
  where
    split :
        (x : Result A × Db)
        → (continue f x).0 ≡ ok b
        → (a : A) × (x.0 ≡ ok a) × (continue f x ≡ f a x.1)
    split (ok a, db') h = (a, refl, refl)
    split (err e, db') h = absurd (cc)
