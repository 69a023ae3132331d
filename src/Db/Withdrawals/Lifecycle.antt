-- ===== src/Db/Withdrawals/Lifecycle.antt =====
-- The life of a withdrawal as a step relation over the three calls, along which money stays backed.
use w16crypto_engine.Db.Withdrawals.{create_withdrawal, approve_withdrawal, reject_withdrawal}
use w16crypto_engine.Db.Withdrawals.Backing.{
  IsBacked, create_withdrawal-IsBacked, approve_withdrawal-IsBacked, reject_withdrawal-IsBacked,
}
use w16crypto_engine.Db.State.{Db}
use w16crypto_engine.Base.{ℕ, ℤ}

-- One call on the withdrawals, by anyone, at any time.
pub data Step (db : Db) : Db → Type 0 where
  create : (id u : ℕ) (a : ℤ) → Step db (create_withdrawal id u a db).1
  approve : (id admin now : ℕ) → Step db (approve_withdrawal id admin now db).1
  reject : (id admin now : ℕ) → Step db (reject_withdrawal id admin now db).1

pub data Reach (db : Db) : Db → Type 0 where
  here : Reach db db
  next : {db₁ db₂ : Db} → Reach db db₁ → Step db₁ db₂ → Reach db db₂

Step-IsBacked : {db db' : Db} → Step db db' → IsBacked db → IsBacked db'
Step-IsBacked {db} (create id u a) h = create_withdrawal-IsBacked id u a db h
Step-IsBacked {db} (approve id admin now) h = approve_withdrawal-IsBacked id admin now db h
Step-IsBacked {db} (reject id admin now) h = reject_withdrawal-IsBacked id admin now db h

-- If every user's reserved money covers the user's pending withdrawals, none of a negative amount,
-- it still does after any sequence of requests, approvals and rejections, failed ones included.
pub Reach-IsBacked : {db db' : Db} → IsBacked db → Reach db db' → IsBacked db'
Reach-IsBacked h here = h
Reach-IsBacked h (next r s) = Step-IsBacked s (Reach-IsBacked h r)
