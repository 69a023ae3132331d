-- ===== src/Db/Idempotency.antt =====
-- api/crates/db/src/idempotency.rs over the table of api/migrations/0002_idempotency_deposits.sql:
-- one row for each pair of user and key, with status 1 while its request runs and 2 after it.
pub mod Claims
pub mod Expiry
use w16crypto_engine.Common.Error.{ok, err, AppError, Fault}
use w16crypto_engine.Db.State.{Call, IdempotencyRow}
use w16crypto_engine.Base.{
  ℕ, if◌then◌else◌, contains, ◌+◌, String, Bool, ◌&&◌, Option, none, some, List, [], ◌∷◌, ◌==◌,
}
use text.Mathlib.Text.{◌==◌ as str_eq}

pub data IdempotencyStatus : Type 0 where
  fresh processing complete : IdempotencyStatus

abbrev pub is_row : ℕ → String → IdempotencyRow → Bool
is_row u key r = u == r.user_id && str_eq key r.key

unfoldable pub find_key : ℕ → String → List IdempotencyRow → Option IdempotencyRow
find_key u key [] = none
find_key u key (r ∷ rs) = if is_row u key r then some r else find_key u key rs

-- A key lives for 24 hours; nothing but the clean-up reads the date.
abbrev pub lifetime : ℕ
lifetime = 86400

unfoldable pub claim_idempotency_key : ℕ → String → ℕ → Call IdempotencyStatus
claim_idempotency_key u key now db = elim (find_key u key db.idempotency_keys) [
  | some r ↦
      (ok (if r.status == 2 then IdempotencyStatus.complete else IdempotencyStatus.processing), db)
  | none ↦
      if contains u db.users
      then (
        ok IdempotencyStatus.fresh,
        record db {
          idempotency_keys =
              (record {
                user_id = u;
                key = key;
                status = 1;
                response = none;
                expires_at = now + lifetime;
              })
              ∷ db.idempotency_keys;
        },
      )
      else (err (AppError.database Fault.foreign_key), db)
]

unfoldable pub completed : ℕ → String → String → List IdempotencyRow → List IdempotencyRow
completed u key response [] = []
completed u key response (r ∷ rs) =
    (if is_row u key r then record r { status = 2; response = some response } else r)
    ∷ completed u key response rs

unfoldable pub complete_idempotency_key : ℕ → String → String → Call Unit
unfolding completed
complete_idempotency_key u key response db =
    (ok tt, record db { idempotency_keys = completed u key response db.idempotency_keys })

-- … AND status = 2
abbrev pub stored_response : Option IdempotencyRow → Option String
stored_response none = none
stored_response (some r) = if r.status == 2 then r.response else none

unfoldable pub get_idempotency_response : ℕ → String → Call (Option String)
get_idempotency_response u key db = (ok (stored_response (find_key u key db.idempotency_keys)), db)
