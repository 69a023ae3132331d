-- ===== src/Db/Users.antt =====
-- api/crates/db/src/users.rs: the users and the audit log.
use w16crypto_engine.Common.Error.{ok, err, AppError, Fault, Part}
use w16crypto_engine.Db.State.{UserRow, Call, or_fail}
use w16crypto_engine.Base.{
  ℕ, if◌then◌else◌, Table, lookup, contains, insert, String, Bool, true, false, Option, none, some,
  [], ◌∷◌, ◌++◌,
}
use text.Mathlib.Text.{◌==◌ as str_eq}

-- The row with an e-mail address, with its id.
unfoldable pub find_email : String → Table UserRow → Option (ℕ × UserRow)
find_email email [] = none
find_email email ((i, r) ∷ t) = if str_eq email r.email then some (i, r) else find_email email t

-- INSERT INTO users (email, password_hash) … RETURNING id, under a key that the server draws:
-- `email` is UNIQUE.
unfoldable pub insert_user : ℕ → String → String → Call ℕ
insert_user id email hash db = elim (find_email email db.users) [
  | some _ ↦ (err (AppError.database Fault.unique_violation), db)
  | none ↦ if contains id db.users then (err (AppError.database Fault.unique_violation), db) else (
    ok id,
    record db {
      users = insert id (record { email = email; password_hash = hash; is_admin = false }) db.users;
    },
  )
]

unfoldable pub get_user_by_email : String → Call (ℕ × UserRow)
get_user_by_email email db =
    or_fail (find_email email db.users)
      (AppError.not_found (Part.text "user " ∷ Part.text email ∷ [])) db

unfoldable pub get_user_by_id : ℕ → Call UserRow
get_user_by_id id db =
    or_fail (lookup id db.users) (AppError.not_found (Part.text "user " ∷ Part.uuid id ∷ [])) db

-- The audit log's `user_id` refers to a user.
abbrev known_user : Option ℕ → Table UserRow → Bool
known_user none t = true
known_user (some u) t = contains u t

unfoldable pub audit : Option ℕ → String → String → Option ℕ → Call Unit
audit u action entity entity_id db =
    if known_user u db.users
    then (
      ok tt,
      record db {
        audit_log =
            db.audit_log
            ++ (record { user_id = u; action = action; entity = entity; entity_id = entity_id })
              ∷ [];
      },
    )
    else (err (AppError.database Fault.foreign_key), db)
