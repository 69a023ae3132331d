-- ===== src/Http.antt =====
-- api/crates/api-http/src: who a request comes from, and what the handlers use of other crates.
pub mod Auth
pub mod Deposits
pub mod Withdrawals
pub mod Administration
pub mod Orders
use text.Mathlib.Text.{starts_with}
use Prim.Native.String.{len}
use w16crypto_engine.Common.Error.{AppError}
use w16crypto_engine.Db.State.{Call, pure, guard, or_fail}
use w16crypto_engine.Base.{
  ltb, if◌then◌else◌, ℤ, ℕ, zero, suc, String, Bool, true, false, Option, none, some, [],
}

-- The floats, uuid's parser and the text functions that the handlers call.
pub record Web : Type 1 where
  pub Float : Type 0
  pub float_of : ℕ → Float
  pub is_le : Float → Float → Bool
  pub mul : Float → Float → Float
  pub round : Float → Float
  pub as_i64 : Float → ℤ
  pub parse_uuid : String → Option ℕ
  pub trim : String → String
  pub to_lowercase : String → String

-- middleware/auth.rs: `AuthContext`
pub record AuthContext : Type 0 where
  pub user_id : String
  pub is_admin : Bool

-- `s.chars().take(n)` and `s.chars().skip(n)`, collected.
unfoldable pub take_chars : ℕ → String → String
take_chars zero s = String.[]
take_chars (suc n) String.[] = String.[]
take_chars (suc n) (String.◌∷◌ c s) = String.◌∷◌ c (take_chars n s)

unfoldable pub skip_chars : ℕ → String → String
skip_chars zero s = s
skip_chars (suc n) String.[] = String.[]
skip_chars (suc n) (String.◌∷◌ c s) = skip_chars n s

-- `auth_middleware`, from the token after `Bearer `; none is the answer 401.
unfoldable pub authenticate : Option String → Option AuthContext
unfolding take_chars skip_chars
authenticate none = none
authenticate (some token) =
    if starts_with token "admin_"
    then some (record { user_id = take_chars 36 (skip_chars 6 token); is_admin = true })
    else if ltb 10 (len token)
    then some (record { user_id = take_chars 36 token; is_admin = false })
    else none

-- `admin_middleware`: the status that it refuses with.
unfoldable pub admin_only : Option AuthContext → Option ℕ
admin_only none = some 401
admin_only (some a) = if a.is_admin then none else some 403

-- An HTTP status and a body.
pub record Response (A : Type 0) : Type 0 where
  pub status : ℕ
  pub body : A

abbrev pub respond : {A : Type 0} → ℕ → A → Call (Response A)
respond status body = pure (record { status = status; body = body })

-- The checks that the administrators' handlers begin with.
abbrev pub require_admin : AuthContext → Call Unit
require_admin a = guard a.is_admin AppError.forbidden

module _ (w : Web) where
  open w use {parse_uuid}

  abbrev pub user_of : AuthContext → Call ℕ
  user_of a = or_fail (parse_uuid a.user_id) AppError.unauthorized
