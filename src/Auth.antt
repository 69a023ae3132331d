-- ===== src/Auth.antt =====
-- api/crates/auth/src/lib.rs: the tokens that `JwtService` issues and verifies, and `PasswordService`.
-- A text is the list of its bytes here. Base64, serde_json, HMAC-SHA-256, the texts of UUIDs and
-- Argon2 are parameters.
pub mod Equality
pub mod Tokens
use Prim.Native.Nat.{bit_or, bit_xor}
use w16crypto_engine.Common.Error.{Result, AppError, err, ok, Part, and_then}
use w16crypto_engine.Base.{
  ◌==◌, if◌then◌else◌, length, ℤ, ◌+ℤ◌, ltb_ℤ, ℕ, String, Bool, false, not, Option, none, some,
  List, [], ◌∷◌, ◌++◌,
}

pub record Claims : Type 0 where
  pub sub : List ℕ
  pub iat : ℤ
  pub exp : ℤ
  pub is_admin : Bool

pub record JwtService : Type 0 where
  pub secret : List ℕ
  pub ttl_secs : ℤ

-- What the tokens are made with; `none` is an error.
pub record Crypto : Type 0 where
  pub encode : List ℕ → List ℕ
  pub decode : List ℕ → Option (List ℕ)
  pub mac : List ℕ → List ℕ → Option (List ℕ)
  pub to_vec : Claims → Option (List ℕ)
  pub from_slice : List ℕ → Option Claims
  pub show_uuid : ℕ → List ℕ
  pub parse_uuid : List ℕ → Option ℕ

-- `{"alg":"HS256","typ":"JWT"}`
abbrev pub jwt_header : List ℕ
jwt_header =
    b'{' ∷ 34 ∷ b'a' ∷ b'l' ∷ b'g' ∷ 34 ∷ b':' ∷ 34 ∷ b'H' ∷ b'S' ∷ b'2' ∷ b'5' ∷ b'6' ∷ 34 ∷ b','
    ∷ 34 ∷ b't' ∷ b'y' ∷ b'p' ∷ 34 ∷ b':' ∷ 34 ∷ b'J' ∷ b'W' ∷ b'T' ∷ 34 ∷ b'}' ∷ []

abbrev pub dot : ℕ
dot = 46

-- The fold of `constant_eq` over the pairs of bytes.
unfoldable pub differences : List ℕ → List ℕ → ℕ → ℕ
differences [] ys acc = acc
differences (x ∷ xs) [] acc = acc
differences (x ∷ xs) (y ∷ ys) acc = differences xs ys (bit_or acc (bit_xor x y))

unfoldable pub constant_eq : List ℕ → List ℕ → Bool
unfolding differences
constant_eq a b = if not (length a == length b) then false else differences a b 0 == 0

-- The bytes before the first dot, and those after it, if there is one.
unfoldable pub split_dot : List ℕ → List ℕ × Option (List ℕ)
split_dot [] = ([], none)
split_dot (c ∷ cs) =
    let (before, after) = split_dot cs in if c == dot then ([], some cs) else (c ∷ before, after)

abbrev pub second_part : List ℕ → List ℕ × Option (List ℕ) → Option (List ℕ × List ℕ × List ℕ)
second_part a (b, none) = none
second_part a (b, some c) = some (a, b, c)

abbrev pub first_part : List ℕ × Option (List ℕ) → Option (List ℕ × List ℕ × List ℕ)
first_part (a, none) = none
first_part (a, some rest) = second_part a (split_dot rest)

-- `splitn(3, '.')`, if there are three parts.
unfoldable pub three_parts : List ℕ → Option (List ℕ × List ℕ × List ℕ)
unfolding split_dot
three_parts token = first_part (split_dot token)

abbrev pub or_error : {A : Type 0} → Option A → AppError → Result A
or_error none e = err e
or_error (some a) e = ok a

-- The text that a library gives its error is left out of the message.
abbrev pub failed_with : String → AppError
failed_with s = AppError.internal (Part.text s ∷ [])

module _ (k : Crypto) where
  open k use {encode, decode, mac, to_vec, from_slice, show_uuid, parse_uuid}

  -- `Claims::user_id`
  unfoldable pub claims_user : Claims → Result ℕ
  claims_user c = or_error (parse_uuid c.sub) AppError.unauthorized

  abbrev pub is_expired : ℤ → Claims → Bool
  is_expired now c = ltb_ℤ c.exp now

  unfoldable pub sign : JwtService → List ℕ → Result (List ℕ)
  sign s input =
      and_then (or_error (mac s.secret input) (failed_with "hmac init failed"))
        λ result. ok (encode result)

  abbrev pub claims_at : JwtService → ℤ → ℕ → Bool → Claims
  claims_at s now user admin = record {
    sub = show_uuid user;
    iat = now;
    exp = now +ℤ s.ttl_secs;
    is_admin = admin;
  }

  -- `now` is the time in seconds; the time to live does not carry it out of `chrono`'s range.
  unfoldable pub issue : JwtService → ℤ → ℕ → Bool → Result (List ℕ)
  unfolding sign
  issue s now user admin =
      and_then (or_error (to_vec (claims_at s now user admin)) (failed_with "serialize")) λ bytes.
        let input = encode jwt_header ++ dot ∷ encode bytes in
        and_then (sign s input) λ sig. ok (input ++ dot ∷ sig)

  -- What follows the comparison of the signatures.
  unfoldable pub read_claims : ℤ → List ℕ → Result Claims
  read_claims now payload = and_then (or_error (decode payload) AppError.unauthorized) λ bytes.
      and_then (or_error (from_slice bytes) AppError.unauthorized)
        λ claims. if is_expired now claims then err AppError.unauthorized else ok claims

  abbrev pub verify_parts : JwtService → ℤ → Option (List ℕ × List ℕ × List ℕ) → Result Claims
  verify_parts s now none = err AppError.unauthorized
  verify_parts s now (some (header, payload, sig)) =
      and_then (sign s (header ++ dot ∷ payload)) λ expected.
        if not (constant_eq sig expected)
        then err AppError.unauthorized
        else read_claims now payload

  unfoldable pub verify : JwtService → ℤ → List ℕ → Result Claims
  unfolding sign read_claims three_parts
  verify s now token = verify_parts s now (three_parts token)

-- `PasswordService`: what Argon2 makes of a password and a salt, whether a text is one of its hashes,
-- and whether a password fits one.
pub record Hashing : Type 0 where
  pub hash_password : ℕ → String → Option String
  pub is_hash : String → Bool
  pub is_match : String → String → Bool

module _ (h : Hashing) where
  open h use {hash_password, is_hash, is_match}

  unfoldable pub hash : ℕ → String → Result String
  hash salt password = or_error (hash_password salt password) (failed_with "password hash failed")

  unfoldable pub verify_password : String → String → Result Unit
  verify_password password stored =
      if not (is_hash stored)
      then err (failed_with "invalid hash")
      else if is_match password stored
      then ok tt
      else err AppError.unauthorized
