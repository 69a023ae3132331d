-- ===== src/Tests/Tokens.antt =====
-- A token of a small service: bytes are shifted past the dot for Base64, the claims are written as
-- five numbers and the subject, and the signature is the secret and the length of the input.
use w16crypto_engine.Auth.Equality.{constant_eq_iff}
use w16crypto_engine.Common.Error.{ok}
use w16crypto_engine.Auth.{
  jwt_header, issue, Claims, Crypto, JwtService, verify, dot, sign, constant_eq,
}
use w16crypto_engine.Auth.Tokens.{IsSigned, IsDotless, verify-IsSigned, verify-issue}
use w16crypto_engine.Base.{
  ◌-◌, ◌+ℤ◌, ◌==◌, length, ForAll, ℤ, pos, negsuc, ℕ, zero, suc, ◌+◌, ◌≡◌, refl, ap, Bool, true,
  false, Option, none, some, List, [], ◌∷◌, arith, ltb_ℤ, sym, ◌∙◌, ◌++◌, ◌↔◌,
}

abbrev shift : List ℕ → List ℕ
shift [] = []
shift (x ∷ xs) = (x + 47) ∷ shift xs

abbrev unshift : List ℕ → List ℕ
unshift [] = []
unshift (x ∷ xs) = (x - 47) ∷ unshift xs

abbrev written : ℤ → List ℕ → List ℕ
written (pos n) rest = 0 ∷ n ∷ rest
written (negsuc n) rest = 1 ∷ n ∷ rest

abbrev flag : Bool → ℕ
flag true = 1
flag false = 0

abbrev flatten : Claims → List ℕ
flatten c = flag c.is_admin ∷ written c.iat (written c.exp c.sub)

abbrev integer : ℕ → ℕ → ℤ
integer zero n = pos n
integer (suc s) n = negsuc n

abbrev parse : List ℕ → Option Claims
parse (a ∷ s ∷ n ∷ t ∷ m ∷ sub) =
    some record { sub = sub; iat = integer s n; exp = integer t m; is_admin = a == 1 }
parse _ = none

abbrev uuid_of : List ℕ → Option ℕ
uuid_of (n ∷ []) = some n
uuid_of _ = none

abbrev crypto : Crypto
crypto = record {
  encode = shift;
  decode = λ xs. some (unshift xs);
  mac = λ secret input. some (length input ∷ secret);
  to_vec = λ c. some (flatten c);
  from_slice = parse;
  show_uuid = λ n. n ∷ [];
  parse_uuid = uuid_of;
}

shift-IsDotless : (xs : List ℕ) → IsDotless (shift xs)
unfolding IsDotless ForAll
shift-IsDotless [] = tt
shift-IsDotless (x ∷ xs) = (ground arith, shift-IsDotless xs)

unshift-shift : (xs : List ℕ) → unshift (shift xs) ≡ xs
unshift-shift [] = refl
unshift-shift (x ∷ xs) = rw (unshift-shift xs) (ap (λ n. n ∷ xs) (omega arith))

abbrev claims : List ℕ → ℤ → ℤ → Bool → Claims
claims sub iat exp admin = record { sub = sub; iat = iat; exp = exp; is_admin = admin }

parse_flat :
    (sub : List ℕ) (a b : ℤ) (f : Bool)
    → parse (flatten (claims sub a b f)) ≡ some (claims sub a b f)
parse_flat sub (pos n) (pos m) true = refl
parse_flat sub (pos n) (pos m) false = refl
parse_flat sub (pos n) (negsuc m) true = refl
parse_flat sub (pos n) (negsuc m) false = refl
parse_flat sub (negsuc n) (pos m) true = refl
parse_flat sub (negsuc n) (pos m) false = refl
parse_flat sub (negsuc n) (negsuc m) true = refl
parse_flat sub (negsuc n) (negsuc m) false = refl

parse-to_vec : (c : Claims) (v : List ℕ) → crypto.to_vec c ≡ some v → crypto.from_slice v ≡ some c
parse-to_vec c v h =
    let same : flatten c ≡ v = cc in ap parse (sym same) ∙ parse_flat c.sub c.iat c.exp c.is_admin

abbrev service : JwtService
service = record { secret = 7 ∷ 9 ∷ []; ttl_secs = pos 60 }

abbrev payload : List ℕ
payload = 47 ∷ 47 ∷ 147 ∷ 47 ∷ 207 ∷ 52 ∷ []

abbrev token : List ℕ
token = (shift jwt_header ++ dot ∷ payload) ++ dot ∷ 81 ∷ 54 ∷ 56 ∷ []

issued : issue crypto service (pos 100) 5 false ≡ ok token
unfolding issue sign ◌+ℤ◌
issued = refl

verify-issue_example :
    verify crypto service (pos 160) token ≡ ok (claims (5 ∷ []) (pos 100) (pos 160) false)
unfolding ◌+ℤ◌
verify-issue_example =
    verify-issue crypto shift-IsDotless (λ xs. ap some (unshift-shift xs)) parse-to_vec service
      (pos 100) (pos 160) 5 false token issued

verify-IsSigned_example :
    IsSigned crypto service (pos 160) token (claims (5 ∷ []) (pos 100) (pos 160) false)
    × (ltb_ℤ (pos 160) (pos 160) ≡ false)
verify-IsSigned_example =
    verify-IsSigned crypto service (pos 160) token (claims (5 ∷ []) (pos 100) (pos 160) false)
      verify-issue_example

abbrev key : List ℕ
key = 1 ∷ 2 ∷ []

abbrev other_key : List ℕ
other_key = 1 ∷ 3 ∷ []

constant_eq_iff_example : (constant_eq key other_key ≡ true) ↔ (key ≡ other_key)
constant_eq_iff_example = constant_eq_iff key other_key
