-- ===== src/Auth/Tokens.antt =====
-- A token that is issued is verified until it expires, and only what the secret signs is verified.
use w16crypto_engine.Auth.Equality.{constant_eq_iff}
use w16crypto_engine.Auth.{
  three_parts, dot, split_dot, Crypto, first_part, second_part, verify, issue, JwtService,
  read_claims, sign, Claims, ok, err, AppError, claims_at, Result, jwt_header, is_expired,
  verify_parts, or_error, constant_eq, and_then,
}
use w16crypto_engine.Base.{
  ◌==◌, if◌then◌else◌, ==_iff, Bool-cases, Option-cases, ForAll, ℤ, ◌+ℤ◌, ltb_ℤ, ℕ, ◌≡◌, refl, ap,
  ◌∙◌, inl, inr, Bool, false, Option, none, some, List, [], ◌∷◌, ◌++◌, sym, subst,
}

-- No byte is a dot, as in Base64.
unfoldable pub IsDotless : List ℕ → Type 0
IsDotless xs = ForAll (λ c. (c == dot) ≡ false) xs

split_dot-append :
    (xs rest : List ℕ) → IsDotless xs → split_dot (xs ++ dot ∷ rest) ≡ (xs, some rest)
unfolding split_dot IsDotless ForAll
split_dot-append [] rest h = refl
split_dot-append (x ∷ xs) rest (plain, h) = rw (plain, split_dot-append xs rest h) refl

-- The parts of a token that has three.
Parts : List ℕ → Option (List ℕ × List ℕ × List ℕ) → Type 0
Parts token none = Unit
Parts token (some (a, b, c)) = token ≡ a ++ dot ∷ (b ++ dot ∷ c)

Halves : List ℕ → List ℕ × Option (List ℕ) → Type 0
Halves xs (a, none) = Unit
Halves xs (a, some rest) = xs ≡ a ++ dot ∷ rest

more_Halves :
    (x : ℕ) (xs : List ℕ) (p : List ℕ × Option (List ℕ))
    → Halves xs p
    → Halves (x ∷ xs) (x ∷ p.0, p.1)
unfolding Halves
more_Halves x xs (a, none) h = tt
more_Halves x xs (a, some rest) h = ap (λ ys. x ∷ ys) h

split_dot-Halves : (xs : List ℕ) → Halves xs (split_dot xs)
unfolding split_dot Halves
split_dot-Halves [] = tt
split_dot-Halves (x ∷ xs) = elim (Bool-cases (x == dot)) [
  | inl here ↦ rw here (ap (λ n. n ∷ xs) ((==_iff x dot).0 here))
  | inr later ↦ rw later (more_Halves x xs (split_dot xs) (split_dot-Halves xs))
]

second_Parts :
    (token a rest : List ℕ) (p : List ℕ × Option (List ℕ))
    → token ≡ a ++ dot ∷ rest
    → Halves rest p
    → Parts token (second_part a p)
unfolding Parts Halves
second_Parts token a rest (b, none) e h = tt
second_Parts token a rest (b, some c) e h = e ∙ ap (λ ys. a ++ dot ∷ ys) h

first_Parts :
    (token : List ℕ) (p : List ℕ × Option (List ℕ)) → Halves token p → Parts token (first_part p)
unfolding Parts Halves
first_Parts token (a, none) h = tt
first_Parts token (a, some rest) h =
    second_Parts token a rest (split_dot rest) h (split_dot-Halves rest)

three_parts-Parts : (token : List ℕ) → Parts token (three_parts token)
unfolding three_parts
three_parts-Parts token = first_Parts token (split_dot token) (split_dot-Halves token)

append_assoc_dot : (xs ys zs : List ℕ) → (xs ++ dot ∷ ys) ++ dot ∷ zs ≡ xs ++ dot ∷ (ys ++ dot ∷ zs)
append_assoc_dot [] ys zs = refl
append_assoc_dot (x ∷ xs) ys zs = ap (λ us. x ∷ us) (append_assoc_dot xs ys zs)

three_parts_lem :
    (a b c : List ℕ)
    → IsDotless a
    → IsDotless b
    → three_parts ((a ++ dot ∷ b) ++ dot ∷ c) ≡ some (a, b, c)
unfolding three_parts
three_parts_lem a b c ha hb =
    rw (append_assoc_dot a b c, split_dot-append a (b ++ dot ∷ c) ha, split_dot-append b c hb) refl

and_then-eq-ok :
    {A B : Type 0} (m : Result A) (f : A → Result B) {b : B}
    → and_then m f ≡ ok b
    → (a : A) × (m ≡ ok a) × (f a ≡ ok b)
and_then-eq-ok (ok a) f h = (a, refl, h)
and_then-eq-ok (err e) f h = cc

module _ (k : Crypto) where
  open k use {encode, decode, mac, to_vec, from_slice}

  verify_own :
      (s : JwtService) (now : ℤ) (a b c : List ℕ)
      → IsDotless a
      → IsDotless b
      → sign k s (a ++ dot ∷ b) ≡ ok c
      → verify k s now ((a ++ dot ∷ b) ++ dot ∷ c) ≡ read_claims k now b
  unfolding verify
  verify_own s now a b c ha hb signed =
      rw (three_parts_lem a b c ha hb, signed, (constant_eq_iff c c).1 refl) refl

  -- A token that is issued verifies as the claims that it was issued for until they expire, and is
  -- refused from then on. Base64 decodes what it encodes and writes no dot, and serde_json reads what
  -- it writes.
  pub verify-issue :
      ((xs : List ℕ) → IsDotless (encode xs))
      → ((xs : List ℕ) → decode (encode xs) ≡ some xs)
      → ((c : Claims) (v : List ℕ) → to_vec c ≡ some v → from_slice v ≡ some c)
      → (s : JwtService) (now later : ℤ) (user : ℕ) (admin : Bool) (token : List ℕ)
      → issue k s now user admin ≡ ok token
      → verify k s later token ≡ (
          if ltb_ℤ (now +ℤ s.ttl_secs) later
          then err AppError.unauthorized
          else ok (claims_at k s now user admin))
  unfolding issue read_claims
  verify-issue dotless trip json s now later user admin token issued =
      elim (Option-cases (to_vec (claims_at k s now user admin))) [
        | inl failed ↦ cc (rw failed at issued)
        | inr (v, written) ↦
            let (sig, signed, made) =
              and_then-eq-ok (sign k s (encode jwt_header ++ dot ∷ encode v)) _
                (rw written at issued) in
            let read : read_claims k later (encode v) ≡ (
                if ltb_ℤ (now +ℤ s.ttl_secs) later
                then err AppError.unauthorized
                else ok (claims_at k s now user admin)) =
              rw (trip v, json _ v written) refl in
            let whole : (encode jwt_header ++ dot ∷ encode v) ++ dot ∷ sig ≡ token = cc made in
            ap (verify k s later) (sym whole)
            ∙ (verify_own s later (encode jwt_header) (encode v) sig (dotless jwt_header)
                  (dotless v) signed
                ∙ read)
      ]

  read_claims-live :
      (now : ℤ) (payload : List ℕ) (c : Claims)
      → read_claims k now payload ≡ ok c
      → is_expired k now c ≡ false
  unfolding read_claims
  read_claims-live now payload c h =
      let (bytes, decoded, rest) =
        and_then-eq-ok (or_error (decode payload) AppError.unauthorized) _ h in
      let (claims, parsed, final) =
        and_then-eq-ok (or_error (from_slice bytes) AppError.unauthorized) _ rest in
      elim (Bool-cases (is_expired k now claims)) [
        | inl old ↦ cc (rw old at final)
        | inr live ↦
            let same : claims ≡ c = cc (rw live at final) in
            subst (λ d. is_expired k now d ≡ false) same live
      ]

  -- The text is that of three parts, of which the last is the signature of the others, and the
  -- second reads as the claims.
  unfoldable pub IsSigned : JwtService → ℤ → List ℕ → Claims → Type 0
  IsSigned s now token c =
      (header : List ℕ) × (payload : List ℕ) × (sig : List ℕ) × (token
        ≡ header ++ dot ∷ (payload ++ dot ∷ sig))
      × (sign k s (header ++ dot ∷ payload) ≡ ok sig)
      × (read_claims k now payload ≡ ok c)

  verify_parts-IsSigned :
      (s : JwtService) (now : ℤ) (token : List ℕ) (c : Claims)
      (p : Option (List ℕ × List ℕ × List ℕ))
      → Parts token p
      → verify_parts k s now p ≡ ok c
      → IsSigned s now token c × (is_expired k now c ≡ false)
  unfolding Parts IsSigned
  verify_parts-IsSigned s now token c none e h = cc
  verify_parts-IsSigned s now token c (some (header, payload, sig)) e h =
      let (expected, signed, rest) = and_then-eq-ok (sign k s (header ++ dot ∷ payload)) _ h in
      elim (Bool-cases (constant_eq sig expected)) [
        | inl same ↦
            let equal : expected ≡ sig = sym ((constant_eq_iff sig expected).0 same) in
            let read : read_claims k now payload ≡ ok c = rw same at rest in
            (
              (header, payload, sig, e, signed ∙ ap ok equal, read),
              read_claims-live now payload c read,
            )
        | inr other ↦ cc (rw other at rest)
      ]

  -- Whatever text is verified has three parts, of which the last is the signature that the secret
  -- gives the first two; the claims are those that the second part reads as, and have not expired.
  pub verify-IsSigned :
      (s : JwtService) (now : ℤ) (token : List ℕ) (c : Claims)
      → verify k s now token ≡ ok c
      → IsSigned s now token c × (ltb_ℤ c.exp now ≡ false)
  unfolding verify
  verify-IsSigned s now token c h =
      verify_parts-IsSigned s now token c (three_parts token) (three_parts-Parts token) h
