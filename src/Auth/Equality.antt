-- ===== src/Auth/Equality.antt =====
-- `constant_eq` is equality.
use Prim.Native.Nat.{bit_or, bit_xor, differ, digits, bit_or-bitwise, bit_xor-bitwise}
use w16crypto_engine.Auth.{constant_eq, differences}
use w16crypto_engine.Base.{
  length, ℕ, zero, suc, ◌/◌, ◌%◌, ◌≤◌, max, ◌≡◌, refl, sym, ap, ◌∙◌, ◌↔◌, true, List, [], ◌∷◌,
  arith, ◌==◌, ==_iff, ==_refl, Bool-cases, subst, inl, inr,
}

differ_self : (x : ℕ) → differ x x ≡ 0
differ_self zero = refl
differ_self (suc x) = differ_self x

differ-eq-zero : (x y : ℕ) → differ x y ≡ 0 → x ≡ y
differ-eq-zero zero y h = sym h
differ-eq-zero (suc x) zero h = absurd (omega arith)
differ-eq-zero (suc x) (suc y) h = ap suc (differ-eq-zero x y h)

abbrev or_digits : ℕ → ℕ → ℕ → ℕ
or_digits = digits (λ b. b) max

abbrev xor_digits : ℕ → ℕ → ℕ → ℕ
xor_digits = digits (λ b. b) differ

or_digits-eq-zero : (n a b : ℕ) → a ≤ n → or_digits n a b ≡ 0 → (a ≡ 0) × (b ≡ 0)
or_digits-eq-zero zero a b le h = (omega arith, h)
or_digits-eq-zero (suc n) zero b le h = (refl, h)
or_digits-eq-zero (suc n) (suc a) b le h =
    absurd (omega (arith, (or_digits-eq-zero n (suc a / 2) (b / 2) (omega arith) (omega arith)).0))

xor_digits-eq-zero : (n a b : ℕ) → a ≤ n → xor_digits n a b ≡ 0 → a ≡ b
xor_digits-eq-zero zero a b le h = omega arith
xor_digits-eq-zero (suc n) zero b le h = sym h
xor_digits-eq-zero (suc n) (suc a) b le h = omega (
  arith,
  xor_digits-eq-zero n (suc a / 2) (b / 2) (omega arith) (omega arith),
  differ-eq-zero (suc a % 2) (b % 2) (omega arith),
)

xor_digits_self : (n a : ℕ) → a ≤ n → xor_digits n a a ≡ 0
xor_digits_self zero a le = omega arith
xor_digits_self (suc n) zero le = refl
xor_digits_self (suc n) (suc a) le =
    omega (arith, xor_digits_self n (suc a / 2) (omega arith), differ_self (suc a % 2))

xor_self : (a : ℕ) → bit_xor a a ≡ 0
xor_self a = bit_xor-bitwise a a ∙ xor_digits_self a a (omega arith)

differences_self : (xs : List ℕ) → differences xs xs 0 ≡ 0
unfolding differences
differences_self [] = refl
differences_self (x ∷ xs) = rw (xor_self x) (differences_self xs)

differences-eq-zero :
    (xs ys : List ℕ) (acc : ℕ)
    → length xs ≡ length ys
    → differences xs ys acc ≡ 0
    → (acc ≡ 0) × (xs ≡ ys)
unfolding differences
differences-eq-zero [] [] acc same h = (h, refl)
differences-eq-zero [] (y ∷ ys) acc same h = absurd (omega arith)
differences-eq-zero (x ∷ xs) [] acc same h = absurd (omega arith)
differences-eq-zero (x ∷ xs) (y ∷ ys) acc same h =
    let (nothing, rest) = differences-eq-zero xs ys (bit_or acc (bit_xor x y)) (omega arith) h in
    let (before, here) =
      or_digits-eq-zero acc acc (bit_xor x y) (omega arith)
        (sym (bit_or-bitwise acc (bit_xor x y)) ∙ nothing) in
    let equal : x ≡ y = xor_digits-eq-zero x x y (omega arith) (sym (bit_xor-bitwise x y) ∙ here) in
    (before, cc)

-- Two texts pass the comparison in constant time if and only if they are the same.
pub constant_eq_iff : (a b : List ℕ) → (constant_eq a b ≡ true) ↔ (a ≡ b)
unfolding constant_eq
constant_eq_iff a b = (
  λ h. elim (Bool-cases (length a == length b)) [
    | inl same ↦ (differences-eq-zero a b 0 ((==_iff _ _).0 same) ((==_iff _ _).0 (rw same at h))).1
    | inr other ↦ cc (rw other at h)
  ],
  λ e. subst (λ c. constant_eq a c ≡ true) e (rw (==_refl (length a), differences_self a) refl),
)
