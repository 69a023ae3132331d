-- ===== src/Common/Floats.antt =====
-- What the analytics crate uses of `f64`, as a parameter, with the sums and averages of its services.
use w16crypto_engine.Base.{length, ℤ, ℕ, Bool, List, [], ◌∷◌, if◌then◌else◌}

-- What the code uses of `f64`; `literal n m` is the number n / m.
pub record Floats : Type 1 where
  pub Float : Type 0
  pub literal : ℕ → ℕ → Float
  pub of_nat : ℕ → Float
  pub add : Float → Float → Float
  pub sub : Float → Float → Float
  pub mul : Float → Float → Float
  pub div : Float → Float → Float
  pub neg : Float → Float
  pub abs : Float → Float
  pub sqrt : Float → Float
  pub clamp : Float → Float → Float → Float
  pub is_below : Float → Float → Bool
  pub is_equal : Float → Float → Bool
  pub as_i32 : Float → ℤ
  pub as_u32 : Float → ℕ
  pub as_u64 : Float → ℕ

module _ (f : Floats) where
  open f use {Float, literal, of_nat, add, mul, div, is_below}

  abbrev pub zero_float : Float
  zero_float = literal 0 1

  -- `a > b`
  abbrev pub is_over : Float → Float → Bool
  is_over a b = is_below b a

  -- `min(1.0)`
  abbrev pub at_most_one : Float → Float
  at_most_one x = if is_below x (literal 1 1) then x else literal 1 1

  -- `a as f64 / b as f64`
  abbrev pub share_of : ℕ → ℕ → Float
  share_of a b = div (of_nat a) (of_nat b)

  -- `iter().sum()`
  unfoldable pub sum_floats : List Float → Float → Float
  sum_floats [] acc = acc
  sum_floats (x ∷ xs) acc = sum_floats xs (add acc x)

  abbrev pub mean : List Float → Float
  mean xs = div (sum_floats xs zero_float) (of_nat (length xs))

  abbrev pub square : Float → Float
  square x = mul x x
