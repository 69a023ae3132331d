-- ===== src/Common/Price.antt =====
-- api/crates/common/src/types.rs: `Price` and `Quantity`, and their conversion from and to
-- `rust_decimal::Decimal`, which is a third-party type and so a parameter.
use w16crypto_engine.Base.{
  ℕ, ◌-◌, ◌≤◌, ◌≡◌, Bool, false, ◌||◌, Option, none, some, ltb, ◌==◌, if◌then◌else◌, arith,
}

-- What the code uses of `Decimal`. `decimal_of n` is `Decimal::from(n)`.
pub record Decimals : Type 1 where
  pub Decimal : Type 0
  pub decimal_of : ℕ → Decimal
  pub add : Decimal → Decimal → Decimal
  pub sub : Decimal → Decimal → Decimal
  pub mul : Decimal → Decimal → Decimal
  pub div : Decimal → Decimal → Decimal
  pub round : Decimal → Decimal
  pub ceil : Decimal → Decimal
  pub abs : Decimal → Decimal
  pub is_le : Decimal → Decimal → Bool
  pub to_u32 : Decimal → Option ℕ
  pub to_u64 : Decimal → Option ℕ

abbrev pub price_min : ℕ
price_min = 1000

abbrev pub price_max : ℕ
price_max = 9999999

abbrev pub quantity_min : ℕ
quantity_min = 1000

-- The units of a price and of a quantity in one whole.
abbrev pub micro : ℕ
micro = 1000000

-- `Price::complement`. The subtraction is on `u32`; it stays in range for a price of at most
-- 10_000_000, which every price that `from_decimal` makes is.
unfoldable pub complement : ℕ → ℕ
complement p = 10000000 - p

-- `Price::saturating_sub` and `Quantity::saturating_sub`
unfoldable pub saturating_sub : ℕ → ℕ → ℕ
saturating_sub a b = a - b

unfoldable pub is_zero : ℕ → Bool
is_zero q = q == 0

in_price_range : ℕ → Option ℕ
in_price_range raw = if ltb raw 1000 || ltb 9999999 raw then none else some raw

module _ (d : Decimals) where
  open d use {Decimal, decimal_of, mul, div, round, is_le, to_u32, to_u64}

  -- `Price::from_decimal`
  unfoldable pub price_from_decimal : Decimal → Option ℕ
  unfolding in_price_range
  price_from_decimal x =
      if is_le x (decimal_of 0) then none else elim (to_u32 (round (mul x (decimal_of micro)))) [
        | none ↦ none
        | some raw ↦ in_price_range raw
      ]

  -- `Price::to_decimal` and `Quantity::to_decimal`
  unfoldable pub to_decimal : ℕ → Decimal
  to_decimal p = div (decimal_of p) (decimal_of micro)

  -- `Quantity::from_decimal`
  unfoldable pub quantity_from_decimal : Decimal → ℕ
  quantity_from_decimal x = elim (to_u64 (round (mul x (decimal_of micro)))) [
    | none ↦ 0
    | some raw ↦ raw
  ]

  -- Every price that `from_decimal` returns lies between the constants MIN and MAX, and comes
  -- from a decimal above zero.
  pub price_from_decimal_bounds :
      (x : Decimal) {p : ℕ}
      → price_from_decimal x ≡ some p
      → (price_min ≤ p) × (p ≤ price_max) × (is_le x (decimal_of 0) ≡ false)
  unfolding price_from_decimal
  price_from_decimal_bounds x h = ground arith
