-- ===== src/Execution/Slices.antt =====
-- The slices of an order add up to it.
use w16crypto_engine.Execution.{
  ChildOrder, create_twap, twap_children, iceberg_children, get_algo_order, Side, ExecutionEngine,
  AlgoOrder, twap_order, add_order, Decimals, create_iceberg, iceberg_slices, or_one, iceberg_order,
}
use w16crypto_engine.Base.{
  length, sum_by, ℤ, lookup-insert_self, ℕ, zero, suc, ◌+◌, ◌-◌, ◌*◌, ◌/◌, ◌%◌, ◌<◌, min, ◌≡◌, refl,
  ap, ◌∙◌, Option, some, arith, u64_bound, u32_bound, total, ◌≤◌, List, [], ◌∷◌,
}

abbrev pub quantity_of : ChildOrder → ℕ
quantity_of c = c.quantity

total_of_twap :
    (slices q r t : ℕ) (now : ℤ) (p : Option ℕ) (n i : ℕ)
    → suc (i + n) ≡ slices
    → sum_by quantity_of (twap_children slices q r t now p (suc n) i) ≡ suc n * q + r
unfolding twap_children
total_of_twap slices q r t now p zero i h = ground arith
total_of_twap slices q r t now p (suc n) i h =
    ground (arith, total_of_twap slices q r t now p n (suc i) (omega arith))

count_of_twap :
    (slices q r t : ℕ) (now : ℤ) (p : Option ℕ) (n i : ℕ)
    → length (twap_children slices q r t now p n i) ≡ n
unfolding twap_children
count_of_twap slices q r t now p zero i = refl
count_of_twap slices q r t now p (suc n) i = ap suc (count_of_twap slices q r t now p n (suc i))

-- A TWAP order has the number of slices that was asked for, at least one, and their quantities add
-- up to the order's.
pub create_twap-total :
    {D : Type 0} (id m : ℕ) (side : Side) (quantity window slices : ℕ) (p : Option ℕ) (now : ℤ)
    (e : ExecutionEngine D)
    → 0 < slices
    → (e' : ExecutionEngine D) × (create_twap id m side quantity window slices p now e ≡ some e')
      × ((o : AlgoOrder) × (get_algo_order id e' ≡ some o)
          × (length o.child_orders ≡ slices)
          × (sum_by quantity_of o.child_orders ≡ quantity))
unfolding create_twap get_algo_order
create_twap-total id m side quantity window zero p now e h = absurd (omega arith)
create_twap-total id m side quantity window (suc n) p now e h =
    let o = twap_order m side quantity window (suc n) p now in
    (
      add_order id o e,
      ground arith,
      (
        o,
        lookup-insert_self id o e.orders,
        count_of_twap _ _ _ _ now p (suc n) 0,
        total_of_twap (suc n) (quantity / suc n) (quantity % suc n) (window / suc n) now p n 0
              (omega arith)
            ∙ grind arith,
      ),
    )

-- An iceberg's slices add up to the order, or to what the slices can show if that is less.
iceberg_total :
    (visible price : ℕ) (now : ℤ) (n i remaining : ℕ)
    → sum_by quantity_of (iceberg_children visible price now n i remaining)
      ≡ min remaining (n * visible)
unfolding iceberg_children
iceberg_total visible price now zero i remaining = ground arith
iceberg_total visible price now (suc n) i remaining =
    grind (arith, iceberg_total visible price now n (suc i) (remaining - min visible remaining))

unfoldable pub AreAtMost : ℕ → List ChildOrder → Type 0
AreAtMost n [] = Unit
AreAtMost n (c ∷ cs) = (c.quantity ≤ n) × AreAtMost n cs

iceberg-AreAtMost :
    (visible price : ℕ) (now : ℤ) (n i remaining : ℕ)
    → AreAtMost visible (iceberg_children visible price now n i remaining)
unfolding iceberg_children AreAtMost
iceberg-AreAtMost visible price now zero i remaining = tt
iceberg-AreAtMost visible price now (suc n) i remaining = (
  ground arith,
  iceberg-AreAtMost visible price now n (suc i) (remaining - min visible remaining),
)

iceberg_count :
    (visible price : ℕ) (now : ℤ) (n i remaining : ℕ)
    → length (iceberg_children visible price now n i remaining) ≡ n
unfolding iceberg_children
iceberg_count visible price now zero i remaining = refl
iceberg_count visible price now (suc n) i remaining =
    ap suc (iceberg_count visible price now n (suc i) (remaining - min visible remaining))

enough_slices : (a b : ℕ) → 0 < b → min a ((a + b - 1) / b * b) ≡ a
enough_slices a b h = grind arith

module _ (d : Decimals) where
  open d use {decimal_of, div, ceil, to_u32}

  -- What `Decimal` does for integers: the quotient, rounded up, if it fits `u32`.
  unfoldable pub IsCeiling : Type 0
  IsCeiling =
      (a b : ℕ)
      → 0 < b
      → a < u64_bound
      → (a + b - 1) / b < u32_bound
      → to_u32 (ceil (div (decimal_of a) (decimal_of b))) ≡ some ((a + b - 1) / b)

  -- Where `Decimal` divides and rounds up exactly, an iceberg order's slices add up to the order, no
  -- slice shows more than the visible quantity, and there are no more slices than are needed. It is
  -- assumed that the number of slices fits `u32`.
  pub create_iceberg-total :
      (id m : ℕ) (side : Side) (total visible price : ℕ) (now : ℤ) (e : ExecutionEngine d.Decimal)
      → IsCeiling
      → 0 < visible
      → total < u64_bound
      → (total + visible - 1) / visible < u32_bound
      → (e' : ExecutionEngine d.Decimal) × (create_iceberg d id m side total visible price now e
          ≡ some e')
        × ((o : AlgoOrder) × (get_algo_order id e' ≡ some o)
            × (length o.child_orders ≡ (total + visible - 1) / visible)
            × (sum_by quantity_of o.child_orders ≡ total)
            × AreAtMost visible o.child_orders)
  unfolding create_iceberg get_algo_order iceberg_slices IsCeiling
  create_iceberg-total id m side total visible price now e exact positive fits small =
      let n = (total + visible - 1) / visible in
      let slices : iceberg_slices d total visible ≡ n =
        ap (or_one d) (exact total visible positive fits small) in
      let o = iceberg_order d m side total visible price now in
      let same : o.child_orders ≡ iceberg_children visible price now n 0 total =
        ap (λ k. iceberg_children visible price now k 0 total) slices in
      (
        add_order id o e,
        ground arith,
        (
          o,
          lookup-insert_self id o e.orders,
          ap length same ∙ iceberg_count visible price now n 0 total,
          ap (sum_by quantity_of) same
              ∙ iceberg_total visible price now n 0 total
              ∙ enough_slices total visible positive,
          iceberg-AreAtMost visible price now (iceberg_slices d total visible) 0 total,
        ),
      )
