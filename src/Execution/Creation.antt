-- ===== src/Execution/Creation.antt =====
-- What the four calls that create an order do to an engine.
use w16crypto_engine.Execution.Volume.{
  vwap_children, create_vwap, create_smart, vwap_order, slice_weights, smart_window, smart_slices,
}
use w16crypto_engine.Base.{
  ℤ, lookup, ℕ, zero, suc, ◌≡◌, refl, false, Option, some, List, [], ◌∷◌, arith,
}
use w16crypto_engine.Execution.{
  AlgoOrder, ExecutionEngine, Decimals, ChildOrder, AlgoStatus, twap_children, iceberg_children,
  Side, create_twap, create_iceberg, add_order, twap_order, iceberg_order, iceberg_slices,
}
use w16crypto_engine.Execution.Executor.{is_filled}

-- No slice of the list is filled.
unfoldable pub AreUnfilled : List ChildOrder → Type 0
AreUnfilled [] = Unit
AreUnfilled (c ∷ cs) = (is_filled c.status ≡ false) × AreUnfilled cs

-- No slice of the order is filled, and if it is complete, it has none.
unfoldable pub IsUnfilled : AlgoOrder → Type 0
IsUnfilled o = AreUnfilled o.child_orders × (o.status ≡ AlgoStatus.complete → o.child_orders ≡ [])

new_lem : {cs : List ChildOrder} → AlgoStatus.pending ≡ AlgoStatus.complete → cs ≡ []
new_lem h = ground arith

twap-AreUnfilled :
    (slices q r t : ℕ) (now : ℤ) (p : Option ℕ) (n i : ℕ)
    → AreUnfilled (twap_children slices q r t now p n i)
unfolding twap_children AreUnfilled
twap-AreUnfilled slices q r t now p zero i = tt
twap-AreUnfilled slices q r t now p (suc n) i =
    (refl, twap-AreUnfilled slices q r t now p n (suc i))

iceberg-AreUnfilled :
    (visible price : ℕ) (now : ℤ) (n i remaining : ℕ)
    → AreUnfilled (iceberg_children visible price now n i remaining)
unfolding iceberg_children AreUnfilled
iceberg-AreUnfilled visible price now zero i remaining = tt
iceberg-AreUnfilled visible price now (suc n) i remaining =
    (refl, iceberg-AreUnfilled visible price now n (suc i) _)

module _ (d : Decimals) where
  open d use {Decimal}

  vwap-AreUnfilled :
      (quantity window slices : ℕ) (now : ℤ) (t : Decimal) (ws : List Decimal) (i a : ℕ)
      → AreUnfilled (vwap_children d quantity window slices now t ws i a)
  unfolding vwap_children AreUnfilled
  vwap-AreUnfilled quantity window slices now t [] i a = (refl, tt)
  vwap-AreUnfilled quantity window slices now t (w ∷ []) i a = (refl, tt)
  vwap-AreUnfilled quantity window slices now t (w ∷ v ∷ ws) i a =
      (refl, vwap-AreUnfilled quantity window slices now t (v ∷ ws) (suc i) _)

  -- A call that adds the order `id` to an engine.
  pub data IsCreated : ExecutionEngine Decimal → ℕ → ExecutionEngine Decimal → Type 0 where
    twap :
        {e e' : ExecutionEngine Decimal} {id : ℕ} (m : ℕ) (side : Side) (quantity window slices : ℕ)
        (price : Option ℕ) (now : ℤ)
        → create_twap id m side quantity window slices price now e ≡ some e'
        → IsCreated e id e'
    vwap :
        {e e' : ExecutionEngine Decimal} {id : ℕ} (m : ℕ) (side : Side) (quantity window slices : ℕ)
        (now : ℤ) (hour : ℕ)
        → create_vwap d id m side quantity window slices now hour e ≡ some e'
        → IsCreated e id e'
    iceberg :
        {e e' : ExecutionEngine Decimal} {id : ℕ} (m : ℕ) (side : Side) (quantity visible price : ℕ)
        (now : ℤ)
        → create_iceberg d id m side quantity visible price now e ≡ some e'
        → IsCreated e id e'
    smart :
        {e e' : ExecutionEngine Decimal} {id : ℕ} (m : ℕ) (side : Side) (quantity : ℕ)
        (urgency : Decimal) (now : ℤ) (hour : ℕ)
        → create_smart d id m side quantity urgency now hour e ≡ some e'
        → IsCreated e id e'

  pub IsCreated-adds :
      (e : ExecutionEngine Decimal) (id : ℕ) (e' : ExecutionEngine Decimal)
      → IsCreated e id e'
      → (o : AlgoOrder) × (e' ≡ add_order id o e) × IsUnfilled o
  unfolding IsUnfilled create_twap create_vwap create_iceberg create_smart
  IsCreated-adds e id e' (IsCreated.twap m side q window slices p now h) = (
    twap_order m side q window slices p now,
    grind arith,
    (twap-AreUnfilled slices _ _ _ now p slices 0, new_lem),
  )
  IsCreated-adds e id e' (IsCreated.vwap m side q window slices now hour h) = (
    vwap_order d m side q window slices (slice_weights d hour slices (lookup m e.volume_profiles))
        now,
    grind arith,
    (vwap-AreUnfilled q window slices now _ _ 0 0, new_lem),
  )
  IsCreated-adds e id e' (IsCreated.iceberg m side q visible p now h) = (
    iceberg_order d m side q visible p now,
    grind arith,
    (iceberg-AreUnfilled visible p now (iceberg_slices d q visible) 0 q, new_lem),
  )
  IsCreated-adds e id e' (IsCreated.smart m side q urgency now hour h) = (
    vwap_order d m side q (smart_window d urgency) (smart_slices d urgency)
        (slice_weights d hour (smart_slices d urgency) (lookup m e.volume_profiles)) now,
    grind arith,
    (vwap-AreUnfilled q (smart_window d urgency) (smart_slices d urgency) now _ _ 0 0, new_lem),
  )
