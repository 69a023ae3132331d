-- ===== src/Execution/Weights.antt =====
-- The slices of a VWAP order and of a smart one.
use w16crypto_engine.Execution.{
  VolumeProfile, get_algo_order, Side, ExecutionEngine, AlgoOrder, add_order,
}
use w16crypto_engine.Execution.Volume.{
  smart_slices, vwap_children, profile_weights, repeat, create_vwap, create_smart, weighted,
  slice_weights, vwap_order, smart_window, sum_weights,
}
use w16crypto_engine.Common.Price.{Decimals}
use w16crypto_engine.Base.{
  length, sum_by, ℤ, u64_bound, lookup, lookup-insert_self, ℕ, zero, suc, ◌+◌, ◌%◌, ◌<◌, ◌≡◌, refl,
  sym, ap, ◌∙◌, Option, none, some, List, [], ◌∷◌, arith,
}
use w16crypto_engine.Execution.Slices.{quantity_of}

-- The quantities of a VWAP order's slices, whatever the weights, leave what was asked for.
module _ (d : Decimals) where
  open d use {Decimal}

  carried : (q s a : ℕ) → (q + s + a) % u64_bound ≡ (s + (a + q) % u64_bound) % u64_bound
  carried q s a = omega arith

  some_slices : (u : Decimal) → 0 < smart_slices d u
  unfolding smart_slices
  some_slices u = ground arith

  add_zero : (a : ℕ) → a + 0 ≡ a
  add_zero a = omega arith

  vwap_total :
      (quantity window slices : ℕ) (now : ℤ) (t : Decimal) (ws : List Decimal) (i a : ℕ)
      → a < u64_bound
      → quantity < u64_bound
      → (sum_by quantity_of (vwap_children d quantity window slices now t ws i a) + a) % u64_bound
        ≡ quantity
  unfolding vwap_children
  vwap_total quantity window slices now t [] i a h g = ground arith
  vwap_total quantity window slices now t (w ∷ []) i a h g = ground arith
  vwap_total quantity window slices now t (w ∷ v ∷ ws) i a h g =
      let q = weighted d quantity t w in
      let rest =
        vwap_total quantity window slices now t (v ∷ ws) (suc i) ((a + q) % u64_bound) (omega arith)
          g in
      carried q _ a ∙ rest

  vwap_count :
      (quantity window slices : ℕ) (now : ℤ) (t w : Decimal) (ws : List Decimal) (i a : ℕ)
      → length (vwap_children d quantity window slices now t (w ∷ ws) i a) ≡ suc (length ws)
  unfolding vwap_children
  vwap_count quantity window slices now t w [] i a = refl
  vwap_count quantity window slices now t w (v ∷ ws) i a =
      ap suc (vwap_count quantity window slices now t v ws (suc i) _)

  repeat_count : (n : ℕ) (x : Decimal) → length (repeat d n x) ≡ n
  unfolding repeat
  repeat_count zero x = refl
  repeat_count (suc n) x = ap suc (repeat_count n x)

  profile_count :
      (hour : ℕ) (ws : List Decimal) (n i : ℕ) → length (profile_weights d hour ws n i) ≡ n
  unfolding profile_weights
  profile_count hour ws zero i = refl
  profile_count hour ws (suc n) i = ap suc (profile_count hour ws n (suc i))

  weights_count :
      (hour n : ℕ) (p : Option (VolumeProfile Decimal)) → length (slice_weights d hour n p) ≡ n
  weights_count hour n none = repeat_count n _
  weights_count hour n (some p) = profile_count hour p.hour_weights n 0

  count_of_vwap :
      (quantity window slices : ℕ) (now : ℤ) (t : Decimal) (ws : List Decimal) (n : ℕ)
      → length ws ≡ suc n
      → length (vwap_children d quantity window slices now t ws 0 0) ≡ suc n
  count_of_vwap quantity window slices now t [] n h = absurd (omega arith)
  count_of_vwap quantity window slices now t (w ∷ ws) n h =
      vwap_count quantity window slices now t w ws 0 0 ∙ h

  -- A VWAP order has the number of slices that was asked for, at least one. Whatever the weights of
  -- the market's profile, the quantities of the slices add up to the order's in 64 bits.
  pub create_vwap-total :
      (id m : ℕ) (side : Side) (quantity window slices : ℕ) (now : ℤ) (hour : ℕ)
      (e : ExecutionEngine Decimal)
      → 0 < slices
      → quantity < u64_bound
      → (e' : ExecutionEngine Decimal) × (create_vwap d id m side quantity window slices now hour e
          ≡ some e')
        × ((o : AlgoOrder) × (get_algo_order id e' ≡ some o)
            × (length o.child_orders ≡ slices)
            × (sum_by quantity_of o.child_orders % u64_bound ≡ quantity))
  unfolding create_vwap get_algo_order
  create_vwap-total id m side quantity window zero now hour e h g = absurd (omega arith)
  create_vwap-total id m side quantity window (suc n) now hour e h g =
      let ws = slice_weights d hour (suc n) (lookup m e.volume_profiles) in
      let o = vwap_order d m side quantity window (suc n) ws now in
      (
        add_order id o e,
        ground arith,
        (
          o,
          lookup-insert_self id o e.orders,
          count_of_vwap quantity window (suc n) now (sum_weights d ws) ws n
              (weights_count hour (suc n) (lookup m e.volume_profiles)),
          ap (λ k. k % u64_bound) (sym (add_zero _))
              ∙ vwap_total quantity window (suc n) now (sum_weights d ws) ws 0 0 (omega arith) g,
        ),
      )

  -- A smart order is a VWAP order of three, six or twelve slices, the fewer and the sooner the more
  -- urgent it is, and its slices add up to it in 64 bits.
  pub create_smart-total :
      (id m : ℕ) (side : Side) (quantity : ℕ) (urgency : Decimal) (now : ℤ) (hour : ℕ)
      (e : ExecutionEngine Decimal)
      → quantity < u64_bound
      → (e' : ExecutionEngine Decimal) × (create_smart d id m side quantity urgency now hour e
          ≡ some e')
        × ((o : AlgoOrder) × (get_algo_order id e' ≡ some o)
            × (length o.child_orders ≡ smart_slices d urgency)
            × (sum_by quantity_of o.child_orders % u64_bound ≡ quantity))
  unfolding create_smart
  create_smart-total id m side quantity urgency now hour e g =
      create_vwap-total id m side quantity (smart_window d urgency) (smart_slices d urgency) now
        hour e (some_slices urgency) g
