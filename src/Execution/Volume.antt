-- ===== src/Execution/Volume.antt =====
-- analytics/src/execution.rs: the volume profiles and the orders that are cut along them. The sum of
-- the weights is not zero, since every weight that the code stores is at least 1/24.
use w16crypto_engine.Execution.{
  ChildOrder, AlgoOrder, ExecutionStrategy, AlgoStatus, ExecutionEngine, VolumeProfile, new_child,
  add_order, Decimals, Side,
}
use w16crypto_engine.Base.{
  ◌==◌, ltb, if◌then◌else◌, ℤ, ◌+ℤ◌, u64_as_i64, u64_bound, lookup, insert, length, sum_by, ℕ, zero,
  suc, ◌+◌, ◌-◌, ◌*◌, ◌/◌, ◌%◌, max, Bool, Option, none, some, List, [], ◌∷◌, drop, keep, total,
  not, ◌++◌, u32_bound,
}

module _ (d : Decimals) where
  open d use {Decimal, decimal_of, add, mul, div, is_le, to_u64}

  -- `dec!(1) / dec!(24)`
  abbrev pub even_weight : Decimal
  even_weight = div (decimal_of 1) (decimal_of 24)

  abbrev pub weight_at : ℕ → List Decimal → Decimal
  weight_at i [] = even_weight
  weight_at zero (x ∷ xs) = x
  weight_at (suc i) (x ∷ xs) = weight_at i xs

  -- The weights of the `n` slices from the `i`th on, the first being at the hour `hour`.
  unfoldable pub profile_weights : ℕ → List Decimal → ℕ → ℕ → List Decimal
  profile_weights hour ws zero i = []
  profile_weights hour ws (suc n) i =
      weight_at ((hour + i) % 24) ws ∷ profile_weights hour ws n (suc i)

  unfoldable pub repeat : ℕ → Decimal → List Decimal
  repeat zero x = []
  repeat (suc n) x = x ∷ repeat n x

  abbrev pub slice_weights : ℕ → ℕ → Option (VolumeProfile Decimal) → List Decimal
  slice_weights hour slices none = repeat slices (div (decimal_of 1) (decimal_of slices))
  slice_weights hour slices (some p) = profile_weights hour p.hour_weights slices 0

  unfoldable pub sum_weights : List Decimal → Decimal
  sum_weights [] = decimal_of 0
  sum_weights (w ∷ ws) = add w (sum_weights ws)

  abbrev pub or_zero : Option ℕ → ℕ
  or_zero none = 0
  or_zero (some n) = n

  -- The part of `quantity` for a weight.
  abbrev pub weighted : ℕ → Decimal → Decimal → ℕ
  weighted quantity total w = or_zero (to_u64 (mul (decimal_of quantity) (div w total)))

  -- `create_vwap`: all slices but the last take their weight, the last what is left. The operations
  -- on `u64` and `u32` wrap around.
  module _ (quantity window slices : ℕ) (now : ℤ) (total : Decimal) where
    abbrev pub last_child : ℕ → ChildOrder
    last_child allocated =
        new_child ((slices + u32_bound - 1) % u32_bound)
          ((quantity + u64_bound - allocated) % u64_bound) none (now +ℤ u64_as_i64 window)

    unfoldable pub vwap_children : List Decimal → ℕ → ℕ → List ChildOrder
    vwap_children [] i allocated = last_child allocated ∷ []
    vwap_children (w ∷ []) i allocated = last_child allocated ∷ []
    vwap_children (w ∷ v ∷ ws) i allocated =
        new_child i (weighted quantity total w) none
          (now +ℤ u64_as_i64 (i * window % u64_bound / slices))
        ∷ vwap_children (v ∷ ws) (suc i) ((allocated + weighted quantity total w) % u64_bound)

  abbrev pub vwap_order : ℕ → Side → ℕ → ℕ → ℕ → List Decimal → ℤ → AlgoOrder
  vwap_order m side quantity window slices ws now = record {
    market_id = m;
    side = side;
    total_quantity = quantity;
    filled_quantity = 0;
    strategy = ExecutionStrategy.vwap;
    target_price = none;
    time_window_secs = window;
    slice_count = slices;
    child_orders = vwap_children quantity window slices now (sum_weights ws) ws 0 0;
    status = AlgoStatus.pending;
    created_at = now;
  }

  -- At the hour `hour` of the day. `none` is the panic of the division by zero slices, which
  -- only a market without a profile meets.
  unfoldable pub create_vwap :
      ℕ → ℕ → Side → ℕ → ℕ → ℕ → ℤ → ℕ → ExecutionEngine Decimal → Option (ExecutionEngine Decimal)
  create_vwap id m side quantity window slices now hour e =
      if slices == 0
      then none
      else some (
          add_order id
            (vwap_order m side quantity window slices
              (slice_weights hour slices (lookup m e.volume_profiles)) now)
            e)

  -- `create_smart`: the slices and the window for an urgency.
  abbrev pub is_above_tenths : ℕ → Decimal → Bool
  is_above_tenths n urgency = not (is_le urgency (div (decimal_of n) (decimal_of 10)))

  unfoldable pub smart_slices : Decimal → ℕ
  smart_slices u = if is_above_tenths 7 u then 3 else if is_above_tenths 4 u then 6 else 12

  unfoldable pub smart_window : Decimal → ℕ
  smart_window u = if is_above_tenths 7 u then 60 else if is_above_tenths 4 u then 300 else 900

  unfoldable pub create_smart :
      ℕ
      → ℕ
      → Side
      → ℕ
      → Decimal
      → ℤ
      → ℕ
      → ExecutionEngine Decimal
      → Option (ExecutionEngine Decimal)
  create_smart id m side quantity urgency now hour e =
      create_vwap id m side quantity (smart_window urgency) (smart_slices urgency) now hour e

  -- `update_volume`. The trades are kept with the hour that they fall in.
  abbrev pub new_profile : VolumeProfile Decimal
  new_profile = record { hour_weights = repeat 24 even_weight; recent_volumes = [] }

  abbrev pub push_volume : ℕ → ℕ → List (ℕ × ℕ) → List (ℕ × ℕ)
  push_volume hour volume vs =
      if ltb 1000 (length vs + 1)
      then drop 1 (vs ++ (hour, volume) ∷ [])
      else vs ++ (hour, volume) ∷ []

  abbrev pub at_hour : ℕ → List (ℕ × ℕ) → List (ℕ × ℕ)
  at_hour hour vs = keep (λ v. v.0 == hour) vs

  abbrev pub volume_of : List (ℕ × ℕ) → ℕ
  volume_of vs = sum_by (λ v. v.1) vs % u64_bound

  -- `clamp(dec!(0.5), dec!(2))`
  abbrev pub clamp_weight : Decimal → Decimal
  clamp_weight x =
      if is_le (div (decimal_of 1) (decimal_of 2)) x
      then (if is_le x (decimal_of 2) then x else decimal_of 2)
      else div (decimal_of 1) (decimal_of 2)

  abbrev pub average : List (ℕ × ℕ) → Decimal
  average vs = div (decimal_of (volume_of vs)) (decimal_of (max (length vs) 1))

  unfoldable pub hour_weight : List (ℕ × ℕ) → ℕ → Decimal → Decimal
  hour_weight vs hour old =
      if length (at_hour hour vs) == 0
      then old
      else if is_le (average vs) (decimal_of 0)
      then old
      else clamp_weight (div (average (at_hour hour vs)) (average vs))

  unfoldable pub hour_weights_from : List (ℕ × ℕ) → ℕ → List Decimal → List Decimal
  hour_weights_from vs hour [] = []
  hour_weights_from vs hour (x ∷ xs) = hour_weight vs hour x ∷ hour_weights_from vs (suc hour) xs

  abbrev pub with_volume : ℕ → ℕ → VolumeProfile Decimal → VolumeProfile Decimal
  with_volume hour volume p = record {
    hour_weights = hour_weights_from (push_volume hour volume p.recent_volumes) 0 p.hour_weights;
    recent_volumes = push_volume hour volume p.recent_volumes;
  }

  abbrev pub or_new : Option (VolumeProfile Decimal) → VolumeProfile Decimal
  or_new none = new_profile
  or_new (some p) = p

  unfoldable pub update_volume : ℕ → ℕ → ℕ → ExecutionEngine Decimal → ExecutionEngine Decimal
  update_volume m volume hour e = record e {
    volume_profiles =
        insert m (with_volume hour volume (or_new (lookup m e.volume_profiles))) e.volume_profiles;
  }
