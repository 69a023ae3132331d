-- ===== src/Execution.antt =====
-- api/crates/analytics/src/execution.rs: `ExecutionEngine`, which cuts an order into slices and
-- sends them when they are due. An order's identifier is its UUID's number, a time is in seconds.
-- `run_executor` drops the receiver of `tx`, and what is sent there is lost, so it is left out.
pub mod Slices
pub mod Weights
pub mod Volume
pub mod Executor
pub mod Creation
pub mod Conservation
pub mod Completion
use w16crypto_engine.Common.Types.{Side}
use w16crypto_engine.Common.Price.{Decimals}
use w16crypto_engine.Base.{
  ◌==◌, if◌then◌else◌, ℤ, ◌+ℤ◌, u64_as_i64, Table, lookup, insert, total, ℕ, zero, suc, ◌+◌, ◌-◌,
  ◌*◌, ◌/◌, ◌%◌, min, Bool, true, false, Option, none, some, List, [], ◌∷◌,
}

pub data ExecutionStrategy : Type 0 where
  twap vwap iceberg smart : ExecutionStrategy

pub data AlgoStatus : Type 0 where
  pending running paused complete cancelled : AlgoStatus

pub data ChildStatus : Type 0 where
  pending submitted filled failed : ChildStatus

pub record ChildOrder : Type 0 where
  pub sequence : ℕ
  pub quantity : ℕ
  pub price : Option ℕ
  pub scheduled_time : ℤ
  pub status : ChildStatus

pub record AlgoOrder : Type 0 where
  pub market_id : ℕ
  pub side : Side
  pub total_quantity : ℕ
  pub filled_quantity : ℕ
  pub strategy : ExecutionStrategy
  pub target_price : Option ℕ
  pub time_window_secs : ℕ
  pub slice_count : ℕ
  pub child_orders : List ChildOrder
  pub status : AlgoStatus
  pub created_at : ℤ

-- A trade's time is the hour of the day that it falls in.
pub record VolumeProfile (D : Type 0) : Type 0 where
  pub hour_weights : List D
  pub recent_volumes : List (ℕ × ℕ)

pub record ExecutionEngine (D : Type 0) : Type 0 where
  pub orders : Table AlgoOrder
  pub volume_profiles : Table (VolumeProfile D)
  pub is_simulation_mode : Bool

-- `ExecutionEngine::new`
unfoldable pub new_engine : {D : Type 0} → Bool → ExecutionEngine D
new_engine simulate = record { orders = []; volume_profiles = []; is_simulation_mode = simulate }

abbrev pub new_child : ℕ → ℕ → Option ℕ → ℤ → ChildOrder
new_child i quantity price time = record {
  sequence = i;
  quantity = quantity;
  price = price;
  scheduled_time = time;
  status = ChildStatus.pending;
}

-- `orders.insert(id, order)`
abbrev pub add_order : {D : Type 0} → ℕ → AlgoOrder → ExecutionEngine D → ExecutionEngine D
add_order id o e = record e { orders = insert id o e.orders }

unfoldable pub get_algo_order : {D : Type 0} → ℕ → ExecutionEngine D → Option AlgoOrder
get_algo_order id e = lookup id e.orders

unfoldable pub cancel_algo_order : {D : Type 0} → ℕ → ExecutionEngine D → Bool × ExecutionEngine D
cancel_algo_order id e = elim (lookup id e.orders) [
  | none ↦ (false, e)
  | some o ↦ (true, add_order id (record o { status = AlgoStatus.cancelled }) e)
]

-- `create_twap`: the slices `i`, `i + 1`, … , of which there are `n`.
module _ (slices slice_qty remainder interval_secs : ℕ) (now : ℤ) (price : Option ℕ) where
  unfoldable pub twap_children : ℕ → ℕ → List ChildOrder
  twap_children zero i = []
  twap_children (suc n) i =
      new_child i (if i == slices - 1 then slice_qty + remainder else slice_qty) price
        (now +ℤ u64_as_i64 (i * interval_secs))
      ∷ twap_children n (suc i)

abbrev pub twap_order : ℕ → Side → ℕ → ℕ → ℕ → Option ℕ → ℤ → AlgoOrder
twap_order m side quantity window slices price now = record {
  market_id = m;
  side = side;
  total_quantity = quantity;
  filled_quantity = 0;
  strategy = ExecutionStrategy.twap;
  target_price = price;
  time_window_secs = window;
  slice_count = slices;
  child_orders =
      twap_children slices (quantity / slices) (quantity % slices) (window / slices) now price
        slices 0;
  status = AlgoStatus.pending;
  created_at = now;
}

-- `none` is the panic of the division by zero slices.
unfoldable pub create_twap :
    {D : Type 0}
    → ℕ
    → ℕ
    → Side
    → ℕ
    → ℕ
    → ℕ
    → Option ℕ
    → ℤ
    → ExecutionEngine D
    → Option (ExecutionEngine D)
create_twap id m side quantity window slices price now e =
    if slices == 0
    then none
    else some (add_order id (twap_order m side quantity window slices price now) e)

-- `create_iceberg`: the `n` slices from the `i`th on, for what remains.
module _ (visible price : ℕ) (now : ℤ) where
  unfoldable pub iceberg_children : ℕ → ℕ → ℕ → List ChildOrder
  iceberg_children zero i remaining = []
  iceberg_children (suc n) i remaining =
      new_child i (min visible remaining) (some price) now
      ∷ iceberg_children n (suc i) (remaining - min visible remaining)

module _ (d : Decimals) where
  open d use {Decimal, decimal_of, div, ceil, to_u32}

  abbrev pub or_one : Option ℕ → ℕ
  or_one none = 1
  or_one (some n) = n

  -- `(total / visible).ceil().to_u32().unwrap_or(1)`
  unfoldable pub iceberg_slices : ℕ → ℕ → ℕ
  iceberg_slices total visible =
      or_one (to_u32 (ceil (div (decimal_of total) (decimal_of visible))))

  abbrev pub iceberg_order : ℕ → Side → ℕ → ℕ → ℕ → ℤ → AlgoOrder
  iceberg_order m side total visible price now = record {
    market_id = m;
    side = side;
    total_quantity = total;
    filled_quantity = 0;
    strategy = ExecutionStrategy.iceberg;
    target_price = some price;
    time_window_secs = 0;
    slice_count = iceberg_slices total visible;
    child_orders = iceberg_children visible price now (iceberg_slices total visible) 0 total;
    status = AlgoStatus.pending;
    created_at = now;
  }

  -- `none` is the panic of the division by zero.
  unfoldable pub create_iceberg :
      ℕ → ℕ → Side → ℕ → ℕ → ℕ → ℤ → ExecutionEngine Decimal → Option (ExecutionEngine Decimal)
  create_iceberg id m side total visible price now e =
      if visible == 0
      then none
      else some (add_order id (iceberg_order m side total visible price now) e)
