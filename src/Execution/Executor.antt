-- ===== src/Execution/Executor.antt =====
-- analytics/src/execution.rs: `pre_flight_check`, and one round of the loop that `run_executor`
-- spawns. A panic ends that task: what the round has changed and sent before it stays, and no later
-- round runs.
use w16crypto_engine.Execution.{
  ChildOrder, AlgoOrder, ChildStatus, AlgoStatus, ExecutionEngine, Decimals,
}
use w16crypto_engine.Common.Types.{OrderRequest, OrderKind}
use w16crypto_engine.Common.Error.{AppError, Part}
use w16crypto_engine.Common.Price.{to_decimal}
use w16crypto_engine.Base.{
  ◌==◌, if◌then◌else◌, ℤ, leb_ℤ, ℕ, Bool, true, false, Option, none, some, List, [], ◌∷◌, ◌++◌,
  Table, not, ◌&&◌,
}

-- What a check of an order request answers.
pub data Check : Type 0 where
  passed : Check
  refused : AppError → Check
  panicked : Check

-- A value, the requests sent while it was made, and whether the task still runs.
pub record Sent (A : Type 0) : Type 0 where
  pub value : A
  pub requests : List OrderRequest
  pub is_alive : Bool

abbrev pub is_limit : OrderKind → Bool
is_limit OrderKind.limit = true
is_limit OrderKind.market = false

abbrev pub is_waiting : ChildStatus → Bool
is_waiting ChildStatus.pending = true
is_waiting ChildStatus.submitted = false
is_waiting ChildStatus.filled = false
is_waiting ChildStatus.failed = false

abbrev pub is_filled : ChildStatus → Bool
is_filled ChildStatus.filled = true
is_filled ChildStatus.pending = false
is_filled ChildStatus.submitted = false
is_filled ChildStatus.failed = false

-- The orders that a round looks at.
abbrev pub is_active : AlgoStatus → Bool
is_active AlgoStatus.running = true
is_active AlgoStatus.pending = true
is_active AlgoStatus.paused = false
is_active AlgoStatus.complete = false
is_active AlgoStatus.cancelled = false

abbrev pub or_zero_price : Option ℕ → ℕ
or_zero_price none = 0
or_zero_price (some p) = p

abbrev pub kind_of : Option ℕ → OrderKind
kind_of none = OrderKind.market
kind_of (some p) = OrderKind.limit

-- The market's identifier is the UUID that the order was made with, so parsing it succeeds.
abbrev pub request_of : AlgoOrder → ChildOrder → OrderRequest
request_of o c = record {
  market_id = o.market_id;
  side = o.side;
  kind = kind_of c.price;
  price = c.price;
  quantity = c.quantity;
}

abbrev pub with_status : ChildStatus → ChildOrder → ChildOrder
with_status s c = record c { status = s }

abbrev pub sent_one : ChildStatus → ChildOrder → List OrderRequest → Sent ChildOrder
sent_one s c rs = record { value = with_status s c; requests = rs; is_alive = true }

abbrev pub unsent : {A : Type 0} → A → Sent A
unsent x = record { value = x; requests = []; is_alive = true }

unfoldable pub all_filled : List ChildOrder → Bool
all_filled [] = true
all_filled (c ∷ cs) = is_filled c.status && all_filled cs

module _ (d : Decimals) where
  open d use {Decimal, decimal_of, sub, abs, div, is_le}

  -- `(price - expected_price).abs() / expected_price`
  abbrev pub slippage : ℕ → ℕ → Decimal
  slippage price expected =
      div (abs (sub (to_decimal d price) (to_decimal d expected))) (to_decimal d expected)

  -- A division by a price of zero panics.
  abbrev pub check_slippage : ℕ → ℕ → Check
  check_slippage price expected =
      if expected == 0
      then Check.panicked
      else if is_le (slippage price expected) (div (decimal_of 5) (decimal_of 1000))
      then Check.passed
      else Check.refused AppError.slippage_exceeded

  unfoldable pub pre_flight_check : OrderRequest → Check
  pre_flight_check r =
      if is_limit r.kind
      then elim r.price [
        | none ↦ Check.refused (AppError.validation (Part.text "Limit order must have price" ∷ []))
        | some expected ↦ check_slippage (or_zero_price r.price) expected
      ]
      else Check.passed

  -- `simulate` is the mode, `now` the round's time, and `accepts` which sends to `order_tx` succeed,
  -- by the order's identifier and the slice's number.
  module _ (simulate : Bool) (now : ℤ) (accepts : ℕ → ℕ → Bool) where
    unfoldable pub submit_child : ℕ → OrderRequest → ChildOrder → Sent ChildOrder
    submit_child id r c =
        if simulate
        then sent_one ChildStatus.submitted c []
        else if accepts id c.sequence
        then sent_one ChildStatus.submitted c (r ∷ [])
        else sent_one ChildStatus.failed c []

    unfoldable pub run_child : ℕ → AlgoOrder → ChildOrder → Sent ChildOrder
    run_child id o c =
        if not (is_waiting c.status)
        then unsent c
        else if not (leb_ℤ c.scheduled_time now)
        then unsent c
        else elim (pre_flight_check (request_of o c)) [
          | Check.panicked ↦ record { value = c; requests = []; is_alive = false }
          | Check.refused e ↦ sent_one ChildStatus.failed c []
          | Check.passed ↦ submit_child id (request_of o c) c
        ]

    abbrev pub and_children :
        Sent ChildOrder → List ChildOrder → Sent (List ChildOrder) → Sent (List ChildOrder)
    and_children a cs b =
        if a.is_alive
        then record {
          value = a.value ∷ b.value;
          requests = a.requests ++ b.requests;
          is_alive = b.is_alive;
        }
        else record { value = a.value ∷ cs; requests = a.requests; is_alive = false }

    unfoldable pub run_children : ℕ → AlgoOrder → List ChildOrder → Sent (List ChildOrder)
    run_children id o [] = unsent []
    run_children id o (c ∷ cs) = and_children (run_child id o c) cs (run_children id o cs)

    -- The order is running from here on, and complete once all of its slices are filled.
    unfoldable pub finish : AlgoOrder → Sent (List ChildOrder) → Sent AlgoOrder
    finish o s = record {
      value = record o {
        child_orders = s.value;
        status =
            if s.is_alive && all_filled s.value then AlgoStatus.complete else AlgoStatus.running;
      };
      requests = s.requests;
      is_alive = s.is_alive;
    }

    unfoldable pub run_order : ℕ → AlgoOrder → Sent AlgoOrder
    run_order id o =
        if is_active o.status then finish o (run_children id o o.child_orders) else unsent o

    abbrev pub and_orders :
        ℕ → Sent AlgoOrder → Table AlgoOrder → Sent (Table AlgoOrder) → Sent (Table AlgoOrder)
    and_orders id a t b =
        if a.is_alive
        then record {
          value = (id, a.value) ∷ b.value;
          requests = a.requests ++ b.requests;
          is_alive = b.is_alive;
        }
        else record { value = (id, a.value) ∷ t; requests = a.requests; is_alive = false }

    unfoldable pub run_orders : Table AlgoOrder → Sent (Table AlgoOrder)
    run_orders [] = unsent []
    run_orders (e ∷ t) = and_orders e.0 (run_order e.0 e.1) t (run_orders t)

  -- One round of the loop.
  unfoldable pub tick :
      ℤ → (ℕ → ℕ → Bool) → ExecutionEngine Decimal → Sent (ExecutionEngine Decimal)
  tick now accepts e =
      let s = run_orders e.is_simulation_mode now accepts e.orders in
      record { value = record e { orders = s.value }; requests = s.requests; is_alive = s.is_alive }
