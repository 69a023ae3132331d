-- ===== src/Execution/Conservation.antt =====
-- What an engine sends, against the orders that it was given.
use mathlib.Core.Option.{some-injective}
use w16crypto_engine.Execution.Creation.{IsCreated, IsCreated-adds}
use w16crypto_engine.Execution.Volume.{update_volume}
use w16crypto_engine.Execution.Slices.{quantity_of}
use w16crypto_engine.Base.{
  if◌then◌else◌, sum_by, sum_by-append, ℤ, Table, insert, ℕ, ◌+◌, ◌≤◌, ◌≡◌, Bool, List, [], ◌∷◌,
  ◌++◌, arith, lookup, some, Option-cases, lookup-insert_self, inl, inr, sym, ap, ◌∙◌,
}
use w16crypto_engine.Execution.{
  ChildOrder, AlgoOrder, Decimals, ExecutionEngine, get_algo_order, AlgoStatus, cancel_algo_order,
  new_engine,
}
use w16crypto_engine.Execution.Executor.{
  is_waiting, run_child, run_children, run_order, run_orders, submit_child, finish, tick,
}
use w16crypto_engine.Common.Types.{OrderRequest}

-- The quantity of a slice that can still be sent, of a list of slices, and of all orders.
abbrev pub pending_of : ChildOrder → ℕ
pending_of c = if is_waiting c.status then c.quantity else 0

abbrev pub pending_slices : List ChildOrder → ℕ
pending_slices cs = sum_by pending_of cs

abbrev pub pending_in : Table AlgoOrder → ℕ
pending_in t = sum_by (λ e. pending_slices e.1.child_orders) t

abbrev pub sent_quantity : List OrderRequest → ℕ
sent_quantity rs = sum_by (λ r. r.quantity) rs

sent-append :
    (rs ss : List OrderRequest) → sent_quantity (rs ++ ss) ≡ sent_quantity rs + sent_quantity ss
sent-append rs ss = sum_by-append (λ r. r.quantity) rs ss

insert_pending :
    (id : ℕ) (o : AlgoOrder) (t : Table AlgoOrder)
    → pending_in (insert id o t) ≤ pending_in t + pending_slices o.child_orders
insert_pending id o [] = ground arith
insert_pending id o (e ∷ t) = ground (arith, insert_pending id o t)

module _ (d : Decimals) where
  open d use {Decimal}

  module _ (simulate : Bool) (now : ℤ) (accepts : ℕ → ℕ → Bool) where
    child_sends :
        (id : ℕ) (o : AlgoOrder) (c : ChildOrder)
        → sent_quantity (run_child d simulate now accepts id o c).requests
            + pending_of (run_child d simulate now accepts id o c).value
          ≤ pending_of c
    unfolding run_child submit_child
    child_sends id o c = ground (arith)

    children_send :
        (id : ℕ) (o : AlgoOrder) (cs : List ChildOrder)
        → sent_quantity (run_children d simulate now accepts id o cs).requests
            + pending_slices (run_children d simulate now accepts id o cs).value
          ≤ pending_slices cs
    unfolding run_children
    children_send id o [] = ground arith
    children_send id o (c ∷ cs) =
        let first = run_child d simulate now accepts id o c in
        let rest = run_children d simulate now accepts id o cs in
        ground (
          arith,
          sent-append first.requests rest.requests,
          child_sends id o c,
          children_send id o cs,
        )

    order_sends :
        (id : ℕ) (o : AlgoOrder)
        → sent_quantity (run_order d simulate now accepts id o).requests
            + pending_slices (run_order d simulate now accepts id o).value.child_orders
          ≤ pending_slices o.child_orders
    unfolding run_order finish
    order_sends id o = ground (arith, children_send id o o.child_orders)

    orders_send :
        (t : Table AlgoOrder)
        → sent_quantity (run_orders d simulate now accepts t).requests
            + pending_in (run_orders d simulate now accepts t).value
          ≤ pending_in t
    unfolding run_orders
    orders_send [] = ground arith
    orders_send (e ∷ t) =
        let first = run_order d simulate now accepts e.0 e.1 in
        let rest = run_orders d simulate now accepts t in
        ground (arith, sent-append first.requests rest.requests, order_sends e.0 e.1, orders_send t)

  -- An engine's life: the state it is in, the quantity of all slices made, and what was sent.
  pub data Run : ExecutionEngine Decimal → ℕ → List OrderRequest → Type 0 where
    start : (simulate : Bool) → Run (new_engine simulate) 0 []
    created :
        {e e' : ExecutionEngine Decimal} {n : ℕ} {rs : List OrderRequest} (id : ℕ) (o : AlgoOrder)
        → Run e n rs
        → IsCreated d e id e'
        → get_algo_order id e' ≡ some o
        → Run e' (n + sum_by quantity_of o.child_orders) rs
    cancelled :
        {e : ExecutionEngine Decimal} {n : ℕ} {rs : List OrderRequest} (id : ℕ)
        → Run e n rs
        → Run (cancel_algo_order id e).1 n rs
    observed :
        {e : ExecutionEngine Decimal} {n : ℕ} {rs : List OrderRequest} (m volume hour : ℕ)
        → Run e n rs
        → Run (update_volume d m volume hour e) n rs
    ticked :
        {e : ExecutionEngine Decimal} {n : ℕ} {rs : List OrderRequest} (now : ℤ)
        (accepts : ℕ → ℕ → Bool)
        → Run e n rs
        → Run (tick d now accepts e).value n (rs ++ (tick d now accepts e).requests)

  pending_slices_le : (cs : List ChildOrder) → pending_slices cs ≤ sum_by quantity_of cs
  pending_slices_le [] = ground arith
  pending_slices_le (c ∷ cs) = ground (arith, pending_slices_le cs)

  added_pending :
      (e : ExecutionEngine Decimal) (id : ℕ) (e' : ExecutionEngine Decimal) (o : AlgoOrder)
      → IsCreated d e id e'
      → get_algo_order id e' ≡ some o
      → pending_in e'.orders ≤ pending_in e.orders + sum_by quantity_of o.child_orders
  unfolding get_algo_order
  added_pending e id e' o c h =
      let (p, eq, new) = IsCreated-adds d e id e' c in
      let same : p ≡ o =
        some-injective p o
          (sym (lookup-insert_self id p e.orders) ∙ sym (ap (λ k. lookup id k.orders) eq) ∙ h) in
      let stored : pending_in e'.orders ≡ pending_in (insert id p e.orders) =
        ap (λ k. pending_in k.orders) eq in
      let slices : pending_slices p.child_orders ≡ pending_slices o.child_orders =
        ap (λ k. pending_slices k.child_orders) same in
      ground (arith, stored, slices, insert_pending id p e.orders, pending_slices_le o.child_orders)

  pending_lookup :
      (id : ℕ) (t : Table AlgoOrder) (o : AlgoOrder)
      → lookup id t ≡ some o
      → pending_in (insert id (record o { status = AlgoStatus.cancelled }) t) ≡ pending_in t
  pending_lookup id [] o h = ground arith
  pending_lookup id (e ∷ t) o h = ground (arith, pending_lookup id t o)

  cancel_pending :
      (id : ℕ) (e : ExecutionEngine Decimal)
      → pending_in (cancel_algo_order id e).1.orders ≡ pending_in e.orders
  unfolding cancel_algo_order
  cancel_pending id e = elim (Option-cases (lookup id e.orders)) [
    | inl h ↦ ground (arith, h)
    | inr (o, h) ↦ ground (arith, h, pending_lookup id e.orders o h)
  ]

  -- Over the whole life of an engine, with orders cancelled in between, any slices due and any
  -- sends that fail, what was sent and what can still be sent never exceed the slices of the orders
  -- that it was given: no slice is sent twice.
  pub Run-conserves :
      (e : ExecutionEngine Decimal) (n : ℕ) (rs : List OrderRequest)
      → Run e n rs
      → sent_quantity rs + pending_in e.orders ≤ n
  unfolding new_engine update_volume tick
  Run-conserves e n rs (Run.start simulate) = ground arith
  Run-conserves e n rs (Run.created {e = before} id o r c h) =
      ground (arith, Run-conserves before _ rs r, added_pending before id e o c h)
  Run-conserves e n rs (Run.cancelled {e = before} id r) =
      ground (arith, Run-conserves before n rs r, cancel_pending id before)
  Run-conserves e n rs (Run.observed {e = before} m volume hour r) = Run-conserves before n rs r
  Run-conserves e n rs (Run.ticked {e = before} {rs = old} now accepts r) = ground (
    arith,
    Run-conserves before n old r,
    orders_send before.is_simulation_mode now accepts before.orders,
    sent-append old (tick d now accepts before).requests,
  )
