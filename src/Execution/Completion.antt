-- ===== src/Execution/Completion.antt =====
-- Which orders an engine completes.
use w16crypto_engine.Common.Types.{OrderRequest}
use w16crypto_engine.Execution.Volume.{update_volume}
use mathlib.Core.Option.{some-injective}
use w16crypto_engine.Base.{
  ◌==◌, if◌then◌else◌, Bool-cases, ℤ, Table, lookup, insert, ℕ, ◌≡◌, refl, subst, inl, inr, Bool,
  true, false, some, List, [], ◌∷◌, arith, sym, Option, ◌++◌, none,
}
use w16crypto_engine.Execution.{
  AlgoOrder, ExecutionEngine, Decimals, ChildOrder, AlgoStatus, cancel_algo_order, new_engine,
  get_algo_order, add_order,
}
use w16crypto_engine.Execution.Creation.{AreUnfilled, IsUnfilled, IsCreated-adds}
use w16crypto_engine.Execution.Conservation.{Run}
use w16crypto_engine.Execution.Executor.{
  is_filled, all_filled, run_child, run_children, run_order, run_orders, submit_child, finish,
  is_active, tick, unsent, Sent,
}

unfoldable AreAllUnfilled : Table AlgoOrder → Type 0
AreAllUnfilled [] = Unit
AreAllUnfilled (e ∷ t) = IsUnfilled e.1 × AreAllUnfilled t

lookup-IsUnfilled :
    (id : ℕ) (t : Table AlgoOrder) (o : AlgoOrder)
    → AreAllUnfilled t
    → lookup id t ≡ some o
    → IsUnfilled o
unfolding AreAllUnfilled
lookup-IsUnfilled id [] o a h = absurd (ground arith)
lookup-IsUnfilled id ((k, p) ∷ t) o (a, rest) h = elim (Bool-cases (id == k)) [
  | inl same ↦ subst IsUnfilled (some-injective p o (grind (arith, same, h))) a
  | inr other ↦ lookup-IsUnfilled id t o rest (grind (arith, other, h))
]

insert-AreAllUnfilled :
    (id : ℕ) (o : AlgoOrder) (t : Table AlgoOrder)
    → AreAllUnfilled t
    → IsUnfilled o
    → AreAllUnfilled (insert id o t)
unfolding AreAllUnfilled
insert-AreAllUnfilled id o [] a b = (b, tt)
insert-AreAllUnfilled id o ((k, p) ∷ t) (a, rest) b =
    elim (id == k) as (λ c. AreAllUnfilled (if c then (id, o) ∷ t else (k, p) ∷ insert id o t)) [
      | true ↦ (b, rest)
      | false ↦ (a, insert-AreAllUnfilled id o t rest b)
    ]

none_filled : (cs : List ChildOrder) → AreUnfilled cs → all_filled cs ≡ true → cs ≡ []
unfolding all_filled AreUnfilled
none_filled [] a h = refl
none_filled (c ∷ cs) a h = ground arith

module _ (d : Decimals) where
  open d use {Decimal}

  module _ (simulate : Bool) (now : ℤ) (accepts : ℕ → ℕ → Bool) where
    run_child-unfilled :
        (id : ℕ) (o : AlgoOrder) (c : ChildOrder)
        → is_filled c.status ≡ false
        → is_filled (run_child d simulate now accepts id o c).value.status ≡ false
    unfolding run_child submit_child
    run_child-unfilled id o c h = ground (arith)

    run_children-AreUnfilled :
        (id : ℕ) (o : AlgoOrder) (cs : List ChildOrder)
        → AreUnfilled cs
        → AreUnfilled (run_children d simulate now accepts id o cs).value
    unfolding run_children AreUnfilled
    run_children-AreUnfilled id o [] a = tt
    run_children-AreUnfilled id o (c ∷ cs) (a, rest) =
        let first = run_child d simulate now accepts id o c in
        let later = run_children d simulate now accepts id o cs in
        let kept : Sent (List ChildOrder) = record {
          value = first.value ∷ later.value;
          requests = first.requests ++ later.requests;
          is_alive = later.is_alive;
        } in
        let stopped : Sent (List ChildOrder) = record {
          value = first.value ∷ cs;
          requests = first.requests;
          is_alive = false;
        } in
        elim (first.is_alive) as (λ b. AreUnfilled (if b then kept else stopped).value) [
          | true ↦ (run_child-unfilled id o c a, run_children-AreUnfilled id o cs rest)
          | false ↦ (run_child-unfilled id o c a, rest)
        ]

    run_order-IsUnfilled :
        (id : ℕ) (o : AlgoOrder)
        → IsUnfilled o
        → IsUnfilled (run_order d simulate now accepts id o).value
    unfolding run_order finish IsUnfilled
    run_order-IsUnfilled id o (a, b) =
        let s = run_children d simulate now accepts id o o.child_orders in
        let unfilled : AreUnfilled s.value = run_children-AreUnfilled id o o.child_orders a in
        elim (is_active o.status)
          as (λ k. IsUnfilled (if k then finish d simulate now accepts o s else unsent o).value) [
            | true ↦ (unfilled, λ h. none_filled s.value unfilled (ground (arith, h)))
            | false ↦ (a, b)
          ]

    run_orders-AreAllUnfilled :
        (t : Table AlgoOrder)
        → AreAllUnfilled t
        → AreAllUnfilled (run_orders d simulate now accepts t).value
    unfolding run_orders AreAllUnfilled
    run_orders-AreAllUnfilled [] a = tt
    run_orders-AreAllUnfilled (e ∷ t) (a, rest) =
        let first = run_order d simulate now accepts e.0 e.1 in
        let later = run_orders d simulate now accepts t in
        let kept : Sent (Table AlgoOrder) = record {
          value = (e.0, first.value) ∷ later.value;
          requests = first.requests ++ later.requests;
          is_alive = later.is_alive;
        } in
        let stopped : Sent (Table AlgoOrder) = record {
          value = (e.0, first.value) ∷ t;
          requests = first.requests;
          is_alive = false;
        } in
        elim (first.is_alive) as (λ b. AreAllUnfilled (if b then kept else stopped).value) [
          | true ↦ (run_order-IsUnfilled e.0 e.1 a, run_orders-AreAllUnfilled t rest)
          | false ↦ (run_order-IsUnfilled e.0 e.1 a, rest)
        ]

  cancelled-IsUnfilled :
      (o : AlgoOrder) → IsUnfilled o → IsUnfilled (record o { status = AlgoStatus.cancelled })
  unfolding IsUnfilled
  cancelled-IsUnfilled o (a, b) = (a, λ h. absurd (ground arith))

  cancel-AreAllUnfilled :
      (id : ℕ) (e : ExecutionEngine Decimal)
      → AreAllUnfilled e.orders
      → AreAllUnfilled (cancel_algo_order id e).1.orders
  unfolding cancel_algo_order
  cancel-AreAllUnfilled id e a =
      let after : Option AlgoOrder → Bool × ExecutionEngine Decimal = λ f. elim f [
        | none ↦ (false, e)
        | some o ↦ (true, add_order id (record o { status = AlgoStatus.cancelled }) e)
      ] in
      (elim (lookup id e.orders)
          as (λ f.
            ((o : AlgoOrder) → f ≡ some o → IsUnfilled o) → AreAllUnfilled (after f).1.orders) [
              | none ↦ λ found. a
              | some o ↦ λ found.
                  insert-AreAllUnfilled id _ e.orders a (cancelled-IsUnfilled o (found o refl))
            ])
        (λ o. lookup-IsUnfilled id e.orders o a)

  Run-AreAllUnfilled :
      (e : ExecutionEngine Decimal) (n : ℕ) (rs : List OrderRequest)
      → Run d e n rs
      → AreAllUnfilled e.orders
  unfolding new_engine update_volume tick AreAllUnfilled
  Run-AreAllUnfilled e n rs (Run.start simulate) = tt
  Run-AreAllUnfilled e n rs (Run.created {e = before} id o r c h) =
      let (p, eq, new) = IsCreated-adds d before id e c in
      subst (λ k. AreAllUnfilled k.orders) (sym eq)
        (insert-AreAllUnfilled id p before.orders (Run-AreAllUnfilled before _ rs r) new)
  Run-AreAllUnfilled e n rs (Run.cancelled {e = before} id r) =
      cancel-AreAllUnfilled id before (Run-AreAllUnfilled before n rs r)
  Run-AreAllUnfilled e n rs (Run.observed {e = before} m volume hour r) =
      Run-AreAllUnfilled before n rs r
  Run-AreAllUnfilled e n rs (Run.ticked {e = before} {rs = old} now accepts r) =
      run_orders-AreAllUnfilled before.is_simulation_mode now accepts before.orders
        (Run-AreAllUnfilled before n old r)

  -- In the whole life of an engine no order that has a slice is ever complete: no step makes a slice
  -- filled.
  pub Run-never_complete :
      (e : ExecutionEngine Decimal) (n : ℕ) (rs : List OrderRequest)
      → Run d e n rs
      → (id : ℕ) (o : AlgoOrder) → get_algo_order id e ≡ some o
      → o.status ≡ AlgoStatus.complete
      → o.child_orders ≡ []
  unfolding get_algo_order IsUnfilled
  Run-never_complete e n rs r id o h c =
      (lookup-IsUnfilled id e.orders o (Run-AreAllUnfilled e n rs r) h).1 c
