-- ===== src/Exposure/Breaker.antt =====
-- What an order that the risk manager allows has passed, and when the breaker refuses all orders.
use w16crypto_engine.Exposure.Fills.{
  update_on_fill, reset_daily_stats, trips, reset_states, with_fill, state_or_new, update_pnl,
}
use w16crypto_engine.Base.{
  ◌==◌, if◌then◌else◌, Bool-cases, Table, lookup, insert, ℕ, ◌<◌, ◌≡◌, refl, sym, subst, inl, inr,
  true, false, some, [], ◌∷◌, arith,
}
use w16crypto_engine.Exposure.{
  RiskManager, UserRiskState, RiskLimits, new_manager, check_order_risk, Decimals, Order, Fill,
  count_or_zero, negated, check_user, zero_usd, drawdown_of, refuse, calculate_risk_score, Reason,
  tenths,
}
use mathlib.Core.Option.{some-injective}

module _ (d : Decimals) where
  open d use {Decimal, decimal_of, add, mul, is_le}

  -- What a user's state and an order of the value keep to.
  unfoldable pub IsWithin : RiskLimits Decimal → UserRiskState Decimal → ℕ → Decimal → Type 0
  IsWithin l s market value =
      (is_le (add s.total_exposure_usd value) l.max_total_exposure_usd ≡ true)
      × (count_or_zero d (lookup market s.positions) < l.max_positions_per_market)
      × (is_le (negated d l.max_daily_loss_usd) s.daily_pnl_usd ≡ true)
      × (is_le (drawdown_of d (zero_usd d) s) l.max_drawdown_pct ≡ true)
      × (is_le (calculate_risk_score d l s value) (tenths d 8) ≡ true)

  check_user-IsWithin :
      (l : RiskLimits Decimal) (s : UserRiskState Decimal) (market : ℕ) (value : Decimal)
      → (check_user d l s market value).allowed ≡ true
      → IsWithin l s market value
  unfolding check_user IsWithin
  check_user-IsWithin l s market value h = ground arith

  -- When an order is allowed, the circuit breaker is off, the order's value is at most the largest
  -- position, and where the user has a state, the exposure with the order, the number of positions,
  -- the day's profit, the drawdown and the score are all within their limits.
  pub check_order_risk-IsWithin :
      (user : ℕ) (o : Order) (price : Decimal) (r : RiskManager Decimal)
      → (check_order_risk d user o price r).allowed ≡ true
      → (r.circuit_breaker ≡ false)
        × (is_le (mul (decimal_of o.quantity) price) r.limits.max_position_size_usd ≡ true)
        × ((s : UserRiskState Decimal)
            → lookup user r.user_states ≡ some s
            → IsWithin r.limits s o.market_id (mul (decimal_of o.quantity) price))
  unfolding check_order_risk
  check_order_risk-IsWithin user o price r h = (
    ground (arith, h),
    ground (arith, h),
    λ s found.
        check_user-IsWithin r.limits s o.market_id (mul (decimal_of o.quantity) price)
          (ground (arith, h, found)),
  )

  -- The states that fills and daily resets lead to.
  pub data RiskReach (l : RiskLimits Decimal) : RiskManager Decimal → Type 0 where
    start : RiskReach l (new_manager d l)
    filled :
        {r : RiskManager Decimal} (user : ℕ) (f : Fill) (price : Decimal)
        → RiskReach l r
        → RiskReach l (update_on_fill d user f price r)
    reset : {r : RiskManager Decimal} → RiskReach l r → RiskReach l (reset_daily_stats d r)

  -- While no breaker is set, no user's loss trips it.
  unfoldable AreUntripped : RiskLimits Decimal → Table (UserRiskState Decimal) → Type 0
  AreUntripped l [] = Unit
  AreUntripped l (e ∷ t) = (trips d l e.1 ≡ false) × AreUntripped l t

  insert-AreUntripped :
      (l : RiskLimits Decimal) (user : ℕ) (s : UserRiskState Decimal)
      (t : Table (UserRiskState Decimal))
      → AreUntripped l t
      → trips d l s ≡ false
      → AreUntripped l (insert user s t)
  unfolding AreUntripped
  insert-AreUntripped l user s [] a b = (b, tt)
  insert-AreUntripped l user s ((k, p) ∷ t) (a, rest) b =
      elim (user == k)
        as (λ c. AreUntripped l (if c then (user, s) ∷ t else (k, p) ∷ insert user s t)) [
          | true ↦ (b, rest)
          | false ↦ (a, insert-AreUntripped l user s t rest b)
        ]

  lookup-AreUntripped :
      (l : RiskLimits Decimal) (user : ℕ) (t : Table (UserRiskState Decimal))
      (s : UserRiskState Decimal)
      → AreUntripped l t
      → lookup user t ≡ some s
      → trips d l s ≡ false
  unfolding AreUntripped
  lookup-AreUntripped l user [] s a h = absurd (ground arith)
  lookup-AreUntripped l user ((k, p) ∷ t) s (a, rest) h = elim (Bool-cases (user == k)) [
    | inl same ↦ subst (λ q. trips d l q ≡ false) (some-injective p s (grind (arith, same, h))) a
    | inr other ↦ lookup-AreUntripped l user t s rest (grind (arith, other, h))
  ]

  reset-AreUntripped :
      (l : RiskLimits Decimal) (t : Table (UserRiskState Decimal))
      → is_le (zero_usd d) (negated d l.max_daily_loss_usd) ≡ false
      → AreUntripped l (reset_states d t)
  unfolding AreUntripped reset_states trips
  reset-AreUntripped l [] h = tt
  reset-AreUntripped l (e ∷ t) h = (h, reset-AreUntripped l t h)

  RiskReach-limits :
      (l : RiskLimits Decimal) (r : RiskManager Decimal) → RiskReach l r → r.limits ≡ l
  unfolding new_manager update_on_fill reset_daily_stats
  RiskReach-limits l r (RiskReach.start) = refl
  RiskReach-limits l r (RiskReach.filled {r = before} user f price s) = RiskReach-limits l before s
  RiskReach-limits l r (RiskReach.reset {r = before} s) = RiskReach-limits l before s

  fill-AreUntripped :
      (user : ℕ) (f : Fill) (price : Decimal) (r : RiskManager Decimal)
      → (r.circuit_breaker ≡ false → AreUntripped r.limits r.user_states)
      → (update_on_fill d user f price r).circuit_breaker ≡ false
      → AreUntripped r.limits (update_on_fill d user f price r).user_states
  unfolding update_on_fill
  fill-AreUntripped user f price r a h =
      let filled =
        with_fill d f (mul (decimal_of f.quantity) price)
          (state_or_new d (lookup user r.user_states)) in
      let s = update_pnl d price filled in
      elim (Bool-cases (trips d r.limits s)) [
        | inl over ↦ absurd (ground (arith, over, h))
        | inr under ↦
            insert-AreUntripped r.limits user s r.user_states (a (ground (arith, under, h))) under
      ]

  RiskReach-AreUntripped :
      (l : RiskLimits Decimal) (r : RiskManager Decimal)
      → is_le (zero_usd d) (negated d l.max_daily_loss_usd) ≡ false
      → RiskReach l r
      → r.circuit_breaker ≡ false
      → AreUntripped r.limits r.user_states
  unfolding new_manager reset_daily_stats AreUntripped update_on_fill
  RiskReach-AreUntripped l r z (RiskReach.start) h = tt
  RiskReach-AreUntripped l r z (RiskReach.filled {r = before} user f price s) h =
      fill-AreUntripped user f price before (RiskReach-AreUntripped l before z s) h
  RiskReach-AreUntripped l r z (RiskReach.reset {r = before} s) h =
      reset-AreUntripped before.limits before.user_states (
        subst (λ k. is_le (zero_usd d) (negated d k.max_daily_loss_usd) ≡ false)
          (sym (RiskReach-limits l before s)) z)

  -- After any fills and daily resets, as soon as one user's loss of the day reaches the limit, which
  -- is above zero, every order of every user is refused because of the breaker.
  pub RiskReach-refuses :
      (l : RiskLimits Decimal) (r : RiskManager Decimal)
      → is_le (zero_usd d) (negated d l.max_daily_loss_usd) ≡ false
      → RiskReach l r
      → (loser : ℕ) (s : UserRiskState Decimal) → lookup loser r.user_states ≡ some s
      → trips d l s ≡ true
      → (user : ℕ) (o : Order) (price : Decimal)
      → check_order_risk d user o price r ≡ refuse d Reason.breaker_active
  unfolding check_order_risk
  RiskReach-refuses l r z reach loser s h t user o price = elim (Bool-cases r.circuit_breaker) [
    | inl tripped ↦ ground (arith, tripped)
    | inr off ↦
        let calm : trips d r.limits s ≡ false =
          lookup-AreUntripped r.limits loser r.user_states s
            (RiskReach-AreUntripped l r z reach off) h in
        absurd (grind (arith, calm, t, RiskReach-limits l r reach))
  ]
