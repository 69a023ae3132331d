-- ===== src/Regime/Agreement.antt =====
-- The two readings of a market's regime agree.
use w16crypto_engine.Common.Floats.{Floats, is_over, zero_float}
use w16crypto_engine.Regime.{
  VolatilityRegime, RegimeState, MarketRegime, state_regime, get_regime_state, volatility_regime,
  regime_after, current_regime, MarketStats, stats_state, stats_regime,
}
use w16crypto_engine.Base.{
  ltb, Bool-cases, length, Table, lookup, ℕ, ◌≡◌, refl, inl, inr, Option, none, some, if◌then◌else◌,
  OnSome, ◌≤◌, ◌≢◌, Bool, true, false, arith, leb,
}

-- The regime of a state; a market without one counts as normal.
unfoldable pub reported : {F : Type 0} → Option (RegimeState F) → MarketRegime
reported none = MarketRegime.normal
reported (some s) = s.regime

unfoldable pub has_state : {F : Type 0} → Option (RegimeState F) → Bool
has_state none = false
has_state (some s) = true

-- How many prices of a market are kept.
unfoldable pub prices_kept : Option MarketStats → ℕ
prices_kept none = 0
prices_kept (some s) = length s.prices

-- How volatile the market is, beside its regime.
unfoldable pub Matches : VolatilityRegime → MarketRegime → Type 0
Matches VolatilityRegime.extreme r = r ≡ MarketRegime.high_volatility
Matches VolatilityRegime.high r = Unit
Matches VolatilityRegime.medium r = r ≢ MarketRegime.high_volatility
Matches VolatilityRegime.low r = r ≢ MarketRegime.high_volatility

-- A float above a number of hundredths is above a smaller number of them.
unfoldable pub IsOrdered : Floats → Type 0
IsOrdered f =
    (x : f.Float) (n m : ℕ)
    → n ≤ m
    → f.is_below (f.literal m 100) x ≡ true
    → f.is_below (f.literal n 100) x ≡ true

-- What remains of the choice if the first test fails.
calm :
    (a b c : Bool)
    → (if a
        then MarketRegime.low_liquidity
        else if b
        then if c then MarketRegime.trending_up else MarketRegime.trending_down
        else MarketRegime.ranging)
      ≢ MarketRegime.high_volatility
calm true b c h = cc
calm false true true h = cc
calm false true false h = cc
calm false false c h = cc

-- The tests at 8, 5, 4 and 2 hundredths, each of which implies the next two.
tests_match :
    (at8 at5 at4 at2 : Bool) (r : MarketRegime)
    → (at8 ≡ true → at5 ≡ true)
    → (at5 ≡ true → at4 ≡ true)
    → r ≢ MarketRegime.high_volatility
    → Matches
        (if at8
          then VolatilityRegime.extreme
          else if at4
          then VolatilityRegime.high
          else if at2
          then VolatilityRegime.medium
          else VolatilityRegime.low)
        (if at5 then MarketRegime.high_volatility else r)
unfolding Matches
tests_match true true d e r h k n = refl
tests_match true false d e r h k n = cc (h refl)
tests_match false b true e r h k n = tt
tests_match false true false e r h k n = cc (k refl)
tests_match false false false true r h k n = n
tests_match false false false false r h k n = n

module _ (f : Floats) (ordered : IsOrdered f) where
  state_Matches : (v t l : f.Float) → Matches (volatility_regime f v) (state_regime f v t l)
  unfolding state_regime IsOrdered
  state_Matches v t l =
      let over : ℕ → Bool = λ n. is_over f v (f.literal n 100) in
      tests_match (over 8) (over 5) (over 4) (over 2) _ (ordered v 5 8 (omega arith))
        (ordered v 4 5 (omega arith))
        (calm (f.is_below l (f.literal 3 10)) (is_over f (f.abs t) (f.literal 2 100))
          (is_over f t (zero_float f)))

  stats_agree :
      (now market : ℕ) (o : Option MarketStats)
      → (reported (stats_state f now market o) ≡ stats_regime f o)
        × (has_state (stats_state f now market o) ≡ leb 20 (prices_kept o))
        × OnSome (λ s. Matches s.volatility s.regime) (stats_state f now market o)
  unfolding reported has_state prices_kept state_regime regime_after OnSome
  stats_agree now market none = (refl, refl, tt)
  stats_agree now market (some s) = elim (Bool-cases (ltb (length s.prices) 20)) [
    | inl few ↦ rw few (refl, ground (arith, few), tt)
    | inr enough ↦ rw enough (refl, ground (arith, enough), state_Matches _ _ _)
  ]

  -- For every market and every state of the detector, `get_regime_state` reports the regime that
  -- `current_regime` answers with: both work the regime out for themselves. It reports none if and only
  -- if fewer than 20 prices of the market are kept, and then the other answers normal. An extreme volatility comes with the regime of high volatility, a low or
  -- medium one never does. The floats compare hundredths in their order.
  pub get_regime_state-current :
      (now market : ℕ) (t : Table MarketStats)
      → (reported (get_regime_state f now market t) ≡ current_regime f market t)
        × (has_state (get_regime_state f now market t) ≡ leb 20 (prices_kept (lookup market t)))
        × OnSome (λ s. Matches s.volatility s.regime) (get_regime_state f now market t)
  unfolding get_regime_state current_regime
  get_regime_state-current now market t = stats_agree now market (lookup market t)
