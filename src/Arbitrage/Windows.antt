-- ===== src/Arbitrage/Windows.antt =====
-- The windows of a pair stay within the lookback.
use w16crypto_engine.Common.Windows.{latest, length-drop}
use w16crypto_engine.Common.Floats.{Floats}
use w16crypto_engine.Base.{
  length, length-append, ℕ, ◌-◌, ◌≤◌, List, [], ◌∷◌, ◌++◌, arith, ◌==◌, if◌then◌else◌, Bool, true,
  false, Option, none, some,
}
use w16crypto_engine.Arbitrage.{
  MarketPair, push_bounded, trim_front, register_pair, on_price_update, update_pair_stats,
  correlated, spread, with_price, or_insert, find_pair, spreads_of, new_pair, smaller, larger,
}

push_bounded-length :
    {A : Type 0} (xs : List A) (x : A) → length xs ≤ 200 → length (push_bounded xs x) ≤ 200
unfolding push_bounded
push_bounded-length xs x h =
    ground (arith, h, length-append xs (x ∷ []), length-drop 1 (xs ++ x ∷ []))

trim_front-length : {A : Type 0} (xs : List A) → length (trim_front xs) ≤ 200
unfolding trim_front
trim_front-length xs = ground (arith, length-drop (length xs - 200) xs)

-- The pair has the smaller market first, and none of its windows is too long.
unfoldable pub IsBounded : {F : Type 0} → MarketPair F → Type 0
IsBounded p =
    (p.market_a ≤ p.market_b)
    × (length p.prices_a ≤ 200)
    × (length p.prices_b ≤ 200)
    × (length p.spreads ≤ 200)

unfoldable pub AreBounded : {F : Type 0} → List (MarketPair F) → Type 0
AreBounded [] = Unit
AreBounded (p ∷ ps) = IsBounded p × AreBounded ps

either-IsBounded :
    {F : Type 0} (b : Bool) (p q : MarketPair F)
    → IsBounded p
    → IsBounded q
    → IsBounded (if b then p else q)
either-IsBounded true p q x y = x
either-IsBounded false p q x y = y

pushed-length :
    (b : Bool) (xs : List ℕ) (x : ℕ)
    → length xs ≤ 200
    → length (if b then push_bounded xs x else xs) ≤ 200
pushed-length true xs x h = push_bounded-length xs x h
pushed-length false xs x h = h

module _ (f : Floats) where
  open f use {Float}

  correlated-IsBounded :
      (xs ys : List Float) (p : MarketPair Float) → IsBounded p → IsBounded (correlated f xs ys p)
  unfolding IsBounded
  correlated-IsBounded xs ys p h = either-IsBounded _ _ p h h

  spread-IsBounded : (p : MarketPair Float) → IsBounded p → IsBounded (spread f p)
  unfolding IsBounded
  spread-IsBounded p (ordered, a, b, s) =
      let xs =
        trim_front
          (p.spreads ++ spreads_of f p.hedge_ratio (latest 50 p.prices_a) (latest 50 p.prices_b)) in
      let short : length xs ≤ 200 = trim_front-length _ in
      either-IsBounded _ _ p (either-IsBounded _ _ _ (ordered, a, b, short) (ordered, a, b, short))
        (ordered, a, b, s)

  update_pair_stats-IsBounded :
      (p : MarketPair Float) → IsBounded p → IsBounded (update_pair_stats f p)
  unfolding update_pair_stats IsBounded
  update_pair_stats-IsBounded p h =
      either-IsBounded _ p _ h (spread-IsBounded _ (correlated-IsBounded _ _ p h))

  price-AreBounded :
      (market price : ℕ) (ps : List (MarketPair Float))
      → AreBounded ps
      → AreBounded (on_price_update f market price ps)
  unfolding on_price_update AreBounded IsBounded
  price-AreBounded market price [] h = tt
  price-AreBounded market price (p ∷ ps) ((ordered, a, b, s), rest) =
      let q = with_price f market price p in
      let bounded : IsBounded q = (
        ordered,
        pushed-length (p.market_a == market) p.prices_a price a,
        pushed-length (p.market_b == market) p.prices_b price b,
        s,
      ) in
      (
        either-IsBounded _ _ q (update_pair_stats-IsBounded q bounded) bounded,
        price-AreBounded market price ps rest,
      )

  append-AreBounded :
      (ps : List (MarketPair Float)) (p : MarketPair Float)
      → AreBounded ps
      → IsBounded p
      → AreBounded (ps ++ p ∷ [])
  unfolding AreBounded
  append-AreBounded [] p a b = (b, tt)
  append-AreBounded (q ∷ ps) p (a, rest) b = (a, append-AreBounded ps p rest b)

  -- The states that registrations and prices lead to.
  pub data PairsReach : List (MarketPair Float) → Type 0 where
    none_yet : PairsReach []
    registered :
        {ps : List (MarketPair Float)} (a b : ℕ)
        → PairsReach ps
        → PairsReach (register_pair f a b ps)
    priced :
        {ps : List (MarketPair Float)} (market price : ℕ)
        → PairsReach ps
        → PairsReach (on_price_update f market price ps)

  insert-AreBounded :
      (o : Option (MarketPair Float)) (a b : ℕ) (ps : List (MarketPair Float))
      → AreBounded ps
      → a ≤ b
      → AreBounded (or_insert f o a b ps)
  unfolding IsBounded
  insert-AreBounded none a b ps h le =
      append-AreBounded ps (new_pair f a b) h (le, ground arith, ground arith, ground arith)
  insert-AreBounded (some p) a b ps h le = h

  register-AreBounded :
      (a b : ℕ) (ps : List (MarketPair Float)) → AreBounded ps → AreBounded (register_pair f a b ps)
  unfolding register_pair
  register-AreBounded a b ps h =
      insert-AreBounded (find_pair (smaller a b) (larger a b) ps) (smaller a b) (larger a b) ps h
        (ground arith)

  -- Whatever pairs are registered and whatever prices come, each pair has the smaller market first,
  -- and its windows of prices and of spreads have at most 200 elements.
  pub PairsReach-AreBounded : (ps : List (MarketPair Float)) → PairsReach ps → AreBounded ps
  unfolding AreBounded
  PairsReach-AreBounded ps PairsReach.none_yet = tt
  PairsReach-AreBounded ps (PairsReach.registered {ps = old} a b r) =
      register-AreBounded a b old (PairsReach-AreBounded old r)
  PairsReach-AreBounded ps (PairsReach.priced {ps = old} market price r) =
      price-AreBounded market price old (PairsReach-AreBounded old r)
