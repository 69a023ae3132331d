-- ===== src/Signals/Market.antt =====
-- Every signal is for the market that was asked for, and the window of every market is bounded.
use w16crypto_engine.Signals.Generation.{
  create_signal, check_volumes, Draw, or_default, check_averages, check_walls, check_levels,
  check_order_flow_imbalance, check_momentum, push_some, signals_of, generate,
  check_support_resistance,
}
use w16crypto_engine.Common.Floats.{Floats, is_over, share_of}
use w16crypto_engine.Common.Windows.{push_window-length}
use w16crypto_engine.Signals.{
  MarketData, entry_or_new, on_fill, on_book_update, fill_data, TradingSignalType, SignalStrength,
}
use w16crypto_engine.Common.Types.{Signal, Fill, OrderBook}
use w16crypto_engine.Base.{
  length, Table, lookup, ℕ, ◌+◌, ◌≤◌, ◌≡◌, Option, none, some, List, [], ◌∷◌, arith, OnSome,
  insert-OnSome, String, refl, ap, either-OnSome, unless-OnSome, none-OnSome, ltb, ◌==◌, u64_bound,
  ◌-◌, ◌%◌, ◌&&◌, ◌||◌, ForAll, nil-ForAll,
}

-- The signal is for the market, and lasts for an hour.
unfoldable pub IsFor : {F : Type 0} → ℕ → Signal F → Type 0
IsFor market s = (s.market_id ≡ market) × (s.expires_at ≡ s.created_at + 3600)

-- The states that fills and books lead to.
pub data SignalsReach : Table MarketData → Type 0 where
  no_market : SignalsReach []
  filled :
      {t : Table MarketData} (now : ℕ) (x : Fill) → SignalsReach t → SignalsReach (on_fill now x t)
  booked :
      {t : Table MarketData} (now market : ℕ) (b : OrderBook)
      → SignalsReach t
      → SignalsReach (on_book_update now market b t)

abbrev FitsWindow : MarketData → Type 0
FitsWindow d = length d.fills ≤ 100

entry-FitsWindow :
    (now : ℕ) (o : Option MarketData) → OnSome FitsWindow o → FitsWindow (entry_or_new now o)
unfolding OnSome
entry-FitsWindow now none h = omega arith
entry-FitsWindow now (some d) h = h

Reach-FitsWindow :
    (t : Table MarketData) (market : ℕ) → SignalsReach t → OnSome FitsWindow (lookup market t)
unfolding on_fill on_book_update OnSome
Reach-FitsWindow t market SignalsReach.no_market = tt
Reach-FitsWindow t market (SignalsReach.filled {t = old} now x r) =
    let entry = entry-FitsWindow now _ (Reach-FitsWindow old x.market_id r) in
    insert-OnSome FitsWindow market x.market_id _ old
      (push_window-length 100 _ (fill_data now x) entry) (Reach-FitsWindow old market r)
Reach-FitsWindow t market (SignalsReach.booked {t = old} now key b r) =
    insert-OnSome FitsWindow market key _ old (entry-FitsWindow now _ (Reach-FitsWindow old key r))
      (Reach-FitsWindow old market r)

module _ (f : Floats) (show : ℕ → String) (parse : String → Option ℕ) where
  open f use {Float, literal}

  module _ (trip : (k : ℕ) → parse (show k) ≡ some k) where
    create_signal-IsFor :
        (d : Draw) (market : ℕ) (kind : TradingSignalType) (w : SignalStrength) (c : Float)
        (target stop : Option ℕ) (texts : List String)
        → IsFor market (create_signal f show parse d (show market) kind w c target stop texts)
    unfolding create_signal IsFor
    create_signal-IsFor d market kind w c target stop texts =
        (ap (λ o. or_default o d.fallback) (trip market), refl)

    volumes-IsFor :
        (d : Draw) (a b market : ℕ)
        → OnSome (IsFor market) (check_volumes f show parse d a b (show market))
    unfolding check_volumes
    volumes-IsFor d a b market =
        let total = (a + b) % u64_bound in
        unless-OnSome _ (total == 0) _ (
          either-OnSome _ (is_over f (share_of f a total) (literal 6 10)) _ _
            (create_signal-IsFor d market _ _ _ _ _ _)
            (either-OnSome _ (is_over f (share_of f b total) (literal 6 10)) _ none
              (create_signal-IsFor d market _ _ _ _ _ _) (none-OnSome _)))

    averages-IsFor :
        (d : Draw) (recent older : Float) (market : ℕ)
        → OnSome (IsFor market) (check_averages f show parse d recent older (show market))
    unfolding check_averages
    averages-IsFor d recent older market =
        either-OnSome _ _ _ none (create_signal-IsFor d market _ _ _ _ _ _) (none-OnSome _)

    walls-IsFor :
        (d : Draw) (bid ask a b market : ℕ)
        → OnSome (IsFor market) (check_walls f show parse d bid ask a b (show market))
    unfolding check_walls
    walls-IsFor d bid ask a b market =
        let both = (a + b) % u64_bound in
        let narrow = ltb (ask - bid) 10 in
        unless-OnSome _ ((a == 0) || (b == 0)) _ (
          either-OnSome _ (is_over f (share_of f a both) (literal 65 100) && narrow) _ _
            (create_signal-IsFor d market _ _ _ _ _ _)
            (either-OnSome _ (is_over f (share_of f b both) (literal 65 100) && narrow) _ none
              (create_signal-IsFor d market _ _ _ _ _ _) (none-OnSome _)))

    levels-IsFor :
        (d : Draw) (bids asks : List (ℕ × ℕ)) (market : ℕ)
        → OnSome (IsFor market) (check_levels f show parse d bids asks (show market))
    unfolding OnSome
    levels-IsFor d [] asks market = tt
    levels-IsFor d (b ∷ bids) [] market = tt
    levels-IsFor d (b ∷ bids) (a ∷ asks) market = walls-IsFor d b.0 a.0 _ _ market

    imbalance-IsFor :
        (d : Draw) (m : MarketData) (market : ℕ)
        → OnSome (IsFor market) (check_order_flow_imbalance f show parse d m (show market))
    unfolding check_order_flow_imbalance
    imbalance-IsFor d m market = unless-OnSome _ _ _ (volumes-IsFor d _ _ market)

    momentum-IsFor :
        (d : Draw) (m : MarketData) (market : ℕ)
        → OnSome (IsFor market) (check_momentum f show parse d m (show market))
    unfolding check_momentum
    momentum-IsFor d m market =
        unless-OnSome _ _ _ (unless-OnSome _ _ _ (averages-IsFor d _ _ market))

    push-ForAll :
        (P : Signal Float → Type 0) (o : Option (Signal Float)) (xs : List (Signal Float))
        → OnSome P o
        → ForAll P xs
        → ForAll P (push_some f show parse o xs)
    unfolding ForAll OnSome
    push-ForAll P none xs h rest = rest
    push-ForAll P (some s) xs h rest = (h, rest)

    signals-ForAll :
        (a b c : Draw) (o : Option MarketData) (market : ℕ)
        → ForAll (IsFor market) (signals_of f show parse a b c o (show market))
    unfolding signals_of check_support_resistance
    signals-ForAll a b c none market = nil-ForAll _
    signals-ForAll a b c (some m) market = push-ForAll _ _ _ (imbalance-IsFor a m market) (
        push-ForAll _ _ _ (momentum-IsFor b m market)
          (push-ForAll _ _ _ (levels-IsFor c m.bids m.asks market) (nil-ForAll _)))

    -- Whatever fills and books have come, the window of a market has at most 100 fills, and every
    -- signal that is generated for a market names that market and expires an hour after it is made.
    -- The text of a UUID is parsed back to it.
    pub generate-ForAll :
        (a b c : Draw) (market : ℕ) (t : Table MarketData)
        → SignalsReach t
        → OnSome (λ d. length d.fills ≤ 100) (lookup market t)
          × ForAll (IsFor market) (generate f show parse a b c market t)
    unfolding generate
    generate-ForAll a b c market t r =
        (Reach-FitsWindow t market r, signals-ForAll a b c (lookup market t) market)
