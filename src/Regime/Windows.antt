-- ===== src/Regime/Windows.antt =====
-- The windows of the detector are bounded.
use w16crypto_engine.Common.Windows.{push_window, length-drop, push_window-length}
use w16crypto_engine.Regime.{
  MarketStats, on_trade, on_book, stats_or_new, with_spread, with_trade, with_levels,
}
use w16crypto_engine.Common.Types.{OrderBook, PriceLevel, Fill}
use w16crypto_engine.Base.{
  length, length-append, Table, lookup, OnSome, none-OnSome, insert-OnSome, ℕ, ◌≤◌, ◌≡◌, refl,
  Option, none, some, List, [], ◌∷◌, ◌++◌, arith,
}

-- The states that fills and books lead to.
pub data RegimeReach : Table MarketStats → Type 0 where
  unseen : RegimeReach []
  traded :
      {t : Table MarketStats} (now : ℕ) (x : Fill) → RegimeReach t → RegimeReach (on_trade now x t)
  quoted :
      {t : Table MarketStats} (now market : ℕ) (b : OrderBook)
      → RegimeReach t
      → RegimeReach (on_book now market b t)

-- As many volumes as prices, and none of the windows too long.
unfoldable pub FitsWindows : MarketStats → Type 0
FitsWindows s =
    (length s.prices ≤ 100) × (length s.volumes ≡ length s.prices) × (length s.spreads ≤ 50)

stats-FitsWindows :
    (now : ℕ) (o : Option MarketStats) → OnSome FitsWindows o → FitsWindows (stats_or_new now o)
unfolding OnSome FitsWindows
stats-FitsWindows now none h = (omega arith, refl, omega arith)
stats-FitsWindows now (some s) h = h

push_window-same :
    (n : ℕ) (xs ys : List ℕ) (x y : ℕ)
    → length ys ≡ length xs
    → length (push_window n ys y) ≡ length (push_window n xs x)
push_window-same n xs ys x y h = ground (
  arith,
  h,
  length-append xs (x ∷ []),
  length-append ys (y ∷ []),
  length-drop 1 (xs ++ x ∷ []),
  length-drop 1 (ys ++ y ∷ []),
)

spread-length :
    (bids asks : List PriceLevel) (xs : List ℕ)
    → length xs ≤ 50
    → length (with_spread bids asks xs) ≤ 50
spread-length [] asks xs h = h
spread-length (b ∷ bids) [] xs h = h
spread-length (b ∷ bids) (a ∷ asks) xs h = push_window-length 50 xs _ h

trade-FitsWindows :
    (now : ℕ) (x : Fill) (s : MarketStats) → FitsWindows s → FitsWindows (with_trade now x s)
unfolding FitsWindows
trade-FitsWindows now x s (p, v, w) =
    (push_window-length 100 s.prices x.price p, push_window-same 100 s.prices s.volumes _ _ v, w)

book-FitsWindows :
    (now : ℕ) (b : OrderBook) (s : MarketStats) → FitsWindows s → FitsWindows (with_levels now b s)
unfolding FitsWindows
book-FitsWindows now b s (p, v, w) = (p, v, spread-length b.bids b.asks s.spreads w)

-- Whatever fills and books come, a market has at most 100 prices, as many volumes as prices, and at
-- most 50 spreads.
pub RegimeReach-FitsWindows :
    (t : Table MarketStats) (market : ℕ) → RegimeReach t → OnSome FitsWindows (lookup market t)
unfolding on_trade on_book
RegimeReach-FitsWindows t market RegimeReach.unseen = none-OnSome _
RegimeReach-FitsWindows t market (RegimeReach.traded {t = old} now x r) =
    insert-OnSome _ market x.market_id _ old
      (trade-FitsWindows now x _
        (stats-FitsWindows now _ (RegimeReach-FitsWindows old x.market_id r)))
      (RegimeReach-FitsWindows old market r)
RegimeReach-FitsWindows t market (RegimeReach.quoted {t = old} now key b r) =
    insert-OnSome _ market key _ old
      (book-FitsWindows now b _ (stats-FitsWindows now _ (RegimeReach-FitsWindows old key r)))
      (RegimeReach-FitsWindows old market r)
