-- ===== src/Pnl/Closing.antt =====
-- The quantities that a fill leaves.
use w16crypto_engine.Base.{
  ◌==◌, if◌then◌else◌, ℕ, ◌+◌, ◌-◌, min, ◌≡◌, false, ◌&&◌, List, [], ◌∷◌, ◌++◌, arith, Table,
  lookup, insert, lookup-insert, ap, ◌∙◌,
}
use w16crypto_engine.Pnl.{
  PositionPnl, PnlTracker, close_positions, apply_to_positions, record_fill, positions_of, Decimals,
  is_buy, Fill, profit, put_positions, or_empty, opened, fill_price, update_daily_record,
  get_market_pnl,
}

-- The quantity of the bought positions.
unfoldable pub held_in : {D : Type 0} → List (PositionPnl D) → ℕ
held_in [] = 0
held_in (p ∷ ps) = (if is_buy p.side then p.quantity else 0) + held_in ps

held-append :
    {D : Type 0} (ps qs : List (PositionPnl D)) → held_in (ps ++ qs) ≡ held_in ps + held_in qs
unfolding held_in
held-append [] qs = ground arith
held-append (p ∷ ps) qs = ground (arith, held-append ps qs)

-- The quantity that a fill leaves of a held one.
abbrev pub after_fill : Fill → ℕ → ℕ
after_fill f n = if is_buy f.aggressor then n + f.quantity else n - f.quantity

module _ (d : Decimals) where
  open d use {Decimal, decimal_of, add}

  close_positions-held :
      (price : Decimal) (n : ℕ) (realized : Decimal) (ps : List (PositionPnl Decimal))
      → (held_in (close_positions d price n realized ps).kept ≡ held_in ps - n)
        × ((close_positions d price n realized ps).remaining ≡ n - held_in ps)
  unfolding close_positions held_in
  close_positions-held price n realized [] = ground arith
  close_positions-held price n realized (p ∷ ps) = ground (
    arith,
    close_positions-held price n realized ps,
    close_positions-held price (n - min n p.quantity)
        (add realized (profit d price (min n p.quantity) p)) ps,
  )

  positions-put :
      (user market u m : ℕ) (ps : List (PositionPnl Decimal))
      (t : Table (Table (List (PositionPnl Decimal))))
      → positions_of u m (put_positions user market ps t)
        ≡ (if (u == user) && (m == market) then ps else positions_of u m t)
  positions-put user market u m ps t = ground (
    arith,
    lookup-insert u user (insert market ps (or_empty (lookup user t))) t,
    lookup-insert m market ps (or_empty (lookup user t)),
  )

  filled_positions : Fill → Decimal → List (PositionPnl Decimal) → List (PositionPnl Decimal)
  filled_positions f price ps =
      if is_buy f.aggressor
      then ps ++ opened d f price ∷ []
      else (close_positions d (fill_price d f) f.quantity (decimal_of 0) ps).kept

  filled_positions-held :
      (f : Fill) (price : Decimal) (ps : List (PositionPnl Decimal))
      → held_in (filled_positions f price ps) ≡ after_fill f (held_in ps)
  unfolding filled_positions held_in
  filled_positions-held f price ps = ground (
    arith,
    held-append ps (opened d f price ∷ []),
    close_positions-held (fill_price d f) f.quantity (decimal_of 0) ps,
  )

  record_fill-positions :
      (today user market : ℕ) (f : Fill) (price : Decimal) (t : PnlTracker Decimal)
      → t.are_positions_held ≡ false
      → (record_fill d today user market f price t).1.positions
        ≡ put_positions user market
            (filled_positions f price (positions_of user market t.positions))
            t.positions
  unfolding record_fill update_daily_record get_market_pnl apply_to_positions filled_positions
  record_fill-positions today user market f price t free = ground (arith, free)

  -- A fill that finds the lock free adds a buy's quantity to what the user holds in the market and
  -- takes a sale's off it, as far as there is any. What another user holds, or the same user in
  -- another market, stays.
  pub record_fill-held :
      (today user market : ℕ) (f : Fill) (price : Decimal) (t : PnlTracker Decimal)
      → t.are_positions_held ≡ false
      → (u m : ℕ)
      → held_in (positions_of u m (record_fill d today user market f price t).1.positions) ≡ (
          let n = held_in (positions_of u m t.positions) in
          if (u == user) && (m == market) then after_fill f n else n)
  record_fill-held today user market f price t free u m =
      ap (λ k. held_in (positions_of u m k))
        (record_fill-positions today user market f price t free)
      ∙ ap held_in (positions-put user market u m _ t.positions)
      ∙ grind (arith, filled_positions-held f price (positions_of user market t.positions))
