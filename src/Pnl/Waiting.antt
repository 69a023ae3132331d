-- ===== src/Pnl/Waiting.antt =====
-- What a fill does to the calls after it.
use w16crypto_engine.Base.{ℕ, ◌≡◌, refl, ◌∙◌, Bool, true, false, List, [], ◌∷◌, arith}
use w16crypto_engine.Pnl.{
  PnlTracker, record_fill, update_prices, get_user_pnl, get_market_pnl, Decimals, Fill, Answer,
  update_daily_record,
}
use w16crypto_engine.Pnl.Daily.{end_trading_day}

-- The calls that need the positions.
pub data Call (D : Type 0) : Type 0 where
  fill : ℕ → ℕ → ℕ → Fill → D → Call D
  prices : ℕ → D → Call D
  user_pnl : ℕ → Call D
  market_pnl : ℕ → ℕ → Call D
  day_end : ℕ → Call D

abbrev pub is_answered : {A : Type 0} → Answer A → Bool
is_answered (Answer.answered a) = true
is_answered Answer.waiting = false

module _ (d : Decimals) where
  open d use {Decimal}

  -- Whether a call answers, and the tracker after it.
  unfoldable pub run_call : Call Decimal → PnlTracker Decimal → Bool × PnlTracker Decimal
  run_call (Call.fill today user market f price) t =
      let out = record_fill d today user market f price t in (is_answered out.0, out.1)
  run_call (Call.prices market price) t =
      let out = update_prices d market price t in (is_answered out.0, out.1)
  run_call (Call.user_pnl user) t = let out = get_user_pnl d user t in (is_answered out.0, out.1)
  run_call (Call.market_pnl user market) t =
      let out = get_market_pnl d user market t in (is_answered out.0, out.1)
  run_call (Call.day_end today) t =
      let out = end_trading_day d today t in (is_answered out.0, out.1)

  unfoldable pub run_calls :
      List (Call Decimal) → PnlTracker Decimal → List Bool × PnlTracker Decimal
  run_calls [] t = ([], t)
  run_calls (c ∷ cs) t =
      let out = run_call c t in let rest = run_calls cs out.1 in (out.0 ∷ rest.0, rest.1)

  unfoldable pub AreNo : List Bool → Type 0
  AreNo [] = Unit
  AreNo (b ∷ bs) = (b ≡ false) × AreNo bs

  blocked_call :
      (c : Call Decimal) (t : PnlTracker Decimal)
      → t.are_positions_held ≡ true
      → ((run_call c t).0 ≡ false)
        × ((run_call c t).1.are_positions_held ≡ true)
        × ((run_call c t).1.positions ≡ t.positions)
  unfolding run_call record_fill update_daily_record update_prices get_user_pnl get_market_pnl
      end_trading_day
  blocked_call (Call.fill today user market f price) t h = ground (arith, h)
  blocked_call (Call.prices market price) t h = ground (arith, h)
  blocked_call (Call.user_pnl user) t h = ground (arith, h)
  blocked_call (Call.market_pnl user market) t h = ground (arith, h)
  blocked_call (Call.day_end today) t h = ground (arith, h)

  blocked_calls :
      (cs : List (Call Decimal)) (t : PnlTracker Decimal)
      → t.are_positions_held ≡ true
      → AreNo (run_calls cs t).0 × ((run_calls cs t).1.positions ≡ t.positions)
  unfolding run_calls AreNo
  blocked_calls [] t h = (tt, refl)
  blocked_calls (c ∷ cs) t h =
      let (refused, held, same) = blocked_call c t h in
      let rest = blocked_calls cs (run_call c t).1 held in ((refused, rest.0), rest.1 ∙ same)

  -- A fill waits for ever, and after it no call that needs the positions answers, whatever the
  -- calls are, and the positions stay as the first fill left them.
  pub record_fill-waits :
      (today user market : ℕ) (f : Fill) (price : Decimal) (t : PnlTracker Decimal)
      (cs : List (Call Decimal))
      → ((record_fill d today user market f price t).0 ≡ Answer.waiting)
        × AreNo (run_calls cs (record_fill d today user market f price t).1).0
        × ((run_calls cs (record_fill d today user market f price t).1).1.positions
            ≡ (record_fill d today user market f price t).1.positions)
  unfolding record_fill update_daily_record get_market_pnl
  record_fill-waits today user market f price t cs =
      let after = (record_fill d today user market f price t).1 in
      let held : after.are_positions_held ≡ true = ground arith in
      let rest = blocked_calls cs after held in (ground arith, rest.0, rest.1)
