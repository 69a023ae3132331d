-- ===== src/Markets/Outcomes.antt =====
-- What each administrator's call, and the settlement, can write into the table of markets.
use w16crypto_engine.Settlement.Once.{
  settle_atomic, settle-Settled, apply_settlement_payouts-pays, rows_of,
}
use Prim.Native.String.{len, count}
use w16crypto_engine.Db.Users.{audit}
use w16crypto_engine.Settlement.{can_settle, settle, payouts_of}
use w16crypto_engine.Db.Markets.{
  get_market, set_market_status, with_status, settled_market, insert_market, new_market,
}
use w16crypto_engine.Common.Types.{Market, MarketStatus, Outcome}
use w16crypto_engine.Db.State.{Db, Result-cases}
use w16crypto_engine.Markets.{pause, is_open, create, reopen, cancel_market, is_paused, is_settled}
use w16crypto_engine.Base.{
  ℕ, ◌==◌, Bool-cases, Option-cases, lookup, insert, String, ◌≡◌, ◌≢◌, ◌⊎◌, inl, inr, true, Option,
  some, arith, leb, ap, ◌∙◌, not, ◌&&◌, none,
}

pub pause-markets :
    (id by : ℕ) (db : Db)
    → ((pause id by db).1.markets ≡ db.markets)
      ⊎ ((k : Market) × (lookup id db.markets ≡ some k)
          × (k.status ≡ MarketStatus.«open»)
          × ((pause id by db).1.markets ≡ insert id (with_status MarketStatus.paused k) db.markets))
unfolding pause get_market set_market_status audit
pause-markets id by db = elim (Option-cases (lookup id db.markets)) [
  | inl absent ↦ inl (ground arith)
  | inr (k, e) ↦ elim (Bool-cases (is_open k.status)) [
    | inl y ↦ inr (k, e, ground arith, ground arith)
    | inr n ↦ inl (ground arith)
  ]
]

pub reopen-markets :
    (id by : ℕ) (db : Db)
    → ((reopen id by db).1.markets ≡ db.markets)
      ⊎ ((k : Market) × (lookup id db.markets ≡ some k)
          × (k.status ≡ MarketStatus.paused)
          × ((reopen id by db).1.markets
              ≡ insert id (with_status MarketStatus.«open» k) db.markets))
unfolding reopen get_market set_market_status audit
reopen-markets id by db = elim (Option-cases (lookup id db.markets)) [
  | inl absent ↦ inl (ground arith)
  | inr (k, e) ↦ elim (Bool-cases (is_paused k.status)) [
    | inl y ↦ inr (k, e, ground arith, ground arith)
    | inr n ↦ inl (ground arith)
  ]
]

pub cancel_market-markets :
    (id by : ℕ) (db : Db)
    → ((cancel_market id by db).1.markets ≡ db.markets)
      ⊎ ((k : Market) × (lookup id db.markets ≡ some k)
          × (k.status ≢ MarketStatus.settled)
          × ((cancel_market id by db).1.markets
              ≡ insert id (with_status MarketStatus.cancelled k) db.markets))
unfolding cancel_market get_market set_market_status audit
cancel_market-markets id by db = elim (Option-cases (lookup id db.markets)) [
  | inl absent ↦ inl (ground arith)
  | inr (k, e) ↦ elim (Bool-cases (is_settled k.status)) [
    | inl y ↦ inl (ground arith)
    | inr n ↦ inr (k, e, ground arith, ground arith)
  ]
]

pub create-markets :
    (trim : String → String) (id now : ℕ) (t d : String) (r : Option ℕ) (by : ℕ) (db : Db)
    → ((create trim id now t d r by db).1.markets ≡ db.markets)
      ⊎ ((lookup id db.markets ≡ none)
          × ((k : Market) × ((create trim id now t d r by db).1.markets ≡ insert id k db.markets)))
unfolding create insert_market audit
create-markets trim id now t d r by db = elim (Option-cases (lookup id db.markets)) [
  | inr (k, e) ↦ inl (ground arith)
  | inl fresh ↦
      elim (Bool-cases
        (leb (len (trim t)) 200 && not (len (trim t) == 0) && leb (count (trim t)) 200)) [
          | inl y ↦ inr (fresh, (new_market now (trim t) d r, ground arith))
          | inr n ↦ inl (ground arith)
        ]
]

pub settle-markets :
    (id : ℕ) (o : Outcome) (now : ℕ) (db : Db)
    → ((settle id o now db).1.markets ≡ db.markets)
      ⊎ ((k : Market) × (lookup id db.markets ≡ some k)
          × (can_settle k.status ≡ true)
          × ((settle id o now db).1.markets ≡ insert id (settled_market o now k) db.markets))
settle-markets id o now db = elim (Result-cases (settle id o now db).0) [
  | inr (x, e) ↦ inl (ap (λ d. d.markets) (settle_atomic id o now db e))
  | inl (s, e) ↦
      let (m, c) = settle-Settled id o now db e in
      let (marks, _) =
        apply_settlement_payouts-pays id o now (payouts_of o (rows_of id db)) db m c.row c.paid in
      inr (m, c.row, c.allowed, ap (λ d. d.markets) c.tables ∙ marks)
]
