-- ===== src/Markets/Machine.antt =====
-- The life of a market under the administrators' calls and the settlement.
use w16crypto_engine.Markets.Outcomes.{
  pause-markets, reopen-markets, cancel_market-markets, settle-markets, create-markets,
}
use w16crypto_engine.Settlement.{can_settle, settle}
use w16crypto_engine.Db.Markets.{with_status, settled_market}
use w16crypto_engine.Common.Types.{Market, MarketStatus, Outcome}
use w16crypto_engine.Db.State.{Db}
use w16crypto_engine.Markets.{pause, create, reopen, cancel_market}
use w16crypto_engine.Base.{
  ℕ, ◌==◌, Bool-cases, Table, lookup, insert, lookup-insert, String, ◌≡◌, subst, ◌≢◌, inl, inr,
  true, Option, some, arith, sym, ap, ◌∙◌, refl, Bool, false,
}

-- How one call may change a market's status.
pub data Transition : MarketStatus → MarketStatus → Type 0 where
  stay : (s : MarketStatus) → Transition s s
  pausing : Transition MarketStatus.«open» MarketStatus.paused
  reopening : Transition MarketStatus.paused MarketStatus.«open»
  cancelling : (s : MarketStatus) → s ≢ MarketStatus.settled → Transition s MarketStatus.cancelled
  settling : (s : MarketStatus) → can_settle s ≡ true → Transition s MarketStatus.settled

-- One call on the markets, by anyone, at any time.
pub data MarketStep (db : Db) : Db → Type 0 where
  create_step :
      (trim : String → String) (id now : ℕ) (t d : String) (r : Option ℕ) (by : ℕ)
      → MarketStep db (create trim id now t d r by db).1
  pause_step : (id by : ℕ) → MarketStep db (pause id by db).1
  reopen_step : (id by : ℕ) → MarketStep db (reopen id by db).1
  cancel_step : (id by : ℕ) → MarketStep db (cancel_market id by db).1
  settle_step : (id : ℕ) (o : Outcome) (now : ℕ) → MarketStep db (settle id o now db).1

-- What became of a market: its row is there, and its status moved along `Transition`.
abbrev Moved : ℕ → Market → Table Market → Type 0
Moved j m t = (m' : Market) × (lookup j t ≡ some m') × Transition m.status m'.status

-- A write of one market's status.
Moved-by_write :
    (id j : ℕ) (k k' m : Market) (t : Table Market)
    → lookup id t ≡ some k
    → Transition k.status k'.status
    → lookup j t ≡ some m
    → Moved j m (insert id k' t)
Moved-by_write id j k k' m t e tr f = elim (Bool-cases (j == id)) [
  | inl y ↦
      let same : k ≡ m = ground arith in
      (
        k',
        ground (arith, lookup-insert j id k' t),
        subst (λ (x : Market). Transition x.status k'.status) same tr,
      )
  | inr n ↦ (m, ground (arith, lookup-insert j id k' t), stay m.status)
]

unmoved : (j : ℕ) (m : Market) (t : Table Market) → lookup j t ≡ some m → Moved j m t
unmoved j m t e = (m, e, stay m.status)

-- Every call moves each market's status along `Transition`, and no market is ever removed.
pub MarketStep-Transition :
    {db db' : Db} (j : ℕ) (m : Market)
    → lookup j db.markets ≡ some m
    → MarketStep db db'
    → (m' : Market) × (lookup j db'.markets ≡ some m') × Transition m.status m'.status
MarketStep-Transition {db} j m f (pause_step id by) = elim (pause-markets id by db) [
  | inl same ↦ subst (Moved j m) (sym same) (unmoved j m db.markets f)
  | inr (k, e, st, w) ↦ subst (Moved j m) (sym w) (
      Moved-by_write id j k (with_status MarketStatus.paused k) m db.markets e
        (subst (λ s. Transition s MarketStatus.paused) (sym st) pausing) f)
]
MarketStep-Transition {db} j m f (reopen_step id by) = elim (reopen-markets id by db) [
  | inl same ↦ subst (Moved j m) (sym same) (unmoved j m db.markets f)
  | inr (k, e, st, w) ↦ subst (Moved j m) (sym w) (
      Moved-by_write id j k (with_status MarketStatus.«open» k) m db.markets e
        (subst (λ s. Transition s MarketStatus.«open») (sym st) reopening) f)
]
MarketStep-Transition {db} j m f (cancel_step id by) = elim (cancel_market-markets id by db) [
  | inl same ↦ subst (Moved j m) (sym same) (unmoved j m db.markets f)
  | inr (k, e, st, w) ↦ subst (Moved j m) (sym w) (
      Moved-by_write id j k (with_status MarketStatus.cancelled k) m db.markets e
        (cancelling k.status st) f)
]
MarketStep-Transition {db} j m f (settle_step id o now) = elim (settle-markets id o now db) [
  | inl same ↦ subst (Moved j m) (sym same) (unmoved j m db.markets f)
  | inr (k, e, st, w) ↦
      subst (Moved j m) (sym w)
        (Moved-by_write id j k (settled_market o now k) m db.markets e (settling k.status st) f)
]
MarketStep-Transition {db} j m f (create_step trim id now t d r by) =
    elim (create-markets trim id now t d r by db) [
      | inl same ↦ subst (Moved j m) (sym same) (unmoved j m db.markets f)
      | inr (fresh, (k, w)) ↦
          subst (Moved j m) (sym w)
            (m, ground (arith, lookup-insert j id k db.markets), stay m.status)
    ]

pub data MarketReach (db : Db) : Db → Type 0 where
  market_here : MarketReach db db
  market_next : {db₁ db₂ : Db} → MarketReach db db₁ → MarketStep db₁ db₂ → MarketReach db db₂

-- Settled and cancelled are the ends of a market's life.
abbrev pub is_final : MarketStatus → Bool
is_final MarketStatus.settled = true
is_final MarketStatus.cancelled = true
is_final _ = false

final_stays : {s s' : MarketStatus} → Transition s s' → is_final s ≡ true → s' ≡ s
final_stays (stay s) f = refl
final_stays pausing f = cc
final_stays reopening f = cc
final_stays (cancelling MarketStatus.settled n) f = absurd (n refl)
final_stays (cancelling MarketStatus.cancelled n) f = refl
final_stays (cancelling MarketStatus.«open» n) f = cc
final_stays (cancelling MarketStatus.paused n) f = cc
final_stays (settling MarketStatus.settled c) f = cc
final_stays (settling MarketStatus.cancelled c) f = cc
final_stays (settling MarketStatus.«open» c) f = cc
final_stays (settling MarketStatus.paused c) f = cc

-- A market that is settled or cancelled keeps that status through any calls: it is never opened,
-- paused or settled again, and a settled one is never cancelled.
pub MarketReach-final :
    {db db' : Db} (j : ℕ) (m : Market)
    → lookup j db.markets ≡ some m
    → is_final m.status ≡ true
    → MarketReach db db'
    → (m' : Market) × (lookup j db'.markets ≡ some m') × (m'.status ≡ m.status)
MarketReach-final j m e f market_here = (m, e, refl)
MarketReach-final j m e f (market_next r st) =
    let (k, ek, sk) = MarketReach-final j m e f r in
    let (k', ek', tr) = MarketStep-Transition j k ek st in
    (k', ek', final_stays tr (ap is_final sk ∙ f) ∙ sk)
