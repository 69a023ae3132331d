-- ===== src/Settlement/Once.antt =====
-- A settlement as a whole, and the payouts that it makes.
use w16crypto_engine.Settlement.Payouts.{pay_all-funds, paid_total}
use w16crypto_engine.Db.Balances.Funds.{funds}
use w16crypto_engine.Common.Error.{ok, AppError, err}
use w16crypto_engine.Db.Balances.{upsert_balance}
use w16crypto_engine.Db.Positions.{PositionRow, get_user_positions, position_rows, traders}
use w16crypto_engine.Settlement.{
  settle, SettlementSummary, can_settle, window_open, summary_of, payouts_of, cannot_settle,
}
use w16crypto_engine.Common.Types.{Outcome, Market, MarketStatus}
use w16crypto_engine.Db.State.{Keeps, Db, >>=-Keeps, conclude, conclude_ok}
use w16crypto_engine.Db.Markets.{
  pay_all, get_market, apply_settlement_payouts, payouts_body, settled_market,
}
use w16crypto_engine.Base.{
  ℕ, Option-cases, ℤ, lookup, ◌≡◌, refl, inl, inr, true, some, List, [], ◌∷◌, arith, ◌+ℤ◌, insert,
  lookup-insert_self, sym, ap, ◌∙◌, false, ◌⊎◌,
}

upsert_balance-markets : (u : ℕ) (a : ℤ) → Keeps (λ d. d.markets) (upsert_balance u a)
upsert_balance-markets u a db = ground arith

pub pay_all-markets : (ps : List (ℕ × ℤ)) → Keeps (λ d. d.markets) (pay_all ps)
unfolding pay_all
pay_all-markets [] db = refl
pay_all-markets ((u, a) ∷ ps) db =
    >>=-Keeps (λ d. d.markets) (upsert_balance u a) (λ _. pay_all ps) (upsert_balance-markets u a)
      (λ _. pay_all-markets ps) db

-- The rows that a settlement reads.
abbrev pub rows_of : ℕ → Db → List PositionRow
rows_of id db = position_rows id db.position_changes (traders id db.position_changes)

-- A settlement that went through: what it found, what it paid and what it wrote.
pub record Settled (id : ℕ) (o : Outcome) (now : ℕ) (db db' : Db) (m : Market)
    (s : SettlementSummary) : Type 0 where
  pub row : lookup id db.markets ≡ some m
  pub allowed : can_settle m.status ≡ true
  pub due : window_open now m.resolves_at ≡ true
  pub empty : rows_of id db ≡ []
  pub summary : s ≡ summary_of id o (rows_of id db)
  pub paid : (apply_settlement_payouts id o now (payouts_of o (rows_of id db)) db).0 ≡ ok tt
  pub tables : db' ≡ (apply_settlement_payouts id o now (payouts_of o (rows_of id db)) db).1

List-cases : {A : Type 0} (xs : List A) → (xs ≡ []) ⊎ ((x : A) × (rest : List A) × (xs ≡ x ∷ rest))
List-cases [] = inl refl
List-cases (x ∷ rest) = inr (x, rest, refl)

pub settle-Settled :
    (id : ℕ) (o : Outcome) (now : ℕ) (db : Db) {s : SettlementSummary}
    → (settle id o now db).0 ≡ ok s
    → (m : Market) × Settled id o now db (settle id o now db).1 m s
unfolding settle get_market get_user_positions
settle-Settled id o now db h = elim (Option-cases (lookup id db.markets)) [
  | inl absent ↦ absurd (ground arith)
  | inr (m, e) ↦ elim (List-cases (rows_of id db)) [
    | inl none_there ↦ (m, ground (arith, none_there))
    | inr (r, rs, some_there) ↦ absurd (ground (arith, some_there))
  ]
]

pub payouts_run :
    (id : ℕ) (o : Outcome) (now : ℕ) (ps : List (ℕ × ℤ)) (db : Db) (m : Market)
    → lookup id db.markets ≡ some m
    → apply_settlement_payouts id o now ps db
      ≡ conclude db
          (pay_all ps (record db { markets = insert id (settled_market o now m) db.markets }))
unfolding apply_settlement_payouts payouts_body
payouts_run id o now ps db m e = ground arith

-- Payouts that go through, whatever they are, mark the market settled with the outcome, change no
-- other market, and raise the money in the accounts by exactly what they come to.
pub apply_settlement_payouts-pays :
    (id : ℕ) (o : Outcome) (now : ℕ) (ps : List (ℕ × ℤ)) (db : Db) (m : Market)
    → lookup id db.markets ≡ some m
    → (apply_settlement_payouts id o now ps db).0 ≡ ok tt
    → let db' = (apply_settlement_payouts id o now ps db).1 in
      (db'.markets
        ≡ insert id
            (record m { status = MarketStatus.settled; outcome = some o; settled_at = some now })
            db.markets)
      × (funds db'.balances ≡ funds db.balances +ℤ paid_total ps)
apply_settlement_payouts-pays id o now ps db m e h =
    let db₁ : Db = record db { markets = insert id (settled_market o now m) db.markets } in
    let run = payouts_run id o now ps db m e in
    let h₁ = sym (ap (λ x. x.0) run) ∙ h in
    let same = run ∙ conclude_ok db (pay_all ps db₁) h₁ in
    (
      ap (λ x. x.1.markets) same ∙ pay_all-markets ps db₁,
      ap (λ x. funds x.1.balances) same ∙ pay_all-funds ps db₁ (sym (ap (λ x. x.0) same) ∙ h),
    )

no_payouts : (o : Outcome) (rows : List PositionRow) → rows ≡ [] → payouts_of o rows ≡ []
unfolding payouts_of
no_payouts o rows e = ap (payouts_of o) e

paid_nobody :
    (id : ℕ) (o : Outcome) (now : ℕ) (ps : List (ℕ × ℤ)) (db : Db) (m : Market)
    → ps ≡ []
    → lookup id db.markets ≡ some m
    → (apply_settlement_payouts id o now ps db).1
      ≡ record db { markets = insert id (settled_market o now m) db.markets }
unfolding pay_all
paid_nobody id o now ps db m none_paid e =
    ap (λ q. (apply_settlement_payouts id o now q db).1) none_paid
    ∙ ap (λ x. x.1) (payouts_run id o now [] db m e)

pub settle_pays_nobody :
    (id : ℕ) (o : Outcome) (now : ℕ) (db : Db) {s : SettlementSummary}
    → (settle id o now db).0 ≡ ok s
    → (m : Market) × (lookup id db.markets ≡ some m)
      × (can_settle m.status ≡ true)
      × (window_open now m.resolves_at ≡ true)
      × (rows_of id db ≡ [])
      × (s.payouts ≡ [])
      × ((settle id o now db).1 ≡ record db {
        markets =
            insert id
              (record m { status = MarketStatus.settled; outcome = some o; settled_at = some now })
              db.markets;
      })
settle_pays_nobody id o now db h =
    let (m, c) = settle-Settled id o now db h in
    let nothing = no_payouts o (rows_of id db) c.empty in
    (
      m,
      c.row,
      c.allowed,
      c.due,
      c.empty,
      ap (λ y. y.payouts) c.summary ∙ nothing,
      c.tables ∙ paid_nobody id o now (payouts_of o (rows_of id db)) db m nothing c.row,
    )

settled_refused :
    (id : ℕ) (o : Outcome) (later : ℕ) (db : Db) (m : Market)
    → lookup id db.markets ≡ some m
    → can_settle m.status ≡ false
    → settle id o later db ≡ (err (cannot_settle m.status), db)
unfolding settle get_market
settled_refused id o later db m e f = ground arith

-- After a settlement that succeeded, another one of the market, at any time and for any outcome, is
-- refused and changes nothing.
pub settle_once :
    (id : ℕ) (o o' : Outcome) (now later : ℕ) (db : Db) {s : SettlementSummary}
    → (settle id o now db).0 ≡ ok s
    → let db' = (settle id o now db).1 in
      settle id o' later db' ≡ (err (cannot_settle MarketStatus.settled), db')
settle_once id o o' now later db h =
    let (m, _, _, _, _, _, after) = settle_pays_nobody id o now db h in
    let marked =
      ap (λ d. lookup id d.markets) after
      ∙ lookup-insert_self id (settled_market o now m) db.markets in
    settled_refused id o' later (settle id o now db).1 (settled_market o now m) marked refl

-- A settlement that fails changes nothing.
pub settle_atomic :
    (id : ℕ) (o : Outcome) (now : ℕ) (db : Db) {e : AppError}
    → (settle id o now db).0 ≡ err e
    → (settle id o now db).1 ≡ db
unfolding settle get_market get_user_positions apply_settlement_payouts
settle_atomic id o now db h = elim (Option-cases (lookup id db.markets)) [
  | inl absent ↦ ground arith
  | inr (m, e) ↦ ground arith
]
