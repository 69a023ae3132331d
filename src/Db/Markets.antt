-- ===== src/Db/Markets.antt =====
-- api/crates/db/src/markets.rs and the payouts of api/crates/db/src/balances.rs.
use Prim.Native.String.{count}
use w16crypto_engine.Db.Balances.{upsert_balance}
use w16crypto_engine.Common.Error.{err, ok, AppError, Fault}
use w16crypto_engine.Common.Types.{MarketStatus, Outcome, Market}
use w16crypto_engine.Db.State.{Call, Db, transaction, or_fail, ◌>>◌, pure}
use w16crypto_engine.Base.{
  ℕ, ltb, if◌then◌else◌, ℤ, i64_bound, lookup, contains, insert, ◌+◌, String, Option, none, some,
  List, [], ◌∷◌,
}

unfoldable pub get_market : ℕ → Call Market
get_market id db = or_fail (lookup id db.markets) (AppError.market_not_found id) db

-- The row of a new market.
abbrev pub new_market : ℕ → String → String → Option ℕ → Market
new_market now title description resolves_at = record {
  title = title;
  description = description;
  status = MarketStatus.«open»;
  created_at = now;
  resolves_at = resolves_at;
  settled_at = none;
  outcome = none;
}

-- INSERT INTO markets …, under a key that the server draws; `title` is VARCHAR(200), counted in
-- characters.
unfoldable pub insert_market : ℕ → ℕ → String → String → Option ℕ → Call Market
insert_market id now title description resolves_at db =
    if ltb 200 (count title)
    then (err (AppError.database Fault.check_violation), db)
    else if contains id db.markets
    then (err (AppError.database Fault.unique_violation), db)
    else (
      ok (new_market now title description resolves_at),
      record db { markets = insert id (new_market now title description resolves_at) db.markets },
    )

abbrev pub with_status : MarketStatus → Market → Market
with_status s m = record m { status = s }

unfoldable pub set_market_status : ℕ → MarketStatus → Call Unit
set_market_status id s db = elim (lookup id db.markets) [
  | none ↦ (err (AppError.market_not_found id), db)
  | some m ↦ (ok tt, record db { markets = insert id (with_status s m) db.markets })
]

abbrev pub settled_market : Outcome → ℕ → Market → Market
settled_market o now m = record m {
  status = MarketStatus.settled;
  settled_at = some now;
  outcome = some o;
}

-- UPDATE markets SET status = 'settled', outcome = $2, settled_at = now() WHERE id = $1
abbrev pub mark_settled : ℕ → Outcome → ℕ → Call Unit
mark_settled id o now db = elim (lookup id db.markets) [
  | none ↦ (ok tt, db)
  | some m ↦ (ok tt, record db { markets = insert id (settled_market o now m) db.markets })
]

-- The loop over the payouts: the first that fails ends it.
unfoldable pub pay_all : List (ℕ × ℤ) → Call Unit
pay_all [] = pure tt
pay_all ((u, a) ∷ ps) = do upsert_balance u a; pay_all ps

unfoldable pub payouts_body : ℕ → Outcome → ℕ → List (ℕ × ℤ) → Db → Call Unit
unfolding pay_all
payouts_body id o now ps _ = do mark_settled id o now; pay_all ps

unfoldable pub apply_settlement_payouts : ℕ → Outcome → ℕ → List (ℕ × ℤ) → Call Unit
unfolding payouts_body
apply_settlement_payouts id o now ps = transaction (payouts_body id o now ps)

-- INSERT INTO engine_sequences … ON CONFLICT … SET last_seq = last_seq + 1 RETURNING last_seq
unfoldable pub next_sequence : ℕ → Call ℕ
next_sequence m db = elim (lookup m db.engine_sequences) [
  | none ↦
      if contains m db.markets
      then (ok 1, record db { engine_sequences = insert m 1 db.engine_sequences })
      else (err (AppError.database Fault.foreign_key), db)
  | some n ↦
      if ltb (n + 1) i64_bound
      then (ok (n + 1), record db { engine_sequences = insert m (n + 1) db.engine_sequences })
      else (err (AppError.database Fault.out_of_range), db)
]
