-- ===== src/Positions.antt =====
-- api/crates/positions/src/lib.rs: the fill processor. Each call of the database may also find
-- the server gone, which the model takes as an argument: a schedule of which call is cut off.
pub mod Process
pub mod Dedup
pub mod ZeroSum
pub mod Orders
use w16crypto_engine.Db.Positions.{record_position_change}
use w16crypto_engine.Db.Orders.{update_order_fill}
use w16crypto_engine.Db.Balances.{apply_fill_balances}
use w16crypto_engine.Db.Fills.{InsertFillOutcome, insert_fill_dedup}
use w16crypto_engine.Common.Error.{Result, ok, err, Fault}
use w16crypto_engine.Db.State.{Call, Db, ◌>>=◌, fault, ◌>>◌, pure}
use w16crypto_engine.Common.Types.{Side, Fill, OrderStatus}
use text.Mathlib.Text.{◌==◌ as str_eq}
use w16crypto_engine.Base.{
  ℕ, leb, if◌then◌else◌, ℤ, pos, ◌*ℤ◌, u64_bound, fits_i64, u64_as_i64, div_ℤ, neg_i64, lookup, ◌+◌,
  ◌-◌, min, String, Bool, true, false, Option, none, some, List, [], ◌∷◌,
}

-- messaging: `EngineFillEvent`, with its side as the text that it is sent as.
pub record EngineFillEvent : Type 0 where
  pub fill_id : ℕ
  pub market_id : ℕ
  pub maker_order_id : ℕ
  pub taker_order_id : ℕ
  pub maker_user_id : ℕ
  pub taker_user_id : ℕ
  pub price : ℕ
  pub quantity : ℕ
  pub aggressor_side : String
  pub sequence : ℕ
  pub timestamp_ns : ℕ

-- `EngineFillEvent::aggressor`: any text but "buy" is a sale.
unfoldable pub aggressor : EngineFillEvent → Side
aggressor e = if str_eq e.aggressor_side "buy" then Side.buy else Side.sell

unfoldable pub fill_of : EngineFillEvent → ℕ → Fill
unfolding aggressor
fill_of e now = record {
  id = e.fill_id;
  market_id = e.market_id;
  maker_order_id = e.maker_order_id;
  taker_order_id = e.taker_order_id;
  maker_user_id = e.maker_user_id;
  taker_user_id = e.taker_user_id;
  price = e.price;
  quantity = e.quantity;
  aggressor = aggressor e;
  sequence = e.sequence;
  filled_at = now;
  transaction_id = none;
}

-- `(price as i64).checked_mul(quantity as i64).and_then(|v| v.checked_div(10_000)).unwrap_or(0)`.
-- A quantity that does not fit `i64` is negative after the cast, and the quotient is rounded
-- towards zero.
unfoldable pub fill_cost : ℕ → ℕ → ℤ
fill_cost price quantity =
    let q = u64_as_i64 quantity in
    if fits_i64 (pos price *ℤ q) then div_ℤ (pos price *ℤ q) 10000 else pos 0

-- Which of the calls of `process` the server is gone for.
pub record Outage : Type 0 where
  pub at_insert : Bool
  pub at_balances : Bool
  pub at_taker : Bool
  pub at_maker : Bool

abbrev pub no_outage : Outage
no_outage = record { at_insert = false; at_balances = false; at_taker = false; at_maker = false }

-- A call that is cut off writes nothing.
abbrev pub unless : {A : Type 0} → Bool → Call A → Call A
unless true m = fault Fault.disconnected
unless false m = m

-- `update_orders` for one order; an error is logged and dropped.
unfoldable pub update_one : Fill → ℕ → ℕ → Db → Db
update_one f now id db = elim (lookup id db.orders) [
  | none ↦ db
  | some o ↦
      let filled = min (o.filled_quantity + f.quantity) (u64_bound - 1) in
      let s = if leb o.quantity filled then OrderStatus.filled else OrderStatus.partial in
      (update_order_fill id s filled now db).1
]

unfoldable pub update_orders : Fill → ℕ → Call Unit
unfolding update_one
update_orders f now db =
    (ok tt, update_one f now f.taker_order_id (update_one f now f.maker_order_id db))

-- The three calls that move money and positions.
unfoldable pub settle_balances : Outage → Fill → Call Unit
unfolding fill_cost
settle_balances out f =
    unless out.at_balances
      (apply_fill_balances f.taker_user_id f.maker_user_id (fill_cost f.price f.quantity))

unfoldable pub record_taker : Outage → Fill → Call Unit
record_taker out f =
    unless out.at_taker
      (record_position_change f.id f.taker_user_id f.market_id (u64_as_i64 f.quantity))

unfoldable pub record_maker : Outage → Fill → Call Unit
record_maker out f =
    unless out.at_maker
      (record_position_change f.id f.maker_user_id f.market_id (neg_i64 (u64_as_i64 f.quantity)))

-- What `process` does with a fill that is new.
unfoldable pub apply_fill : Outage → Fill → ℕ → Call Unit
apply_fill out f now = do
  settle_balances out f
  record_taker out f
  record_maker out f
  update_orders f now

abbrev pub after_insert : Outage → Fill → ℕ → InsertFillOutcome → Call Unit
after_insert out f now InsertFillOutcome.duplicate = pure tt
after_insert out f now InsertFillOutcome.inserted = apply_fill out f now

unfoldable pub process : Outage → EngineFillEvent → ℕ → Call Unit
process out e now = do
  outcome ← unless out.at_insert (insert_fill_dedup (fill_of e now))
  after_insert out (fill_of e now) now outcome

-- `run_loop` over the decoded messages: a failure is logged, and the next one is taken. `none` is
-- a message that does not decode.
unfoldable pub run_loop : List (Option EngineFillEvent × Outage × ℕ) → Db → Db
run_loop [] db = db
run_loop ((none, out, now) ∷ es) db = run_loop es db
run_loop ((some e, out, now) ∷ es) db = run_loop es (process out e now db).1

-- api/crates/positions/src/processor.rs: the fill in the dead-letter queue, and one round of its
-- processor. `none` is a fill that is not sent back: it was processed, or dropped for good.
pub record FailedFill : Type 0 where
  pub event : EngineFillEvent
  pub retries : ℕ

abbrev pub dlq_retry_count : ℕ
dlq_retry_count = 3

abbrev pub requeue : FailedFill → Result Unit → Option FailedFill
requeue x (ok _) = none
requeue x (err _) = some (record x { retries = x.retries + 1 })

unfoldable pub dlq_round : Outage → FailedFill → ℕ → Db → Option FailedFill × Db
dlq_round out x now db =
    if leb dlq_retry_count x.retries
    then (none, db)
    else (let (r, db') = process out x.event now db in (requeue x r, db'))
