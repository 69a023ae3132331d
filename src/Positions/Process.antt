-- ===== src/Positions/Process.antt =====
-- What the fill processor does with a fill, and with the same fill once more.
use w16crypto_engine.Db.Orders.{update_order_fill}
use w16crypto_engine.Db.Balances.{apply_fill_balances}
use w16crypto_engine.Positions.{
  update_one, apply_fill, update_orders, Outage, settle_balances, record_taker, record_maker,
}
use w16crypto_engine.Db.Positions.{record_position_change}
use w16crypto_engine.Common.Error.{ok}
use w16crypto_engine.Db.State.{Db, Keeps, >>=-Keeps}
use w16crypto_engine.Db.Fills.{insert_fill_dedup, fill_fault, same_sequence, InsertFillOutcome}
use w16crypto_engine.Common.Types.{Fill}
use w16crypto_engine.Base.{exists, Table, lookup, insert, ◌≡◌, true, none, [], ◌∷◌, arith, ℕ, ◌∙◌}

-- The tables that a call leaves alone.
same_sequence-insert :
    (f : Fill) (t : Table Fill)
    → lookup f.id t ≡ none
    → exists (same_sequence f) (insert f.id f t) ≡ true
same_sequence-insert f [] h = ground arith
same_sequence-insert f (e ∷ t) h = ground (arith, same_sequence-insert f t)

-- A fill that was inserted is found from then on.
pub insert_fill_dedup_inserted :
    (f : Fill) (db : Db)
    → (insert_fill_dedup f db).0 ≡ ok InsertFillOutcome.inserted
    → (exists (same_sequence f) (insert_fill_dedup f db).1.fills ≡ true)
      × ((insert_fill_dedup f db).1 ≡ record db { fills = insert f.id f db.fills })
unfolding insert_fill_dedup fill_fault
insert_fill_dedup_inserted f db h = ground (arith, same_sequence-insert f db.fills)

settle_balances-fills : (out : Outage) (f : Fill) → Keeps (λ d. d.fills) (settle_balances out f)
unfolding settle_balances apply_fill_balances
settle_balances-fills out f db = ground arith

record_taker-fills : (out : Outage) (f : Fill) → Keeps (λ d. d.fills) (record_taker out f)
unfolding record_taker record_position_change
record_taker-fills out f db = ground arith

record_maker-fills : (out : Outage) (f : Fill) → Keeps (λ d. d.fills) (record_maker out f)
unfolding record_maker record_position_change
record_maker-fills out f db = ground arith

pub update_one-fills : (f : Fill) (now id : ℕ) (db : Db) → (update_one f now id db).fills ≡ db.fills
unfolding update_one update_order_fill
update_one-fills f now id db = ground arith

update_orders-fills : (f : Fill) (now : ℕ) (db : Db) → (update_orders f now db).1.fills ≡ db.fills
unfolding update_orders
update_orders-fills f now db =
    update_one-fills f now f.taker_order_id (update_one f now f.maker_order_id db)
    ∙ update_one-fills f now f.maker_order_id db

-- Whatever is cut off, the fills stay.
pub apply_fill-fills :
    (out : Outage) (f : Fill) (now : ℕ) → Keeps (λ d. d.fills) (apply_fill out f now)
unfolding apply_fill
apply_fill-fills out f now =
    >>=-Keeps (λ d. d.fills) (settle_balances out f) _ (settle_balances-fills out f)
      λ _.
        >>=-Keeps (λ d. d.fills) (record_taker out f) _ (record_taker-fills out f)
          λ _.
            >>=-Keeps (λ d. d.fills) (record_maker out f) _ (record_maker-fills out f)
              λ _. update_orders-fills f now
