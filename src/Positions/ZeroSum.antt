-- ===== src/Positions/ZeroSum.antt =====
-- A fill adds to one position what it takes from another.
use w16crypto_engine.Positions.Dedup.{process_new}
use w16crypto_engine.Db.Positions.Net.{market_net, market_net-pair}
use w16crypto_engine.Db.Fills.{insert_fill_dedup, InsertFillOutcome, fill_fault}
use w16crypto_engine.Common.Error.{Result, ok, err}
use w16crypto_engine.Db.Positions.{record_position_change}
use w16crypto_engine.Db.Balances.{apply_fill_balances}
use w16crypto_engine.Db.Orders.{update_order_fill}
use w16crypto_engine.Positions.{
  update_orders, update_one, settle_balances, record_taker, record_maker, Outage, no_outage,
  run_loop, apply_fill, EngineFillEvent, process, fill_of,
}
use w16crypto_engine.Db.State.{Db, PositionChange, UserRow, Keeps, ◌>>◌, continue}
use w16crypto_engine.Common.Types.{Fill, Market}
use w16crypto_engine.Base.{
  ℕ, pos, ◌+ℤ◌, ◌<ℤ◌, neg_ℤ, u64_as_i64, neg_i64, Table, contains, ◌≡◌, ◌∙◌, true, List, [], ◌∷◌,
  ◌++◌, arith, insert, lookup-insert_self, refl, ap, ◌≢◌, ◌⊎◌, inl, inr, Option, none, some, map,
}

-- The tables that the recording of positions reads and writes.
abbrev Refs : Type 0
Refs = Table Fill × Table UserRow × Table Market × List PositionChange

abbrev refs : Db → Refs
refs d = (d.fills, d.users, d.markets, d.position_changes)

settle_balances-refs : (out : Outage) (f : Fill) → Keeps refs (settle_balances out f)
unfolding settle_balances apply_fill_balances
settle_balances-refs out f db = ground arith

update_one-changes :
    (f : Fill) (now id : ℕ) (db : Db)
    → (update_one f now id db).position_changes ≡ db.position_changes
unfolding update_one update_order_fill
update_one-changes f now id db = ground arith

update_orders-changes :
    (f : Fill) (now : ℕ) (db : Db)
    → (update_orders f now db).1.position_changes ≡ db.position_changes
unfolding update_orders
update_orders-changes f now db =
    update_one-changes f now f.taker_order_id (update_one f now f.maker_order_id db)
    ∙ update_one-changes f now f.maker_order_id db

abbrev taker_change : Fill → PositionChange
taker_change f = record {
  fill_id = f.id;
  user_id = f.taker_user_id;
  market_id = f.market_id;
  delta = u64_as_i64 f.quantity;
}

abbrev maker_change : Fill → PositionChange
maker_change f = record {
  fill_id = f.id;
  user_id = f.maker_user_id;
  market_id = f.market_id;
  delta = neg_i64 (u64_as_i64 f.quantity);
}

-- With the fill and what it refers to in place, both changes are recorded.
both_recorded :
    (f : Fill) (now : ℕ) (db : Db)
    → contains f.id db.fills ≡ true
    → contains f.taker_user_id db.users ≡ true
    → contains f.maker_user_id db.users ≡ true
    → contains f.market_id db.markets ≡ true
    → ((do record_taker no_outage f; record_maker no_outage f; update_orders f now)
        db).1.position_changes
      ≡ (db.position_changes ++ taker_change f ∷ []) ++ maker_change f ∷ []
unfolding record_taker record_maker record_position_change
both_recorded f now db a b c d = ground (
  arith,
  update_orders-changes f now (record db {
    position_changes = (db.position_changes ++ taker_change f ∷ []) ++ maker_change f ∷ [];
  }),
)

opposite_deltas : (q : ℕ) → pos 0 <ℤ u64_as_i64 q → u64_as_i64 q +ℤ neg_i64 (u64_as_i64 q) ≡ pos 0
unfolding neg_i64 neg_ℤ ◌+ℤ◌
opposite_deltas q h = ground arith

-- The rest of `apply_fill` after the balances, from any tables that agree with `db` on what it reads.
after_balances :
    (m : ℕ) (f : Fill) (now : ℕ) (db db' : Db)
    → refs db' ≡ refs db
    → contains f.id db.fills ≡ true
    → contains f.taker_user_id db.users ≡ true
    → contains f.maker_user_id db.users ≡ true
    → contains f.market_id db.markets ≡ true
    → pos 0 <ℤ u64_as_i64 f.quantity
    → market_net m
        ((do record_taker no_outage f; record_maker no_outage f; update_orders f now)
          db').1.position_changes
      ≡ market_net m db.position_changes
after_balances m f now db db' e a b c d q =
    ap (market_net m) (
      both_recorded f now db' (ap (λ r. contains f.id r.0) e ∙ a)
        (ap (λ r. contains f.taker_user_id r.1) e ∙ b)
        (ap (λ r. contains f.maker_user_id r.1) e ∙ c) (ap (λ r. contains f.market_id r.2) e ∙ d))
    ∙ market_net-pair m db'.position_changes (taker_change f) (maker_change f) refl
        (opposite_deltas f.quantity q)
    ∙ ap (λ r. market_net m r.3) e

apply_fill-net :
    (m : ℕ) (f : Fill) (now : ℕ) (db : Db)
    → contains f.id db.fills ≡ true
    → contains f.taker_user_id db.users ≡ true
    → contains f.maker_user_id db.users ≡ true
    → contains f.market_id db.markets ≡ true
    → pos 0 <ℤ u64_as_i64 f.quantity
    → market_net m (apply_fill no_outage f now db).1.position_changes
      ≡ market_net m db.position_changes
unfolding apply_fill
apply_fill-net m f now db a b c d q =
    end (settle_balances no_outage f db) (settle_balances-refs no_outage f db)
  where
    end :
        (x : Result Unit × Db)
        → refs x.1 ≡ refs db
        → market_net m
            (continue
              (λ _. do record_taker no_outage f; record_maker no_outage f; update_orders f now)
              x).1.position_changes
          ≡ market_net m db.position_changes
    end (ok _, db') e = after_balances m f now db db' e a b c d q
    end (err _, db') e = ap (λ r. market_net m r.3) e

contains-insert_self {ℓ} :
    {V : Type ℓ} (k : ℕ) (v : V) (t : Table V) → contains k (insert k v t) ≡ true
contains-insert_self k v t = ground (arith, lookup-insert_self k v t)

inserted_refers :
    (f : Fill) (db : Db)
    → (insert_fill_dedup f db).0 ≡ ok InsertFillOutcome.inserted
    → (contains f.taker_user_id db.users ≡ true)
      × (contains f.maker_user_id db.users ≡ true)
      × (contains f.market_id db.markets ≡ true)
      × (pos 0 <ℤ u64_as_i64 f.quantity)
unfolding insert_fill_dedup fill_fault
inserted_refers f db h = ground arith

not_inserted :
    (e : EngineFillEvent) (now : ℕ) (db : Db)
    → (insert_fill_dedup (fill_of e now) db).0 ≢ ok InsertFillOutcome.inserted
    → (process no_outage e now db).1 ≡ db
unfolding process insert_fill_dedup
not_inserted e now db h = ground (arith, h)

inserted_or_not :
    (r : Result InsertFillOutcome)
    → (r ≡ ok InsertFillOutcome.inserted) ⊎ (r ≢ ok InsertFillOutcome.inserted)
inserted_or_not (ok InsertFillOutcome.inserted) = inl refl
inserted_or_not (ok InsertFillOutcome.duplicate) = inr (λ e. cc)
inserted_or_not (err x) = inr (λ e. cc)

-- While the server is there, a delivery of any event, applied, skipped or refused, leaves the sum
-- of all users' positions in every market as it was.
pub process-market_net :
    (m : ℕ) (e : EngineFillEvent) (now : ℕ) (db : Db)
    → market_net m (process no_outage e now db).1.position_changes
      ≡ market_net m db.position_changes
process-market_net m e now db = elim (inserted_or_not (insert_fill_dedup (fill_of e now) db).0) [
  | inl h ↦
      let f = fill_of e now in
      let db' : Db = record db { fills = insert f.id f db.fills } in
      let (b, c, d, q) = inserted_refers f db h in
      ap (λ x. market_net m x.1.position_changes) (process_new no_outage e now db refl h)
      ∙ apply_fill-net m f now db' (contains-insert_self f.id f db.fills) b c d q
  | inr h ↦ ap (λ d. market_net m d.position_changes) (not_inserted e now db h)
]

abbrev pub delivered : Option EngineFillEvent × ℕ → Option EngineFillEvent × Outage × ℕ
delivered (e, now) = (e, no_outage, now)

-- While the server is there, any deliveries, repeated, refused and undecodable ones included,
-- leave the sum of all users' positions in every market as it was.
pub run_loop-market_net :
    (m : ℕ) (es : List (Option EngineFillEvent × ℕ)) (db : Db)
    → market_net m (run_loop (map delivered es) db).position_changes
      ≡ market_net m db.position_changes
unfolding run_loop
run_loop-market_net m [] db = refl
run_loop-market_net m ((none, now) ∷ es) db = run_loop-market_net m es db
run_loop-market_net m ((some e, now) ∷ es) db =
    run_loop-market_net m es (process no_outage e now db).1 ∙ process-market_net m e now db
