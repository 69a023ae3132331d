-- ===== src/Positions/Dedup.antt =====
-- A fill is applied once: what a second delivery and a retry do.
use w16crypto_engine.Positions.Process.{insert_fill_dedup_inserted, apply_fill-fills}
use w16crypto_engine.Common.Error.{ok, err, AppError, Fault}
use w16crypto_engine.Common.Types.{Fill}
use w16crypto_engine.Db.State.{Db}
use w16crypto_engine.Db.Fills.{insert_fill_dedup, fill_check, InsertFillOutcome, same_sequence}
use w16crypto_engine.Positions.{
  fill_of, process, EngineFillEvent, Outage, dlq_round, apply_fill, dlq_retry_count,
  settle_balances, no_outage,
}
use w16crypto_engine.Base.{
  ℕ, exists, Table, ◌≡◌, refl, true, false, arith, insert, ◌<◌, sym, ap, ◌∙◌, none,
}

-- A fill whose market and sequence are in the table is skipped.
seen-process :
    (out : Outage) (e : EngineFillEvent) (now : ℕ) (db : Db)
    → out.at_insert ≡ false
    → fill_check (fill_of e now) ≡ true
    → exists (same_sequence (fill_of e now)) db.fills ≡ true
    → process out e now db ≡ (ok tt, db)
unfolding process insert_fill_dedup
seen-process out e now db up c s = ground arith

-- The time at which a fill is looked at does not matter to the checks.
later-fill_of :
    (e : EngineFillEvent) (now later : ℕ) (t : Table Fill)
    → (fill_check (fill_of e now) ≡ fill_check (fill_of e later))
      × (exists (same_sequence (fill_of e now)) t ≡ exists (same_sequence (fill_of e later)) t)
unfolding fill_of
later-fill_of e now later t = (refl, refl)

-- A call that inserted its fill goes on with it.
pub process_new :
    (out : Outage) (e : EngineFillEvent) (now : ℕ) (db : Db)
    → out.at_insert ≡ false
    → (insert_fill_dedup (fill_of e now) db).0 ≡ ok InsertFillOutcome.inserted
    → process out e now db
      ≡ apply_fill out
          (fill_of e now)
          now
          (record db { fills = insert (fill_of e now).id (fill_of e now) db.fills })
unfolding process
process_new out e now db up h = ground (arith, (insert_fill_dedup_inserted (fill_of e now) db h).1)

inserted_check :
    (f : Fill) (db : Db)
    → (insert_fill_dedup f db).0 ≡ ok InsertFillOutcome.inserted
    → fill_check f ≡ true
unfolding insert_fill_dedup
inserted_check f db h = ground arith

-- After a call that inserted the fill, however the rest of it went, the fill is in the table.
recorded :
    (out : Outage) (e : EngineFillEvent) (now : ℕ) (db : Db)
    → out.at_insert ≡ false
    → (insert_fill_dedup (fill_of e now) db).0 ≡ ok InsertFillOutcome.inserted
    → exists (same_sequence (fill_of e now)) (process out e now db).1.fills ≡ true
recorded out e now db up h =
    let f = fill_of e now in
    let (found, after) = insert_fill_dedup_inserted f db h in
    ap (λ x. exists (same_sequence f) x.1.fills) (process_new out e now db up h)
    ∙ ap (exists (same_sequence f))
        (apply_fill-fills out f now (record db { fills = insert f.id f db.fills }))
    ∙ sym (ap (λ d. exists (same_sequence f) d.fills) after)
    ∙ found

-- Once a delivery has inserted its fill, whatever became of the rest of it, every later delivery
-- of the same event that reaches the server succeeds and changes nothing.
pub process_again :
    (out out' : Outage) (e : EngineFillEvent) (now later : ℕ) (db : Db)
    → out.at_insert ≡ false
    → (insert_fill_dedup (fill_of e now) db).0 ≡ ok InsertFillOutcome.inserted
    → out'.at_insert ≡ false
    → process out' e later (process out e now db).1 ≡ (ok tt, (process out e now db).1)
process_again out out' e now later db up h up' =
    let db' = (process out e now db).1 in
    seen-process out' e later db' up'
      (sym (later-fill_of e now later db'.fills).0 ∙ inserted_check (fill_of e now) db h)
      (sym (later-fill_of e now later db'.fills).1 ∙ recorded out e now db up h)

lost :
    (out : Outage) (e : EngineFillEvent) (now : ℕ) (db : Db)
    → out.at_insert ≡ false
    → out.at_balances ≡ true
    → (insert_fill_dedup (fill_of e now) db).0 ≡ ok InsertFillOutcome.inserted
    → process out e now db ≡ (
      err (AppError.database Fault.disconnected),
      record db { fills = insert (fill_of e now).id (fill_of e now) db.fills },
    )
unfolding apply_fill settle_balances
lost out e now db up cut h = process_new out e now db up h ∙ ground arith

dropped :
    (e : EngineFillEvent) (later n : ℕ) (db : Db)
    → n < dlq_retry_count
    → process no_outage e later db ≡ (ok tt, db)
    → dlq_round no_outage (record { event = e; retries = n }) later db ≡ (none, db)
unfolding dlq_round
dropped e later n db lt p = ground arith

-- A fill that was inserted and whose balances were then cut off goes to the dead-letter queue with
-- no account and no position changed; its retry is counted as a success, changes nothing, and does
-- not send it back. So the fill's money never moves.
pub retry_loses_fill :
    (out : Outage) (e : EngineFillEvent) (now later n : ℕ) (db : Db)
    → out.at_insert ≡ false
    → out.at_balances ≡ true
    → (insert_fill_dedup (fill_of e now) db).0 ≡ ok InsertFillOutcome.inserted
    → n < dlq_retry_count
    → let (r, db') = process out e now db in
      (r ≡ err (AppError.database Fault.disconnected))
      × (db'.balances ≡ db.balances)
      × (db'.position_changes ≡ db.position_changes)
      × (dlq_round no_outage (record { event = e; retries = n }) later db' ≡ (none, db'))
retry_loses_fill out e now later n db up cut h lt =
    let again = process_again out no_outage e now later db up h refl in
    (
      ap (λ x. x.0) (lost out e now db up cut h),
      ap (λ x. x.1.balances) (lost out e now db up cut h),
      ap (λ x. x.1.position_changes) (lost out e now db up cut h),
      dropped e later n (process out e now db).1 lt again,
    )
