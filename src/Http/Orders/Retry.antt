-- ===== src/Http/Orders/Retry.antt =====
-- What a second request under a key meets.
use w16crypto_engine.Db.State.{Result-cases}
use w16crypto_engine.Base.{
  ℕ, String, ◌≡◌, ◌⊎◌, inl, inr, none, some, List, [], ◌∷◌, arith, ap, ◌∙◌, refl,
}
use w16crypto_engine.Db.Idempotency.Claims.{claim_once}
use w16crypto_engine.Http.Orders.{
  OrderJson, place_order, OrderArrival, order_key, Shared, PlaceOrderRequest, answer_order,
  claim_order_key, submit_payload, parse_payload, AppError, Web, Part, Decimals, Message,
  AuthContext, PendingOrder, Db, err, ok, Order, continue_order, read_stored,
}
use w16crypto_engine.Orders.{Exchange, submit}
use w16crypto_engine.Exposure.{RiskManager, Reason}
use w16crypto_engine.Db.Idempotency.{
  claim_idempotency_key, complete_idempotency_key, IdempotencyStatus, get_idempotency_response,
  find_key,
}

-- The answer to a duplicate of a request that runs.
abbrev pub in_flight : AppError
in_flight = AppError.conflict (Part.text "duplicate request in flight" ∷ [])

module _ (w : Web) (d : Decimals) (x : Exchange) (j : OrderJson)
    (describe : Reason d.Decimal → Message) where
  open d use {Decimal}

  -- The claim of a key that is fresh, in process and complete.
  claim_fresh :
      (a : AuthContext) (at : OrderArrival) (db : Db) (u : ℕ)
      → w.parse_uuid a.user_id ≡ some u
      → (claim_idempotency_key u (order_key at) at.now db).0 ≡ ok IdempotencyStatus.fresh
      → claim_order_key w d x j describe a at db
        ≡ (ok (u, none), (claim_idempotency_key u (order_key at) at.now db).1)
  unfolding claim_order_key
  claim_fresh a at db u known fresh = ground (arith, known, fresh)

  claim_processing :
      (a : AuthContext) (at : OrderArrival) (db : Db) (u : ℕ)
      → w.parse_uuid a.user_id ≡ some u
      → claim_idempotency_key u (order_key at) at.now db ≡ (ok IdempotencyStatus.processing, db)
      → claim_order_key w d x j describe a at db ≡ (err in_flight, db)
  unfolding claim_order_key
  claim_processing a at db u known claimed = ground (arith, known, claimed)

  claim_complete :
      (a : AuthContext) (at : OrderArrival) (db : Db) (u : ℕ) {v : String}
      → w.parse_uuid a.user_id ≡ some u
      → claim_idempotency_key u (order_key at) at.now db ≡ (ok IdempotencyStatus.complete, db)
      → get_idempotency_response u (order_key at) db ≡ (ok (some v), db)
      → claim_order_key w d x j describe a at db ≡ (ok (u, some v), db)
  unfolding claim_order_key
  claim_complete a at db u known claimed stored = ground (arith, known, claimed, stored)

  -- How a submission ends: with an error and the tables as they were, or with an order that is
  -- stored.
  submit_payload-cases :
      (u : ℕ) (at : OrderArrival) (p : PlaceOrderRequest Decimal) (m : RiskManager Decimal)
      (s : Shared)
      → ((e : AppError) × (ps : List PendingOrder) × (submit_payload w d x j describe u at
              (parse_payload w d x j describe p)
              m
              s
            ≡ (err e, record { db = s.db; pending = ps })))
        ⊎ ((o : Order) × (ps : List PendingOrder) × (submit_payload w d x j describe u at
                (parse_payload w d x j describe p)
                m
                s
              ≡ (
                ok (answer_order w d x j describe 201 o),
                record {
                  db = (complete_idempotency_key u (order_key at) (j.to_value o) s.db).1;
                  pending = ps;
                },
              )))
  unfolding complete_idempotency_key
  submit_payload-cases u at p m s = elim (Result-cases (parse_payload w d x j describe p)) [
    | inr (e, bad) ↦ inl (e, s.pending, ground (arith, bad))
    | inl (r, good) ↦
        let out =
          submit d x describe at.order_id at.answer_id at.now at.nonce at.drawn_user r m
            s.pending in
        elim (Result-cases out.0) [
          | inr (e, bad) ↦ inl (e, out.1, ground (arith, good, bad))
          | inl (o, sent) ↦ inr (o, out.1, ground (arith, good, sent))
        ]
  ]

  -- A request whose key was not known before either answers with an order, and then each later
  -- request of the user with that key answers with the same order; or it answers with an error, and
  -- then each later one is refused as a duplicate in flight, although none runs. This holds in any
  -- tables that still have the key's row as the first request left it, and the later request changes
  -- neither them nor the pending orders, whatever its payload. It is assumed that serde_json reads
  -- back the order that is stored.
  pub place_order_retry :
      (a : AuthContext) (at at' : OrderArrival) (p p' : PlaceOrderRequest Decimal)
      (m m' : RiskManager Decimal) (s s' : Shared) (u : ℕ)
      → w.parse_uuid a.user_id ≡ some u
      → order_key at' ≡ order_key at
      → (claim_idempotency_key u (order_key at) at.now s.db).0 ≡ ok IdempotencyStatus.fresh
      → ((o : Order)
          → (place_order w d x j describe a at p m s).0 ≡ ok (answer_order w d x j describe 201 o)
          → j.from_value (j.to_value o) ≡ some o)
      → find_key u (order_key at) s'.db.idempotency_keys
        ≡ find_key u (order_key at) (place_order w d x j describe a at p m s).1.db.idempotency_keys
      → ((o : Order) × ((place_order w d x j describe a at p m s).0
            ≡ ok (answer_order w d x j describe 201 o))
          × (place_order w d x j describe a at' p' m' s'
              ≡ (ok (answer_order w d x j describe 200 o), s')))
        ⊎ ((e : AppError) × ((place_order w d x j describe a at p m s).0 ≡ err e)
            × (place_order w d x j describe a at' p' m' s' ≡ (err in_flight, s')))
  unfolding place_order
  place_order_retry a at at' p p' m m' s s' u known same fresh trip kept =
      let db₁ = (claim_idempotency_key u (order_key at) at.now s.db).1 in
      let resume = continue_order w d x j describe in
      let mid : Shared = record { db = db₁; pending = s.pending } in
      let begun = ap (resume at p m s.pending) (claim_fresh a at s.db u known fresh) in
      elim (submit_payload-cases u at p m mid) [
        | inl (e, ps, ended) ↦
            let whole = begun ∙ ended in
            let row = kept ∙ ap (λ k. find_key u (order_key at) k.1.db.idempotency_keys) whole in
            let stored = (complete_idempotency_key u (order_key at) "" db₁).1 in
            let (running, _, _) =
              claim_once u (order_key at) "" at.now at'.now s.db s'.db stored fresh row refl in
            let again =
              claim_processing a at' s'.db u known
                (ap (λ k. claim_idempotency_key u k at'.now s'.db) same ∙ running) in
            inr (e, ap (λ k. k.0) whole, ap (resume at' p' m' s'.pending) again)
        | inr (o, ps, ended) ↦
            let whole = begun ∙ ended in
            let row = kept ∙ ap (λ k. find_key u (order_key at) k.1.db.idempotency_keys) whole in
            let (_, done, response) =
              claim_once u (order_key at) (j.to_value o) at.now at'.now s.db db₁ s'.db fresh refl
                row in
            let again =
              claim_complete a at' s'.db u known
                (ap (λ k. claim_idempotency_key u k at'.now s'.db) same ∙ done)
                (ap (λ k. get_idempotency_response u k s'.db) same ∙ response) in
            let read : read_stored w d x j describe (j.from_value (j.to_value o))
                ≡ ok (answer_order w d x j describe 200 o) =
              ap (read_stored w d x j describe) (trip o (ap (λ k. k.0) whole)) in
            inl (
              o,
              ap (λ k. k.0) whole,
              ap (resume at' p' m' s'.pending) again ∙ ap (λ r. (r, s')) read,
            )
      ]
