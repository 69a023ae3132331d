-- ===== src/Http/Deposits/Once.antt =====
-- A deposit is made once for each key.
use w16crypto_engine.Db.Idempotency.Claims.{
  is_row_self, map_option, completed_row, claim_of_known, find_completed,
}
use w16crypto_engine.Db.Balances.Funds.{funds, upsert_balance-funds}
use w16crypto_engine.Db.Idempotency.{
  IdempotencyStatus, claim_idempotency_key, complete_idempotency_key, find_key, completed, lifetime,
  get_idempotency_response, stored_response,
}
use w16crypto_engine.Http.Deposits.{
  Json, check_deposit, perform, DepositRequest, Arrival, DepositResponse, response_of, key_of,
  units, keyed, deposit, cached, answer,
}
use w16crypto_engine.Common.Error.{ok}
use w16crypto_engine.Db.State.{
  Db, Keeps, IdempotencyRow, ◌>>=◌, ◌>>◌, DepositRow, >>=-ok, pure, conclude_ok, continue,
}
use w16crypto_engine.Db.Balances.{record_deposit, insert_deposit, upsert_balance}
use w16crypto_engine.Http.{Web, AuthContext, Response, respond}
use w16crypto_engine.Db.Users.{audit}
use w16crypto_engine.Base.{
  Option-cases, ℤ, ◌+ℤ◌, ℕ, String, ◌≡◌, inl, inr, Option, some, arith, Bool-cases, contains, ◌+◌,
  sym, ap, ◌∙◌, none, refl,
}

record_deposit-keys :
    (id u : ℕ) (n : ℤ) (r : String) → Keeps (λ d. d.idempotency_keys) (record_deposit id u n r)
unfolding record_deposit
record_deposit-keys id u n r db = ground arith

audit-keys :
    (u : Option ℕ) (action entity : String) (id : Option ℕ)
    → Keeps (λ d. d.idempotency_keys) (audit u action entity id)
unfolding audit
audit-keys u action entity id db = ground arith

audit-funds :
    (u : Option ℕ) (action entity : String) (id : Option ℕ)
    → Keeps (λ d. d.balances) (audit u action entity id)
unfolding audit
audit-funds u action entity id db = ground arith

insert_deposit-balances : (id : ℕ) (d : DepositRow) → Keeps (λ x. x.balances) (insert_deposit id d)
insert_deposit-balances id d db = ground arith

record_deposit-funds :
    (id u : ℕ) (n : ℤ) (r : String) (db : Db)
    → (record_deposit id u n r db).0 ≡ ok tt
    → funds (record_deposit id u n r db).1.balances ≡ funds db.balances +ℤ n
unfolding record_deposit
record_deposit-funds id u n r db h =
    let row : DepositRow = record { user_id = u; amount = n; reference = r } in
    let inner = λ (_ : Unit {0}). upsert_balance u n >> pure tt in
    let whole = conclude_ok db ((insert_deposit id row >>= inner) db) h in
    let (_, _, first) = >>=-ok (insert_deposit id row) inner db (sym (ap (λ x. x.0) whole) ∙ h) in
    let start = (insert_deposit id row db).1 in
    let paid = sym (ap (λ x. x.0) (whole ∙ first)) ∙ h in
    let (_, credited, second) = >>=-ok (upsert_balance u n) (λ _. pure tt) start paid in
    ap (λ x. funds x.1.balances) (whole ∙ first ∙ second)
    ∙ upsert_balance-funds u n start credited
    ∙ ap (λ t. funds t +ℤ n) (insert_deposit-balances id row db)

-- A claim changes no balance, and leaves a row of the key.
abbrev fresh_row : ℕ → String → ℕ → IdempotencyRow
fresh_row u key now = record {
  user_id = u;
  key = key;
  status = 1;
  response = none;
  expires_at = now + lifetime;
}

claim_cases :
    (u : ℕ) (key : String) (now : ℕ) (db : Db) {s : IdempotencyStatus}
    → (claim_idempotency_key u key now db).0 ≡ ok s
    → ((claim_idempotency_key u key now db).1.balances ≡ db.balances)
      × ((row : IdempotencyRow) × (find_key u key
              (claim_idempotency_key u key now db).1.idempotency_keys
            ≡ some row))
unfolding claim_idempotency_key find_key
claim_cases u key now db h = elim (Option-cases (find_key u key db.idempotency_keys)) [
  | inl new ↦ elim (Bool-cases (contains u db.users)) [
    | inl known ↦ (
      ground arith,
      (fresh_row u key now, ground (arith, is_row_self u key 1 (now + lifetime) none)),
    )
    | inr unknown ↦ absurd (ground arith)
  ]
  | inr (r, e) ↦ (ground arith, (r, ground arith))
]

ok_injective : {A : Type 0} {a b : A} → ok a ≡ ok b → a ≡ b
ok_injective h = cc

module _ (w : Web) (j : Json) where
  -- The checks read no table.
  check_again :
      (a : AuthContext) (req : DepositRequest w.Float) (db db' : Db) {u : ℕ}
      → (check_deposit w j a req db).0 ≡ ok u
      → (check_deposit w j a req db ≡ (ok u, db)) × (check_deposit w j a req db' ≡ (ok u, db'))
  unfolding check_deposit
  check_again a req db db' h = elim (Option-cases (w.parse_uuid a.user_id)) [
    | inl unknown ↦ absurd (ground arith)
    | inr (u, e) ↦ ground arith
  ]

  -- The caller of a request that passes the checks.
  check_user :
      (a : AuthContext) (req : DepositRequest w.Float) (db : Db) {u : ℕ}
      → (check_deposit w j a req db).0 ≡ ok u
      → w.parse_uuid a.user_id ≡ some u
  unfolding check_deposit
  check_user a req db h = elim (Option-cases (w.parse_uuid a.user_id)) [
    | inl unknown ↦ absurd (ground arith)
    | inr (u, e) ↦ ground arith
  ]

  -- A deposit that was made: what `perform` did to the tables.
  perform_made :
      (u : ℕ) (at : Arrival) (req : DepositRequest w.Float) (db : Db) {r : Response DepositResponse}
      → (perform w j u at req db).0 ≡ ok r
      → let db' = (perform w j u at req db).1 in
        (r ≡ record { status = 201; body = response_of w j req })
        × (db'.idempotency_keys
            ≡ completed u (key_of at) (j.to_value (response_of w j req)) db.idempotency_keys)
        × (funds db'.balances ≡ funds db.balances +ℤ units w j req.amount)
  unfolding perform complete_idempotency_key
  perform_made u at req db h =
      let id = at.row_id in
      let n = units w j req.amount in
      let deposit_call = record_deposit id req.user_id n req.reference in
      let log = audit (some u) "deposit" "user" (some req.user_id) in
      let stored = complete_idempotency_key u (key_of at) (j.to_value (response_of w j req)) in
      let done = respond 201 (response_of w j req) in
      let (_, made, first) = >>=-ok deposit_call (λ _. log >> (stored >> done)) db h in
      let db₁ = (deposit_call db).1 in
      let (_, _, second) = >>=-ok log (λ _. stored >> done) db₁ (sym (ap (λ x. x.0) first) ∙ h) in
      let end = first ∙ second in
      let keys =
        audit-keys (some u) "deposit" "user" (some req.user_id) db₁
        ∙ record_deposit-keys id req.user_id n req.reference db in
      (
        sym (ok_injective (sym (ap (λ x. x.0) end) ∙ h)),
        ap (λ x. x.1.idempotency_keys) end
            ∙ ap (completed u (key_of at) (j.to_value (response_of w j req))) keys,
        ap (λ x. funds x.1.balances) end
            ∙ ap funds (audit-funds (some u) "deposit" "user" (some req.user_id) db₁)
            ∙ record_deposit-funds id req.user_id n req.reference db made,
      )

  answer_201 :
      (u : ℕ) (at : Arrival) (req : DepositRequest w.Float) (stored : Option String) (db : Db)
      {body : DepositResponse}
      → (answer w j u at req stored db).0 ≡ ok (record { status = 201; body = body })
      → answer w j u at req stored db ≡ perform w j u at req db
  answer_201 u at req none db h = refl
  answer_201 u at req (some v) db h = elim (Option-cases (j.from_value v)) [
    | inl unread ↦ absurd (ground arith)
    | inr (r, e) ↦ absurd (ground arith)
  ]

  -- A request that was answered with 201 ran `perform`, on tables that have a row of its key and the
  -- same balances.
  keyed_made :
      (u : ℕ) (at : Arrival) (req : DepositRequest w.Float) (db : Db) {body : DepositResponse}
      → (keyed w j u at req db).0 ≡ ok (record { status = 201; body = body })
      → (db₁ : Db) × (keyed w j u at req db ≡ perform w j u at req db₁)
        × (db₁.balances ≡ db.balances)
        × ((row : IdempotencyRow) × (find_key u (key_of at) db₁.idempotency_keys ≡ some row))
  unfolding keyed get_idempotency_response
  keyed_made u at req db {body} h =
      let claim = claim_idempotency_key u (key_of at) at.now in
      let db₁ = (claim db).1 in
      let (s, claimed, first) =
        >>=-ok claim (λ s. cached u (key_of at) s >>= answer w j u at req) db h in
      let (balances, row) = claim_cases u (key_of at) at.now db claimed in
      (db₁, first ∙ after s (sym (ap (λ x. x.0) first) ∙ h), balances, row)
    where
      after :
          (s : IdempotencyStatus)
          → ((cached u (key_of at) s >>= answer w j u at req)
              (claim_idempotency_key u (key_of at) at.now db).1).0
            ≡ ok (record { status = 201; body = body })
          → (cached u (key_of at) s >>= answer w j u at req)
              (claim_idempotency_key u (key_of at) at.now db).1
            ≡ perform w j u at req (claim_idempotency_key u (key_of at) at.now db).1
      after IdempotencyStatus.fresh h = refl
      after IdempotencyStatus.processing h = absurd (cc)
      after IdempotencyStatus.complete h =
          answer_201 u at req
            (stored_response (
              find_key u (key_of at)
                (claim_idempotency_key u (key_of at) at.now db).1.idempotency_keys))
            (claim_idempotency_key u (key_of at) at.now db).1 h

  -- A request of a key whose answer is stored gets that answer, and changes nothing.
  keyed_again :
      (u : ℕ) (at : Arrival) (req : DepositRequest w.Float) (db : Db) (row : IdempotencyRow)
      (r : DepositResponse)
      → j.from_value (j.to_value r) ≡ some r
      → find_key u (key_of at) db.idempotency_keys ≡ some (completed_row (j.to_value r) row)
      → keyed w j u at req db ≡ (ok (record { status = 200; body = r }), db)
  unfolding keyed get_idempotency_response
  keyed_again u at req db row r trip e =
      ground
        (arith, trip, claim_of_known u (key_of at) at.now db (completed_row (j.to_value r) row) e)

  -- A deposit that is answered with 201 has raised the money in the accounts by its amount; a later
  -- request of the administrator with the same key and body, in any tables that still have the key's
  -- row as the deposit left it, is answered with the same body and 200, and changes nothing. It is
  -- assumed that serde_json reads back the body that it wrote.
  pub deposit_once :
      (a : AuthContext) (at at' : Arrival) (req : DepositRequest w.Float) (db later : Db)
      {body : DepositResponse}
      → j.from_value (j.to_value (response_of w j req)) ≡ some (response_of w j req)
      → key_of at' ≡ key_of at
      → (deposit w j a at req db).0 ≡ ok (record { status = 201; body = body })
      → ((u : ℕ)
          → w.parse_uuid a.user_id ≡ some u
          → find_key u (key_of at) later.idempotency_keys
            ≡ find_key u (key_of at) (deposit w j a at req db).1.idempotency_keys)
      → let db' = (deposit w j a at req db).1 in
        (body ≡ response_of w j req)
        × (funds db'.balances ≡ funds db.balances +ℤ units w j req.amount)
        × (deposit w j a at' req later ≡ (ok (record { status = 200; body = body }), later))
  unfolding deposit map_option
  deposit_once a at at' req db later trip same h kept =
      let (u, checked, first) = >>=-ok (check_deposit w j a req) (λ u. keyed w j u at req) db h in
      let (c, _) = check_again a req db db checked in
      let run = first ∙ ap (keyed w j u at req) (ap (λ x. x.1) c) in
      let (db₁, ran, balances, (row, there)) =
        keyed_made u at req db (sym (ap (λ x. x.0) run) ∙ h) in
      let p = run ∙ ran in
      let (shape, keys, money) = perform_made u at req db₁ (sym (ap (λ x. x.0) p) ∙ h) in
      let db' = (deposit w j a at req db).1 in
      let r = response_of w j req in
      let same_body = ap (λ x. x.body) shape in
      let found =
        ap (λ k. find_key u k later.idempotency_keys) same
        ∙ kept u (check_user a req db checked)
        ∙ ap (find_key u (key_of at)) (ap (λ x. x.1.idempotency_keys) p ∙ keys)
        ∙ find_completed u (key_of at) (j.to_value r) db₁.idempotency_keys
        ∙ ap (map_option (completed_row (j.to_value r))) there in
      (
        same_body,
        ap (λ x. funds x.1.balances) p ∙ money ∙ ap (λ t. funds t +ℤ units w j req.amount) balances,
        ap (continue (λ u. keyed w j u at' req)) (check_again a req db later checked).1
            ∙ keyed_again u at' req later row r trip found
            ∙ ap (λ b. (ok (record { status = 200; body = b }), later)) (sym same_body),
      )
