-- ===== src/Db/Idempotency/Claims.antt =====
-- One request for each key: what a second claim sees.
use w16crypto_engine.Db.State.{Db, IdempotencyRow}
use w16crypto_engine.Db.Idempotency.{
  is_row, find_key, claim_idempotency_key, completed, lifetime, ok, IdempotencyStatus,
  complete_idempotency_key, get_idempotency_response,
}
use w16crypto_engine.Base.{
  ◌==◌, if◌then◌else◌, Bool-cases, Option-cases, ℕ, ◌+◌, String, ◌≡◌, refl, inl, inr, true, Option,
  none, some, List, [], ◌∷◌, arith, contains, ap, ◌∙◌, ◌≢◌,
}
use text.Mathlib.TextPositions.{eq_refl}

-- What completing a key makes of its row.
abbrev pub completed_row : String → IdempotencyRow → IdempotencyRow
completed_row response r = record r { status = 2; response = some response }

unfoldable pub map_option : {A B : Type 0} → (A → B) → Option A → Option B
map_option f none = none
map_option f (some a) = some (f a)

pub is_row_self :
    (u : ℕ) (key : String) (s now : ℕ) (p : Option String)
    → is_row u key (record { user_id = u; key = key; status = s; response = p; expires_at = now })
      ≡ true
is_row_self u key s now p = grind (arith, eq_refl key)

pub find_completed :
    (u : ℕ) (key response : String) (rs : List IdempotencyRow)
    → find_key u key (completed u key response rs)
      ≡ map_option (completed_row response) (find_key u key rs)
unfolding find_key completed map_option
find_completed u key response [] = refl
find_completed u key response (r ∷ rs) = elim (Bool-cases (is_row u key r)) [
  | inl e ↦ ground arith
  | inr e ↦ ground (arith, find_completed u key response rs)
]

-- The row that a fresh claim leaves, the newest of all.
claimed_row : ℕ → String → ℕ → IdempotencyRow
claimed_row u key now = record {
  user_id = u;
  key = key;
  status = 1;
  response = none;
  expires_at = now + lifetime;
}

claim_not_fresh :
    (u : ℕ) (key : String) (now : ℕ) (db : Db) (r : IdempotencyRow)
    → find_key u key db.idempotency_keys ≡ some r
    → (claim_idempotency_key u key now db).0 ≢ ok IdempotencyStatus.fresh
unfolding claim_idempotency_key
claim_not_fresh u key now db r e h = elim (Bool-cases (r.status == 2)) [
  | inl two ↦ ground arith
  | inr other ↦ ground arith
]

found_again :
    (u : ℕ) (key : String) (now : ℕ) (db : Db)
    → (claim_idempotency_key u key now db).0 ≡ ok IdempotencyStatus.fresh
    → find_key u key (claim_idempotency_key u key now db).1.idempotency_keys
      ≡ some (claimed_row u key now)
unfolding claim_idempotency_key claimed_row find_key
found_again u key now db h = elim (Option-cases (find_key u key db.idempotency_keys)) [
  | inl new ↦ elim (Bool-cases (contains u db.users)) [
    | inl known ↦ ground (arith, is_row_self u key 1 (now + lifetime) none)
    | inr unknown ↦ absurd (ground arith)
  ]
  | inr (r, e) ↦ absurd (claim_not_fresh u key now db r e h)
]

-- A claim of a key that some row has.
pub claim_of_known :
    (u : ℕ) (key : String) (now : ℕ) (db : Db) (r : IdempotencyRow)
    → find_key u key db.idempotency_keys ≡ some r
    → claim_idempotency_key u key now db ≡ (
      ok (if r.status == 2 then IdempotencyStatus.complete else IdempotencyStatus.processing),
      db,
    )
unfolding claim_idempotency_key
claim_of_known u key now db r h = ground arith

-- After a claim that was fresh, each further claim of the key by the user, at any time and in any
-- tables in which the key's row is as it was left, finds it in process; once the response is stored,
-- each finds it complete and the response is what is read, for as long as that row is there. None of
-- these claims changes a table.
pub claim_once :
    (u : ℕ) (key response : String) (now later : ℕ) (db db₁ db₂ : Db)
    → (claim_idempotency_key u key now db).0 ≡ ok IdempotencyStatus.fresh
    → find_key u key db₁.idempotency_keys
      ≡ find_key u key (claim_idempotency_key u key now db).1.idempotency_keys
    → find_key u key db₂.idempotency_keys
      ≡ find_key u key
          (complete_idempotency_key u key response
            (claim_idempotency_key u key now db).1).1.idempotency_keys
    → (claim_idempotency_key u key later db₁ ≡ (ok IdempotencyStatus.processing, db₁))
      × (claim_idempotency_key u key later db₂ ≡ (ok IdempotencyStatus.complete, db₂))
      × (get_idempotency_response u key db₂ ≡ (ok (some response), db₂))
unfolding complete_idempotency_key get_idempotency_response claimed_row map_option
claim_once u key response now later db db₁ db₂ h kept stored =
    let claimed = (claim_idempotency_key u key now db).1 in
    let there = found_again u key now db h in
    let done =
      stored
      ∙ find_completed u key response claimed.idempotency_keys
      ∙ ap (map_option (completed_row response)) there in
    (
      claim_of_known u key later db₁ (claimed_row u key now) (kept ∙ there),
      claim_of_known u key later db₂ (completed_row response (claimed_row u key now)) done,
      ground (arith, done),
    )
