-- ===== src/Db/Idempotency/Expiry.antt =====
-- What the clean-up of old keys does to a claim.
use w16crypto_engine.Db.Idempotency.Claims.{
  map_option, is_row_self, completed_row, find_completed, claim_of_known,
}
use w16crypto_engine.Db.Withdrawals.{expire_idempotency_keys}
use w16crypto_engine.Db.State.{IdempotencyRow, Db}
use w16crypto_engine.Db.Idempotency.{
  complete_idempotency_key, claim_idempotency_key, find_key, is_row, lifetime, completed, ok,
  IdempotencyStatus,
}
use w16crypto_engine.Base.{
  leb, ◌==◌, if◌then◌else◌, Bool-cases, Option-cases, keep, contains, ℕ, ◌+◌, String, ◌≡◌, refl, ap,
  ◌∙◌, inl, inr, Bool, true, none, List, [], ◌∷◌, arith, some,
}

find_key-keep :
    (u : ℕ) (key : String) (p : IdempotencyRow → Bool) (rs : List IdempotencyRow)
    → find_key u key rs ≡ none
    → find_key u key (keep p rs) ≡ none
unfolding find_key
find_key-keep u key p [] h = refl
find_key-keep u key p (r ∷ rs) h = elim (Bool-cases (is_row u key r)) [
  | inl e ↦ absurd (ground arith)
  | inr e ↦ elim (Bool-cases (p r)) [
    | inl kept ↦ rw (kept, e) (find_key-keep u key p rs (rw e at h))
    | inr gone ↦ rw gone (find_key-keep u key p rs (rw e at h))
  ]
]

abbrev claim_row : ℕ → String → ℕ → IdempotencyRow
claim_row u key now = record {
  user_id = u;
  key = key;
  status = 1;
  response = none;
  expires_at = now + lifetime;
}

-- What a claim that was fresh found and left.
claim_left :
    (u : ℕ) (key : String) (now : ℕ) (db : Db)
    → (claim_idempotency_key u key now db).0 ≡ ok IdempotencyStatus.fresh
    → (find_key u key db.idempotency_keys ≡ none)
      × (contains u db.users ≡ true)
      × ((claim_idempotency_key u key now db).1
          ≡ record db { idempotency_keys = claim_row u key now ∷ db.idempotency_keys })
unfolding claim_idempotency_key
claim_left u key now db h = elim (Option-cases (find_key u key db.idempotency_keys)) [
  | inl new ↦ elim (Bool-cases (contains u db.users)) [
    | inl known ↦ ground (arith, new, known)
    | inr unknown ↦ absurd (ground arith)
  ]
  | inr (r, e) ↦ elim (Bool-cases (r.status == 2)) [
    | inl two ↦ absurd (ground arith)
    | inr other ↦ absurd (ground arith)
  ]
]

claim_unknown :
    (u : ℕ) (key : String) (now : ℕ) (db : Db)
    → find_key u key db.idempotency_keys ≡ none
    → contains u db.users ≡ true
    → (claim_idempotency_key u key now db).0 ≡ ok IdempotencyStatus.fresh
unfolding claim_idempotency_key
claim_unknown u key now db new known = ground (arith, new, known)

found_first :
    (u : ℕ) (key : String) (r : IdempotencyRow) (rs : List IdempotencyRow)
    → is_row u key r ≡ true
    → find_key u key (r ∷ rs) ≡ some r
unfolding find_key
found_first u key r rs same = rw same refl

-- A claim after a clean-up, of a key that one row has, at the head of the table.
claim_cleaned :
    (u : ℕ) (key : String) (t later : ℕ) (r : IdempotencyRow) (rs : List IdempotencyRow) (db : Db)
    → db.idempotency_keys ≡ r ∷ rs
    → is_row u key r ≡ true
    → find_key u key rs ≡ none
    → contains u db.users ≡ true
    → (claim_idempotency_key u key later (expire_idempotency_keys t db).1).0
      ≡ ok (
          if leb t r.expires_at
          then (if r.status == 2 then IdempotencyStatus.complete else IdempotencyStatus.processing)
          else IdempotencyStatus.fresh)
unfolding expire_idempotency_keys
claim_cleaned u key t later r rs db there same single known =
    let cleaned = (expire_idempotency_keys t db).1 in
    let young : IdempotencyRow → Bool = λ k. leb t k.expires_at in
    let rest = find_key-keep u key young rs single in
    let keys : cleaned.idempotency_keys ≡ keep young (r ∷ rs) = ap (keep young) there in
    elim (Bool-cases (leb t r.expires_at)) [
      | inl e ↦
          let kept : keep young (r ∷ rs) ≡ r ∷ keep young rs = rw e refl in
          let found =
            ap (find_key u key) (keys ∙ kept) ∙ found_first u key r (keep young rs) same in
          ap (λ x. x.0) (claim_of_known u key later cleaned r found) ∙ rw e refl
      | inr e ↦
          let gone : keep young (r ∷ rs) ≡ keep young rs = rw e refl in
          let lost = ap (find_key u key) (keys ∙ gone) ∙ rest in
          claim_unknown u key later cleaned lost known ∙ rw e refl
    ]

-- After a claim that was fresh and a clean-up at time `t`, the next claim of the key by the user finds
-- it in process, or complete if the response was stored before, as long as `t` is within a day of
-- the first claim; after a later clean-up it is fresh again.
pub claim_after_expiry :
    (u : ℕ) (key response : String) (now t later : ℕ) (db : Db)
    → (claim_idempotency_key u key now db).0 ≡ ok IdempotencyStatus.fresh
    → let claimed = (claim_idempotency_key u key now db).1 in
      let stored = (complete_idempotency_key u key response claimed).1 in
      ((claim_idempotency_key u key later (expire_idempotency_keys t claimed).1).0
        ≡ ok
            (if leb t (now + 86400) then IdempotencyStatus.processing else IdempotencyStatus.fresh))
      × ((claim_idempotency_key u key later (expire_idempotency_keys t stored).1).0
          ≡ ok
              (if leb t (now + 86400) then IdempotencyStatus.complete else IdempotencyStatus.fresh))
unfolding complete_idempotency_key completed map_option
claim_after_expiry u key response now t later db h =
    let (new, known, left) = claim_left u key now db h in
    let claimed = (claim_idempotency_key u key now db).1 in
    let stored = (complete_idempotency_key u key response claimed).1 in
    let row = claim_row u key now in
    let own = is_row_self u key 1 (now + lifetime) none in
    let keys : stored.idempotency_keys
        ≡ completed_row response row ∷ completed u key response db.idempotency_keys =
      ap (λ d. completed u key response d.idempotency_keys) left ∙ rw own refl in
    (
      claim_cleaned u key t later row db.idempotency_keys claimed
          (ap (λ d. d.idempotency_keys) left) own new (ap (λ d. contains u d.users) left ∙ known),
      claim_cleaned u key t later (completed_row response row)
          (completed u key response db.idempotency_keys) stored keys own
          (find_completed u key response db.idempotency_keys
            ∙ ap (map_option (completed_row response)) new)
          (ap (λ d. contains u d.users) left ∙ known),
    )
