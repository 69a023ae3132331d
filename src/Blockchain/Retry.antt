-- ===== src/Blockchain/Retry.antt =====
-- How often a transaction is tried, and that the queue empties.
use w16crypto_engine.Base.{
  length, sum_by, Table, ℕ, suc, ◌+◌, ◌-◌, ◌*◌, ◌≤◌, ◌≡◌, Bool, Option, none, some, List, [], ◌∷◌,
  arith, leb, Bool-cases, refl, subst, inl, inr, true,
}
use w16crypto_engine.Blockchain.{
  PendingTransaction, Round, retry_one, retry_round, retry_rounds, retry_delay, bumped, and_kept,
}

-- The attempts that are left to a transaction, and to a queue.
abbrev pub left_to : {R : Type 0} → PendingTransaction R → ℕ
left_to p = 3 - p.retry_count

abbrev pub left_in : {R : Type 0} → Table (PendingTransaction R) → ℕ
left_in t = sum_by (λ e. left_to e.1) t

abbrev left_if_kept : {R : Type 0} → Option (PendingTransaction R) → ℕ
left_if_kept none = 0
left_if_kept (some p) = left_to p

bumped-count :
    {R : Type 0} (block : ℕ) (p : PendingTransaction R)
    → (bumped block p).retry_count ≡ p.retry_count
bumped-count block p = ground arith

retry_one-attempts :
    {R : Type 0} (now block : ℕ) (sent : Bool) (p : PendingTransaction R)
    → (retry_one now block sent p).attempts + left_if_kept (retry_one now block sent p).kept
      ≤ left_to p
unfolding retry_one
retry_one-attempts now block sent p = ground arith

kept-left :
    {R : Type 0} (h : ℕ) (k : Option (PendingTransaction R)) (t : Table (PendingTransaction R))
    → left_in (and_kept h k t) ≡ left_if_kept k + left_in t
kept-left h none t = ground arith
kept-left h (some p) t = ground arith

round_attempts :
    {R : Type 0} (r : Round) (t : Table (PendingTransaction R))
    → (retry_round r t).1 + left_in (retry_round r t).0 ≤ left_in t
unfolding retry_round
round_attempts r [] = ground arith
round_attempts r (e ∷ t) = ground (
  arith,
  retry_one-attempts r.now r.block (r.takes e.0) e.1,
  kept-left e.0 (retry_one r.now r.block (r.takes e.0) e.1).kept (retry_round r t).0,
  round_attempts r t,
)

rounds_attempts :
    {R : Type 0} (rs : List Round) (t : Table (PendingTransaction R))
    → (retry_rounds rs t).1 + left_in (retry_rounds rs t).0 ≤ left_in t
unfolding retry_rounds
rounds_attempts [] t = ground arith
rounds_attempts (r ∷ rs) t =
    ground (arith, round_attempts r t, rounds_attempts rs (retry_round r t).0)

-- Each transaction was tried `n` times at least, and last by the time.
unfoldable pub AreTried : {R : Type 0} → ℕ → ℕ → Table (PendingTransaction R) → Type 0
AreTried n time [] = Unit
AreTried n time (e ∷ t) = ((n ≤ e.1.retry_count) × (e.1.submitted_at ≤ time)) × AreTried n time t

-- The rounds come at least the longest delay after the time, and after each other.
unfoldable pub AreSpaced : ℕ → List Round → Type 0
AreSpaced time [] = Unit
AreSpaced time (r ∷ rs) = (time + 30000 ≤ r.now) × AreSpaced r.now rs

short_delay : (n : ℕ) → retry_delay n ≤ 30000
unfolding retry_delay
short_delay n = ground arith

unfoldable IsTriedIfKept : {R : Type 0} → ℕ → ℕ → Option (PendingTransaction R) → Type 0
IsTriedIfKept n time none = Unit
IsTriedIfKept n time (some p) = (n ≤ p.retry_count) × (p.submitted_at ≤ time)

retry_one-IsTriedIfKept :
    {R : Type 0} (n time now block : ℕ) (sent : Bool) (p : PendingTransaction R)
    → n ≤ p.retry_count
    → p.submitted_at ≤ time
    → time + 30000 ≤ now
    → IsTriedIfKept (suc n) now (retry_one now block sent p).kept
unfolding retry_one IsTriedIfKept
retry_one-IsTriedIfKept n time now block sent p tried before spaced =
    let due : leb (retry_delay p.retry_count) (now - p.submitted_at) ≡ true =
      ground (arith, short_delay p.retry_count) in
    let next = bumped block p in
    let failed_once = record next { retry_count = next.retry_count + 1; submitted_at = now } in
    elim (Bool-cases (leb 3 p.retry_count)) [
      | inl enough ↦
          let gone : none ≡ (retry_one now block sent p).kept = ground (arith, enough) in
          subst (IsTriedIfKept (suc n) now) gone tt
      | inr more ↦ elim (Bool-cases sent) [
        | inl taken ↦
            let gone : none ≡ (retry_one now block sent p).kept =
              ground (arith, more, taken, due) in
            subst (IsTriedIfKept (suc n) now) gone tt
        | inr failed ↦
            let again : some failed_once ≡ (retry_one now block sent p).kept =
              ground (arith, more, failed, due) in
            subst (IsTriedIfKept (suc n) now) again
              (ground (arith, bumped-count block p), ground arith)
      ]
    ]

kept-AreTried :
    {R : Type 0} (n time h : ℕ) (k : Option (PendingTransaction R))
    (t : Table (PendingTransaction R))
    → IsTriedIfKept n time k
    → AreTried n time t
    → AreTried n time (and_kept h k t)
unfolding IsTriedIfKept AreTried
kept-AreTried n time h none t a b = b
kept-AreTried n time h (some p) t a b = (a, b)

round-AreTried :
    {R : Type 0} (n time : ℕ) (r : Round) (t : Table (PendingTransaction R))
    → AreTried n time t
    → time + 30000 ≤ r.now
    → AreTried (suc n) r.now (retry_round r t).0
unfolding retry_round AreTried
round-AreTried n time r [] a s = tt
round-AreTried n time r (e ∷ t) ((tried, before), rest) s =
    kept-AreTried (suc n) r.now e.0 (retry_one r.now r.block (r.takes e.0) e.1).kept _
      (retry_one-IsTriedIfKept n time r.now r.block (r.takes e.0) e.1 tried before s)
      (round-AreTried n time r t rest s)

-- A transaction that was tried three times is dropped.
round_of_tried :
    {R : Type 0} (time : ℕ) (r : Round) (t : Table (PendingTransaction R))
    → AreTried 3 time t
    → (retry_round r t).0 ≡ []
unfolding retry_round retry_one AreTried
round_of_tried time r [] a = refl
round_of_tried time r (e ∷ t) ((tried, before), rest) =
    ground (arith, tried, round_of_tried time r t rest)

unfoldable pub AreQueuedBy : {R : Type 0} → ℕ → Table (PendingTransaction R) → Type 0
AreQueuedBy time [] = Unit
AreQueuedBy time (e ∷ t) = (e.1.submitted_at ≤ time) × AreQueuedBy time t

queued-AreTried :
    {R : Type 0} (time : ℕ) (t : Table (PendingTransaction R))
    → AreQueuedBy time t
    → AreTried 0 time t
unfolding AreQueuedBy AreTried
queued-AreTried time [] a = tt
queued-AreTried time (e ∷ t) (before, rest) = ((ground arith, before), queued-AreTried time t rest)

left_le : {R : Type 0} (t : Table (PendingTransaction R)) → left_in t ≤ 3 * length t
left_le [] = ground arith
left_le (e ∷ t) = ground (arith, left_le t)

four_rounds :
    {R : Type 0} (time : ℕ) (a b c e : Round) (t : Table (PendingTransaction R))
    → AreQueuedBy time t
    → AreSpaced time (a ∷ b ∷ c ∷ e ∷ [])
    → (retry_rounds (a ∷ b ∷ c ∷ e ∷ []) t).0 ≡ []
unfolding retry_rounds AreSpaced
four_rounds time a b c e t q (first, (second, (third, _))) =
    let one = (retry_round a t).0 in
    let two = (retry_round b one).0 in
    let three = (retry_round c two).0 in
    round_of_tried c.now e three (
      round-AreTried 2 b.now c two
        (round-AreTried 1 a.now b one (round-AreTried 0 time a t (queued-AreTried time t q) first)
          second)
        third)

-- Four rounds that are spaced by the longest delay at least empty a queue that was filled before
-- them, with three attempts at most for each of its transactions, whatever the provider takes and
-- whatever the blocks are.
pub retry_rounds-drain :
    {R : Type 0} (time : ℕ) (a b c e : Round) (t : Table (PendingTransaction R))
    → AreQueuedBy time t
    → AreSpaced time (a ∷ b ∷ c ∷ e ∷ [])
    → ((retry_rounds (a ∷ b ∷ c ∷ e ∷ []) t).0 ≡ [])
      × ((retry_rounds (a ∷ b ∷ c ∷ e ∷ []) t).1 ≤ 3 * length t)
retry_rounds-drain time a b c e t q s = (
  four_rounds time a b c e t q s,
  ground (arith, rounds_attempts (a ∷ b ∷ c ∷ e ∷ []) t, left_le t),
)
