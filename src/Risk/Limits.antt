-- ===== src/Risk/Limits.antt =====
-- What an accepted order request satisfies.
use w16crypto_engine.Db.Positions.{decode_sum, changes_in}
use w16crypto_engine.Db.State.{Db, PositionChange}
use w16crypto_engine.Common.Types.{Side, OrderRequest}
use w16crypto_engine.Risk.{
  abs_i64, check_order, RiskControls, order_delta, check_price, check_price_bands, ok,
  check_quantity_limit, check_position_limit, get_position_for_user, position_or_zero,
}
use w16crypto_engine.Base.{
  ℕ, Option-cases, ℤ, pos, ◌+ℤ◌, ◌≤ℤ◌, ◌<ℤ◌, ltb_ℤ, neg_ℤ, i64_bound, neg_i64, saturating_add_i64,
  ◌≤◌, ◌<◌, ◌≡◌, inl, inr, false, Option, none, some, arith, ltb, leb, if◌then◌else◌, Bool-cases,
  negsuc, pos_part, neg_part, suc, ◌-◌, ◌+◌, subst, int_laws, refl, List, [], ◌∷◌,
}

-- The change that a request would make to the user's position, as an integer.
abbrev pub signed_quantity : Side → ℕ → ℤ
signed_quantity Side.buy q = pos q
signed_quantity Side.sell q = neg_ℤ (pos q)

abbrev pub InBands : RiskControls → Option ℕ → Type 0
InBands c none = Unit
InBands c (some p) = (c.min_price ≤ p) × (p ≤ c.max_price)

order_delta_small : (s : Side) (q : ℕ) → q < i64_bound → order_delta s q ≡ signed_quantity s q
unfolding order_delta neg_i64
order_delta_small Side.buy q h = ground arith
order_delta_small Side.sell q h = ground arith

-- `saturating_add` clamps the exact sum.
clamp : ℤ → ℤ
clamp c =
    if leb i64_bound (pos_part c)
    then pos (i64_bound - 1)
    else if ltb i64_bound (neg_part c)
    then negsuc (i64_bound - 1)
    else c

sum_within :
    (c m : ℤ)
    → m <ℤ pos 9223372036854775807
    → neg_part c < i64_bound
    → ltb_ℤ m (abs_i64 (clamp c)) ≡ false
    → (neg_ℤ m ≤ℤ c) × (c ≤ℤ m)
unfolding neg_i64 neg_ℤ clamp
sum_within (pos n) m lim low h = elim (Bool-cases (leb i64_bound n)) [
  | inl e ↦ ground arith
  | inr e ↦ ground arith
]
sum_within (negsuc n) m lim low h = elim (Bool-cases (ltb i64_bound (suc n))) [
  | inl e ↦ ground arith
  | inr e ↦ ground arith
]

-- A saturated sum that stays within the limit is the sum itself, and so stays within it.
within_limit :
    (a b m : ℤ)
    → m <ℤ pos 9223372036854775807
    → neg_part (a +ℤ b) < i64_bound
    → ltb_ℤ m (abs_i64 (saturating_add_i64 a b)) ≡ false
    → (neg_ℤ m ≤ℤ a +ℤ b) × (a +ℤ b ≤ℤ m)
unfolding saturating_add_i64 clamp
within_limit a b m lim low h = sum_within (a +ℤ b) m lim low h

price_bands_ok :
    (c : RiskControls) (p : Option ℕ) (db : Db) → (check_price c p db).0 ≡ ok tt → InBands c p
unfolding check_price
price_bands_ok c none db h = tt
price_bands_ok c (some p) db h = ground arith

-- The three checks change nothing.
pub check_order_pure :
    (c : RiskControls) (u : ℕ) (req : OrderRequest) (db : Db) → (check_order c u req db).1 ≡ db
unfolding check_order check_price_bands check_price check_quantity_limit check_position_limit
check_order_pure c u req db = elim (Option-cases req.price) [
  | inl market ↦ ground arith
  | inr (p, e) ↦ ground arith
]

signed_small :
    (net : ℤ) (s : Side) (q : ℕ)
    → neg_part net + q < i64_bound
    → neg_part (net +ℤ signed_quantity s q) < i64_bound
unfolding ◌+ℤ◌ neg_ℤ
signed_small net Side.buy q h = ground arith
signed_small net Side.sell q h = ground arith

zero_add : (a : ℤ) → pos 0 +ℤ a ≡ a
zero_add a = omega int_laws

quantity_ok :
    (c : RiskControls) (req : OrderRequest) (db : Db)
    → (check_quantity_limit c req db).0 ≡ ok tt
    → req.quantity ≤ c.max_quantity
unfolding check_quantity_limit
quantity_ok c req db h = ground arith

-- The position counts as none, whether the query fails or not.
counted_zero : (u m : ℕ) (db : Db) → position_or_zero (get_position_for_user u m db).0 ≡ pos 0
unfolding w16crypto_engine.Db.Positions.get_position_for_user
    w16crypto_engine.Db.Positions.changes_in
counted_zero u m db = decoded_zero (changes_in u m db.position_changes)
  where
    decoded_zero : (cs : List PositionChange) → position_or_zero (decode_sum cs db).0 ≡ pos 0
    decoded_zero [] = refl
    decoded_zero (c ∷ cs) = refl

position_ok :
    (c : RiskControls) (u : ℕ) (req : OrderRequest) (db : Db)
    → (check_position_limit c u req db).0 ≡ ok tt
    → ltb_ℤ c.max_position
        (abs_i64 (saturating_add_i64 (pos 0) (order_delta req.side req.quantity)))
      ≡ false
unfolding check_position_limit
position_ok c u req db h = ground (arith, counted_zero u req.market_id db)

-- What the limit says of a position is the same in all tables.
position_again :
    (c : RiskControls) (u : ℕ) (req : OrderRequest) (db db' : Db)
    → (check_position_limit c u req db').0 ≡ (check_position_limit c u req db).0
unfolding check_position_limit
position_again c u req db db' =
    rw (counted_zero u req.market_id db, counted_zero u req.market_id db') (ground arith)

checks_again :
    (c : RiskControls) (u : ℕ) (req : OrderRequest) (db db' : Db)
    → (check_order c u req db).0 ≡ ok tt
    → (check_order c u req db').0 ≡ ok tt
unfolding check_order check_price_bands check_price check_quantity_limit
checks_again c u req db db' h = elim (Option-cases req.price) [
  | inl market ↦ ground (arith, position_again c u req db db')
  | inr (p, e) ↦ ground (arith, position_again c u req db db')
]

checks_ok :
    (c : RiskControls) (u : ℕ) (req : OrderRequest) (db : Db)
    → (check_order c u req db).0 ≡ ok tt
    → ((check_price c req.price db).0 ≡ ok tt)
      × ((check_quantity_limit c req db).0 ≡ ok tt)
      × ((check_position_limit c u req db).0 ≡ ok tt)
unfolding check_order check_price_bands check_price check_quantity_limit
checks_ok c u req db h = elim (Option-cases req.price) [
  | inl market ↦ ground arith
  | inr (p, e) ↦ ground arith
]

-- An order that `check_order` accepts has a price within the bands, if it has one, a quantity within
-- the limit, and one that alone makes no position beyond `max_position`; and it is accepted whatever
-- the tables are, so the position that the user has counts for nothing. It is assumed that
-- `max_position` is below the greatest `i64` and `max_quantity` below its bound.
pub check_order_accepts :
    (c : RiskControls) (u : ℕ) (req : OrderRequest) (db db' : Db)
    → c.max_position <ℤ pos 9223372036854775807
    → c.max_quantity < i64_bound
    → (check_order c u req db).0 ≡ ok tt
    → InBands c req.price
      × (req.quantity ≤ c.max_quantity)
      × (neg_ℤ c.max_position ≤ℤ signed_quantity req.side req.quantity)
      × (signed_quantity req.side req.quantity ≤ℤ c.max_position)
      × ((check_order c u req db').0 ≡ ok tt)
check_order_accepts c u req db db' lim low h =
    let (bands, q, p) = checks_ok c u req db h in
    let small = quantity_ok c req db q in
    let same = order_delta_small req.side req.quantity (ground arith) in
    let clamped =
      subst (λ d. ltb_ℤ c.max_position (abs_i64 (saturating_add_i64 (pos 0) d)) ≡ false) same
        (position_ok c u req db p) in
    let (above, below) =
      within_limit (pos 0) (signed_quantity req.side req.quantity) c.max_position lim
        (signed_small (pos 0) req.side req.quantity (ground arith)) clamped in
    (
      price_bands_ok c req.price db bands,
      small,
      subst (λ k. neg_ℤ c.max_position ≤ℤ k) (zero_add _) above,
      subst (λ k. k ≤ℤ c.max_position) (zero_add _) below,
      checks_again c u req db db' h,
    )
