-- ===== src/Signals/Direction.antt =====
-- The signals from the fills and from the book point to the side with the larger volume.
use w16crypto_engine.Common.Windows.{latest}
use w16crypto_engine.Signals.Generation.{
  check_volumes, buys, sells, create_signal, Draw, check_walls, check_order_flow_imbalance,
  traded_volume, level_total, check_support_resistance, check_levels,
}
use w16crypto_engine.Signals.{FillData, MarketData}
use w16crypto_engine.Common.Types.{SignalType, is_buy, Signal}
use w16crypto_engine.Common.Floats.{Floats, is_over, share_of}
use w16crypto_engine.Base.{
  if◌then◌else◌, keep, sum_by, u64_bound, ℕ, ◌+◌, ◌*◌, ◌%◌, ◌≤◌, ◌<◌, String, ◌≡◌, refl, Bool, true,
  false, ◌&&◌, Option, none, some, List, [], ◌∷◌, ltb, ltb→lt, Bool-cases, inl, inr, not, arith, ap,
  ◌∙◌, ◌==◌, length, ◌||◌, ◌-◌, OnSome,
}

-- The signal says to buy and `a` is the larger volume, or to sell and `b` is.
unfoldable pub Follows : SignalType → ℕ → ℕ → Type 0
Follows SignalType.buy a b = b < a
Follows SignalType.sell a b = a < b
Follows SignalType.hold a b = ⊥
Follows SignalType.close a b = ⊥

-- The rounded quotient of a number and a number at least twice as large is not above a literal above
-- 1 / 2.
unfoldable pub IsFair : Floats → Type 0
IsFair f =
    (n d a t : ℕ)
    → d < 2 * n
    → 0 < t
    → 2 * a ≤ t
    → f.is_below (f.literal n d) (f.div (f.of_nat a) (f.of_nat t)) ≡ false

-- A check that answers with nothing, with a first or with a second signal.
OnSome-choice :
    {A : Type 0} (P : A → Type 0) (nothing first second : Bool) (x y : A)
    → (nothing ≡ false → first ≡ true → P x)
    → (nothing ≡ false → second ≡ true → P y)
    → OnSome P (if nothing then none else if first then some x else if second then some y else none)
unfolding OnSome
OnSome-choice P true first second x y a b = tt
OnSome-choice P false true second x y a b = a refl refl
OnSome-choice P false false true x y a b = b refl refl
OnSome-choice P false false false x y a b = tt

both_parts : (a b : Bool) → a && b ≡ true → a ≡ true
both_parts true b h = refl
both_parts false b h = cc

abbrev quantities : List FillData → ℕ
quantities = sum_by (λ x. x.quantity)

either_side :
    (b : Bool) (x : FillData) (us vs : List FillData)
    → quantities (if b then x ∷ us else us) + quantities (if not b then x ∷ vs else vs)
      ≡ x.quantity + (quantities us + quantities vs)
either_side true x us vs = omega arith
either_side false x us vs = omega arith

-- The fills of the two sides make up the volume of all.
volumes_add :
    (xs : List FillData) → quantities (keep buys xs) + quantities (keep sells xs) ≡ quantities xs
unfolding buys sells
volumes_add [] = refl
volumes_add (x ∷ xs) =
    either_side (is_buy x.side) x (keep buys xs) (keep sells xs)
    ∙ ap (λ n. x.quantity + n) (volumes_add xs)

module _ (f : Floats) (fair : IsFair f) (show : ℕ → String) (parse : String → Option ℕ) where
  open f use {Float, literal}

  abbrev Points : ℕ → ℕ → Signal Float → Type 0
  Points a b s = Follows s.signal_type a b

  larger_share :
      (n d a b t : ℕ)
      → d < 2 * n
      → t ≡ a + b
      → 0 < t
      → is_over f (share_of f a t) (literal n d) ≡ true
      → b < a
  unfolding IsFair
  larger_share n d a b t h sum some_volume over = elim (Bool-cases (ltb b a)) [
    | inl less ↦ ltb→lt b a less
    | inr more ↦ cc (fair n d a t h some_volume (ground (arith, sum)))
  ]

  check_volumes-Follows :
      (d : Draw) (a b : ℕ) (market : String)
      → a + b < u64_bound
      → OnSome (Points a b) (check_volumes f show parse d a b market)
  unfolding check_volumes Follows create_signal
  check_volumes-Follows d a b market fits =
      let total : (a + b) % u64_bound ≡ a + b = omega arith in
      rw total (
        OnSome-choice (Points a b) (a + b == 0) _ _ _ _
          (λ present over. larger_share 6 10 a b _ (omega arith) refl (ground arith) over)
          (λ present over.
            larger_share 6 10 b a (a + b) (omega arith) (omega arith) (ground arith) over))

  check_walls-Follows :
      (d : Draw) (bid ask a b : ℕ) (market : String)
      → a + b < u64_bound
      → OnSome (Points a b) (check_walls f show parse d bid ask a b market)
  unfolding check_walls Follows create_signal
  check_walls-Follows d bid ask a b market fits =
      let total : (a + b) % u64_bound ≡ a + b = omega arith in
      let narrow = ltb (ask - bid) 10 in
      rw total (
        OnSome-choice (Points a b) ((a == 0) || (b == 0))
          (is_over f (share_of f a (a + b)) (literal 65 100) && narrow)
          (is_over f (share_of f b (a + b)) (literal 65 100) && narrow) _ _
          (λ present over.
            larger_share 65 100 a b _ (omega arith) refl (ground arith) (both_parts _ narrow over))
          (λ present over.
            larger_share 65 100 b a (a + b) (omega arith) (omega arith) (ground arith)
              (both_parts _ narrow over)))

  imbalance-Follows :
      (d : Draw) (m : MarketData) (market : String)
      → quantities (latest 20 m.fills) < u64_bound
      → OnSome
          (Points
            (quantities (keep buys (latest 20 m.fills)))
            (quantities (keep sells (latest 20 m.fills))))
          (check_order_flow_imbalance f show parse d m market)
  unfolding check_order_flow_imbalance traded_volume OnSome
  imbalance-Follows d m market fits =
      let sum = volumes_add (latest 20 m.fills) in
      let bought = quantities (keep buys (latest 20 m.fills)) in
      let sold = quantities (keep sells (latest 20 m.fills)) in
      let b_fits : bought % u64_bound ≡ bought = ground (arith, sum, fits) in
      let s_fits : sold % u64_bound ≡ sold = ground (arith, sum, fits) in
      elim (Bool-cases (ltb (length (latest 20 m.fills)) 10)) [
        | inl few ↦ rw few tt
        | inr enough ↦
            rw (enough, b_fits, s_fits)
              (check_volumes-Follows d bought sold market (ground (arith, sum, fits)))
      ]

  abbrev shares : List (ℕ × ℕ) → ℕ
  shares = sum_by (λ l. l.1)

  levels-Follows :
      (d : Draw) (bids asks : List (ℕ × ℕ)) (market : String)
      → shares bids + shares asks < u64_bound
      → OnSome (Points (shares bids) (shares asks)) (check_levels f show parse d bids asks market)
  unfolding level_total OnSome
  levels-Follows d [] asks market fits = tt
  levels-Follows d (b ∷ bids) [] market fits = tt
  levels-Follows d (b ∷ bids) (a ∷ asks) market fits =
      let b_fits : shares (b ∷ bids) % u64_bound ≡ shares (b ∷ bids) = ground (arith, fits) in
      let a_fits : shares (a ∷ asks) % u64_bound ≡ shares (a ∷ asks) = ground (arith, fits) in
      rw (b_fits, a_fits) (check_walls-Follows d b.0 a.0 _ _ market fits)

  -- If no sum of quantities overflows, a signal from the latest fills says to buy only if more was
  -- bought than sold in them, and to sell only if more was sold; a signal from the book says to buy
  -- only if the bids are larger than the asks, and to sell only if the asks are; none says to hold.
  -- The quotients of the floats are rounded such that half of a total is at most 1 / 2.
  pub signals_follow :
      (d : Draw) (m : MarketData) (market : String)
      → sum_by (λ x. x.quantity) (latest 20 m.fills) < u64_bound
      → sum_by (λ l. l.1) m.bids + sum_by (λ l. l.1) m.asks < u64_bound
      → OnSome
          (λ s.
            Follows s.signal_type
              (sum_by (λ x. x.quantity) (keep buys (latest 20 m.fills)))
              (sum_by (λ x. x.quantity) (keep sells (latest 20 m.fills))))
          (check_order_flow_imbalance f show parse d m market)
        × OnSome
            (λ s. Follows s.signal_type (sum_by (λ l. l.1) m.bids) (sum_by (λ l. l.1) m.asks))
            (check_support_resistance f show parse d m market)
  unfolding check_support_resistance
  signals_follow d m market fits book_fits =
      (imbalance-Follows d m market fits, levels-Follows d m.bids m.asks market book_fits)
