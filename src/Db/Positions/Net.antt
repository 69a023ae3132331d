-- ===== src/Db/Positions/Net.antt =====
-- The changes of a market's positions, added up over all users.
use w16crypto_engine.Db.State.{PositionChange}
use w16crypto_engine.Base.{
  ℕ, ◌==◌, if◌then◌else◌, ℤ, pos, ◌+ℤ◌, int_laws, ◌≡◌, ap, ◌∙◌, List, [], ◌∷◌, ◌++◌,
}

abbrev pub market_delta : ℕ → PositionChange → ℤ
market_delta m c = if c.market_id == m then c.delta else pos 0

-- The sum of all users' positions in a market.
pub market_net : ℕ → List PositionChange → ℤ
market_net m [] = pos 0
market_net m (c ∷ cs) = market_delta m c +ℤ market_net m cs

pub market_net-append :
    (m : ℕ) (xs ys : List PositionChange)
    → market_net m (xs ++ ys) ≡ market_net m xs +ℤ market_net m ys
unfolding market_net
market_net-append m [] ys = omega int_laws
market_net-append m (x ∷ xs) ys = grind (int_laws, market_net-append m xs ys)

cancel_pair :
    (m : ℕ) (n : ℤ) (c d : PositionChange)
    → c.market_id ≡ d.market_id
    → c.delta +ℤ d.delta ≡ pos 0
    → n +ℤ (market_delta m c +ℤ pos 0) +ℤ (market_delta m d +ℤ pos 0) ≡ n
cancel_pair m n c d e z = grind int_laws

-- A change and its opposite leave the sum of the market's positions as it was.
pub market_net-pair :
    (m : ℕ) (cs : List PositionChange) (c d : PositionChange)
    → c.market_id ≡ d.market_id
    → c.delta +ℤ d.delta ≡ pos 0
    → market_net m ((cs ++ c ∷ []) ++ d ∷ []) ≡ market_net m cs
unfolding market_net
market_net-pair m cs c d e z =
    market_net-append m (cs ++ c ∷ []) (d ∷ [])
    ∙ ap (λ n. n +ℤ market_net m (d ∷ [])) (market_net-append m cs (c ∷ []))
    ∙ cancel_pair m (market_net m cs) c d e z
