-- ===== src/Monitor/Net.antt =====
-- The net quantity of a position, and the entries it is valued at.
use w16crypto_engine.Base.{ℤ, pos, ℕ, ◌≡◌, Option, none, some, arith, ◌<◌, List, [], ◌∷◌, refl}
use w16crypto_engine.Monitor.{PositionData, retain_entries}

-- The net quantity of a position; one that is not kept is zero.
abbrev pub net_of : Option PositionData → ℤ
net_of none = pos 0
net_of (some p) = p.net_quantity

retain_nothing : (es : List (ℕ × ℕ)) → retain_entries 0 es ≡ es
unfolding retain_entries
retain_nothing [] = refl
retain_nothing (e ∷ es) = ground (arith, retain_nothing es)

-- A sale of less than the oldest entry leaves every entry as it is: what a position is valued at is
-- not what is left of it.
pub retain_entries_part :
    (e : ℕ × ℕ) (es : List (ℕ × ℕ)) (n : ℕ) → n < e.1 → retain_entries n (e ∷ es) ≡ e ∷ es
unfolding retain_entries
retain_entries_part e es n h = ground (arith, h, retain_nothing es)
