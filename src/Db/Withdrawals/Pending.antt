-- ===== src/Db/Withdrawals/Pending.antt =====
-- The amounts that pending withdrawals hold, user by user.
use w16crypto_engine.Db.Withdrawals.{is_pending}
use w16crypto_engine.Db.State.{WithdrawalRow}
use w16crypto_engine.Base.{
  ℕ, ℤ, pos, Table, ◌≤ℤ◌, if◌then◌else◌, lookup, ◌==◌, ◌≡◌, arith, insert, some, ◌&&◌, ◌∷◌,
  int_laws, [], total,
}

-- What one withdrawal holds of `u`'s money.
unfoldable pub held_by : ℕ → WithdrawalRow → ℤ
held_by u w = if u == w.user_id && is_pending w.status then w.amount else pos 0

-- What all pending withdrawals hold of `u`'s money.
abbrev pub pending_of : ℕ → Table WithdrawalRow → ℤ
pending_of u = total (held_by u)

-- No amount is negative.
unfoldable pub AreAmounts : Table WithdrawalRow → Type 0
AreAmounts [] = Unit
AreAmounts ((_, w) ∷ t) = (pos 0 ≤ℤ w.amount) × AreAmounts t

pub insert-AreAmounts :
    (id : ℕ) (w : WithdrawalRow) (t : Table WithdrawalRow)
    → pos 0 ≤ℤ w.amount
    → AreAmounts t
    → AreAmounts (insert id w t)
unfolding AreAmounts
insert-AreAmounts id w [] p h = (p, tt)
insert-AreAmounts id w (e ∷ t) p h = ground (arith, insert-AreAmounts id w t p h.1)

pub pending_of_nonneg : (u : ℕ) (t : Table WithdrawalRow) → AreAmounts t → pos 0 ≤ℤ pending_of u t
unfolding AreAmounts total held_by
pending_of_nonneg u [] h = omega arith
pending_of_nonneg u (e ∷ t) h = grind (int_laws, pending_of_nonneg u t h.1)

-- A pending withdrawal holds no more than all of its user's do.
pub held_by-le-pending_of :
    (u id : ℕ) (w : WithdrawalRow) (t : Table WithdrawalRow)
    → AreAmounts t
    → lookup id t ≡ some w
    → held_by u w ≤ℤ pending_of u t
unfolding AreAmounts total held_by
held_by-le-pending_of u id w [] h e = cc
held_by-le-pending_of u id w (x ∷ t) h e =
    grind (int_laws, pending_of_nonneg u t h.1, held_by-le-pending_of u id w t h.1)

pub lookup-AreAmounts :
    (id : ℕ) (w : WithdrawalRow) (t : Table WithdrawalRow)
    → AreAmounts t
    → lookup id t ≡ some w
    → pos 0 ≤ℤ w.amount
unfolding AreAmounts
lookup-AreAmounts id w [] h e = cc
lookup-AreAmounts id w (x ∷ t) h e = ground (arith, lookup-AreAmounts id w t h.1)
