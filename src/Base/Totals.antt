-- ===== src/Base/Totals.antt =====
-- The total of an integer column of a table, and how the write of one row changes it.
use mathlib.Core.Path.{◌≡◌}
use mathlib.Core.Option.{none, some}
use mathlib.Core.List.{[], ◌∷◌}
use Prim.Native.Nat.{ℕ}
use w16crypto_engine.Base.Int.{ℤ, pos, ◌+ℤ◌, int_laws}
use w16crypto_engine.Base.Tables.{Table, lookup, insert}

module _ {ℓ} {V : Type ℓ} (column : V → ℤ) where
  unfoldable pub total : Table V → ℤ
  total [] = pos 0
  total ((_, v) ∷ t) = column v +ℤ total t

  pub total-insert :
      (k : ℕ) (v old : V) (t : Table V)
      → lookup k t ≡ some old
      → total (insert k v t) +ℤ column old ≡ total t +ℤ column v
  unfolding total
  total-insert k v old [] h = cc
  total-insert k v old (e ∷ t) h = grind (int_laws, total-insert k v old t)

  pub total-insert_new :
      (k : ℕ) (v : V) (t : Table V) → lookup k t ≡ none → total (insert k v t) ≡ total t +ℤ column v
  unfolding total
  total-insert_new k v [] h = omega int_laws
  total-insert_new k v (e ∷ t) h = grind (int_laws, total-insert_new k v t)
