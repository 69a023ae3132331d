-- ===== src/Base/Tables.antt =====
-- A table keyed by its primary key, in the order of insertion.
use Prim.Native.Nat.{ℕ}
use mathlib.Core.Path.{◌≡◌, refl, sym, subst}
use mathlib.Core.Logic.{◌≢◌}
use mathlib.Core.Bool.{Bool, true, false}
use mathlib.Core.Option.{Option, none, some}
use mathlib.Core.List.{List, [], ◌∷◌}
use native.Mathlib.Omega.{arith}
use w16crypto_engine.Base.Tests.{◌==◌, if◌then◌else◌}

abbrev pub Table {ℓ} : Type ℓ → Type ℓ
Table V = List (ℕ × V)

module _ {ℓ} {V : Type ℓ} where
  -- SELECT … WHERE key = k
  abbrev pub lookup : ℕ → Table V → Option V
  lookup k [] = none
  lookup k ((j, v) ∷ t) = if k == j then some v else lookup k t

  abbrev pub contains : ℕ → Table V → Bool
  contains k t = elim (lookup k t) [ none ↦ false | some _ ↦ true ]

  -- The row of `k` is written: replaced where it stands, or added at the end.
  abbrev pub insert : ℕ → V → Table V → Table V
  insert k v [] = (k, v) ∷ []
  insert k v (e ∷ t) = if k == e.0 then (k, v) ∷ t else e ∷ insert k v t

  -- DELETE … WHERE key = k
  abbrev pub erase : ℕ → Table V → Table V
  erase k [] = []
  erase k (e ∷ t) = if k == e.0 then t else e ∷ erase k t

  pub lookup-insert :
      (j k : ℕ) (v : V) (t : Table V)
      → lookup j (insert k v t) ≡ (if j == k then some v else lookup j t)
  lookup-insert j k v [] = refl
  lookup-insert j k v (e ∷ t) = ground (arith, lookup-insert j k v t)

  -- What holds of the value, if there is one.
  unfoldable pub OnSome {κ} : (V → Type κ) → Option V → Type κ
  OnSome P none = Unit
  OnSome P (some v) = P v

  pub none-OnSome {κ} : (P : V → Type κ) → OnSome P none
  unfolding OnSome
  none-OnSome P = tt

  pub either-OnSome {κ} :
      (P : V → Type κ) (b : Bool) (v : V) (o : Option V)
      → P v
      → OnSome P o
      → OnSome P (if b then some v else o)
  unfolding OnSome
  either-OnSome P true v o h old = h
  either-OnSome P false v o h old = old

  pub unless-OnSome {κ} :
      (P : V → Type κ) (b : Bool) (o : Option V) → OnSome P o → OnSome P (if b then none else o)
  unfolding OnSome
  unless-OnSome P true o h = tt
  unless-OnSome P false o h = h

  -- What holds of a row still does when a row is written of which it holds too.
  pub insert-OnSome {κ} :
      (P : V → Type κ) (j k : ℕ) (v : V) (t : Table V)
      → P v
      → OnSome P (lookup j t)
      → OnSome P (lookup j (insert k v t))
  insert-OnSome P j k v t h old =
      subst (OnSome P) (sym (lookup-insert j k v t)) (either-OnSome P (j == k) v _ h old)

  pub lookup-insert_self : (k : ℕ) (v : V) (t : Table V) → lookup k (insert k v t) ≡ some v
  lookup-insert_self k v t = ground (arith, lookup-insert k k v t)

  pub lookup-insert_ne :
      (j k : ℕ) (v : V) (t : Table V) → j ≢ k → lookup j (insert k v t) ≡ lookup j t
  lookup-insert_ne j k v t h = ground (arith, lookup-insert j k v t)
