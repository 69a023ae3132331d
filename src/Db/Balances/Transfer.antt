-- ===== src/Db/Balances/Transfer.antt =====
-- The settlement of a fill between two users: `apply_fill_balances`, one transaction of two
-- updates.
use w16crypto_engine.Db.Balances.{apply_fill_balances, balance_fault, spend_row, release_row}
use w16crypto_engine.Db.Balances.Funds.{
  available_of, reserved_of, funds, row_available, row_reserved,
}
use w16crypto_engine.Db.Balances.Effects.{Moves, insert-Moves}
use w16crypto_engine.Common.Error.{Result, ok, err}
use w16crypto_engine.Db.State.{Db, BalanceRow}
use w16crypto_engine.Base.{
  ℕ, ℤ, pos, max_ℤ, ◌-ℤ◌, ◌≢◌, lookup, ◌≡◌, some, sym, ◌∙◌, arith, ◌+ℤ◌, ap, Option-cases, +ℤ_zero,
  inr, add_sub_cancel, inl, zero-+ℤ, lookup-insert_ne, insert, refl,
}

-- What is left of a reservation of `r` once `c` has been taken, down to 0.
abbrev pub drained : ℤ → ℤ → ℤ
drained r c = max_ℤ (pos 0) (r -ℤ c)

-- The settlement failed and changed nothing, or the cost went from the buyer's reservation to
-- what the seller can spend, and came off the seller's reservation as well.
abbrev pub Settles : {A : Type 0} → Db → ℕ → ℕ → ℤ → Result A × Db → Type 0
Settles db b s c (err _, db') = db' ≡ db
Settles db b s c (ok _, db') =
    (available_of b db' ≡ available_of b db)
    × (reserved_of b db' ≡ drained (reserved_of b db) c)
    × (available_of s db' ≡ available_of s db +ℤ c)
    × (reserved_of s db' ≡ drained (reserved_of s db) c)
    × (funds db'.balances
        ≡ funds db.balances
          +ℤ (drained (reserved_of b db) c -ℤ reserved_of b db)
          +ℤ (c +ℤ (drained (reserved_of s db) c -ℤ reserved_of s db)))
    × ((j : ℕ) → j ≢ b → j ≢ s → lookup j db'.balances ≡ lookup j db.balances)

-- Two moves, one after the other, of two users.
both_moved :
    (db db₁ db₂ : Db) (b s : ℕ) (c : ℤ)
    → b ≢ s
    → Moves {A = Unit {0}} db b
        (pos 0)
        (drained (reserved_of b db) c -ℤ reserved_of b db)
        (ok tt, db₁)
    → Moves {A = Unit {0}} db₁ s c (drained (reserved_of s db) c -ℤ reserved_of s db) (ok tt, db₂)
    → Settles {A = Unit {0}} db b s c (ok tt, db₂)
both_moved db db₁ db₂ b s c ne m n =
    let sb : lookup s db₁.balances ≡ lookup s db.balances = m.3 s (λ q. ne (sym q)) in
    let bb : lookup b db₂.balances ≡ lookup b db₁.balances = n.3 b ne in
    (
      ap row_available bb ∙ m.0 ∙ +ℤ_zero (available_of b db),
      ap row_reserved bb ∙ m.1 ∙ add_sub_cancel (reserved_of b db) (drained (reserved_of b db) c),
      n.0 ∙ ap (λ v. row_available v +ℤ c) sb,
      n.1
          ∙ ap (λ v. row_reserved v +ℤ (drained (reserved_of s db) c -ℤ reserved_of s db)) sb
          ∙ add_sub_cancel (reserved_of s db) (drained (reserved_of s db) c),
      rw (n.2, m.2, zero-+ℤ),
      λ j jb js. n.3 j js ∙ m.3 j jb,
    )

-- The two updates as one transaction that neither constraint stops.
settled :
    (b s : ℕ) (c : ℤ) (db : Db) (br sr : BalanceRow)
    → b ≢ s
    → lookup b db.balances ≡ some br
    → lookup s db.balances ≡ some sr
    → Settles {A = Unit {0}} db b s c (
      ok tt,
      record db { balances = insert s (release_row c sr) (insert b (spend_row c br) db.balances) },
    )
settled b s c db br sr ne eb es =
    let db₁ : Db = record db { balances = insert b (spend_row c br) db.balances } in
    both_moved db db₁
      (record db { balances = insert s (release_row c sr) (insert b (spend_row c br) db.balances) })
      b s c ne
      (insert-Moves db b (spend_row c br) br (pos 0)
        (drained (reserved_of b db) c -ℤ reserved_of b db) eb (sym (+ℤ_zero br.available))
        (rw eb (sym (add_sub_cancel br.reserved (drained br.reserved c)))))
      (insert-Moves db₁ s (release_row c sr) sr c (drained (reserved_of s db) c -ℤ reserved_of s db)
        (lookup-insert_ne s b (spend_row c br) db.balances (λ q. ne (sym q)) ∙ es) refl
        (rw es (sym (add_sub_cancel sr.reserved (drained sr.reserved c)))))

-- A fill between two users that have rows either changes nothing, or takes the cost from both
-- reservations, down to 0, adds it to what the seller can spend, and touches no third account.
pub apply_fill_balances-Settles :
    (b s : ℕ) (c : ℤ) (db : Db) (br sr : BalanceRow)
    → b ≢ s
    → lookup b db.balances ≡ some br
    → lookup s db.balances ≡ some sr
    → Settles db b s c (apply_fill_balances b s c db)
unfolding apply_fill_balances
apply_fill_balances-Settles b s c db br sr ne eb es =
    elim (Option-cases (balance_fault (spend_row c br))) [
      | inr (f, n) ↦ ground arith
      | inl m ↦ elim (Option-cases (balance_fault (release_row c sr))) [
        | inl n ↦ ground (
          arith,
          lookup-insert_ne s b (spend_row c br) db.balances (λ q. ne (sym q)),
          settled b s c db br sr ne eb es,
        )
        | inr (f, n) ↦
            ground (arith, lookup-insert_ne s b (spend_row c br) db.balances (λ q. ne (sym q)))
      ]
    ]
