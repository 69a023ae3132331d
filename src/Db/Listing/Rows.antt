-- ===== src/Db/Listing/Rows.antt =====
-- What the test of a query says of every row that it answers with.
use w16crypto_engine.Db.Listing.{order_by, put_row, select, ok}
use w16crypto_engine.Db.State.{Db}
use w16crypto_engine.Base.{
  leb, Bool-cases, length, take, keep, ForAll, length-take, ℤ, pos, pos_part, ltb_ℤ, Table, ℕ, zero,
  suc, ◌≤◌, ◌≡◌, subst, inl, inr, Bool, true, List, [], ◌∷◌, arith,
}

put_row-ForAll :
    {A : Type 0} (P : A → Type 0) (column : A → ℕ) (x : A) (ys : List A)
    → P x
    → ForAll P ys
    → ForAll P (put_row column x ys)
unfolding put_row ForAll
put_row-ForAll P column x [] h rest = (h, tt)
put_row-ForAll P column x (y ∷ ys) h (first, rest) = elim (Bool-cases (leb (column y) (column x))) [
  | inl before ↦ rw before (h, (first, rest))
  | inr after ↦ rw after (first, put_row-ForAll P column x ys h rest)
]

order_by-ForAll :
    {A : Type 0} (P : A → Type 0) (column : A → ℕ) (xs : List A)
    → ForAll P xs
    → ForAll P (order_by column xs)
unfolding order_by ForAll
order_by-ForAll P column [] h = tt
order_by-ForAll P column (x ∷ xs) (first, rest) =
    put_row-ForAll P column x _ first (order_by-ForAll P column xs rest)

take-ForAll :
    {A : Type 0} (P : A → Type 0) (n : ℕ) (xs : List A) → ForAll P xs → ForAll P (take n xs)
unfolding ForAll
take-ForAll P zero xs h = tt
take-ForAll P (suc n) [] h = tt
take-ForAll P (suc n) (x ∷ xs) (first, rest) = (first, take-ForAll P n xs rest)

keep-ForAll :
    {A : Type 0} (P : A → Type 0) (test : A → Bool) (xs : List A)
    → ((a : A) → test a ≡ true → P a)
    → ForAll P (keep test xs)
unfolding ForAll
keep-ForAll P test [] h = tt
keep-ForAll P test (x ∷ xs) h = elim (Bool-cases (test x)) [
  | inl passes ↦ rw passes (h x passes, keep-ForAll P test xs h)
  | inr fails ↦ rw fails (keep-ForAll P test xs h)
]

-- Each row that a query answers with passes its test, and there are no more than the limit.
pub select-ForAll :
    {V : Type 0} (P : ℕ × V → Type 0) (table : Db → Table V) (test : ℕ × V → Bool)
    (column : ℕ × V → ℕ) (limit : ℤ) (db : Db) (rows : List (ℕ × V))
    → ((r : ℕ × V) → test r ≡ true → P r)
    → (select table test column limit db).0 ≡ ok rows
    → ForAll P rows × (length rows ≤ pos_part limit)
select-ForAll P table test column limit db rows h found = elim (Bool-cases (ltb_ℤ limit (pos 0))) [
  | inl negative ↦ cc (rw negative at found)
  | inr fine ↦
      let page = take (pos_part limit) (order_by column (keep test (table db))) in
      let same : page ≡ rows = cc (rw fine at found) in
      let each : ForAll P page =
        take-ForAll P _ _ (order_by-ForAll P column _ (keep-ForAll P test (table db) h)) in
      subst (λ xs. ForAll P xs × (length xs ≤ pos_part limit)) same
        (each, omega (arith, length-take (pos_part limit) (order_by column (keep test (table db)))))
]
