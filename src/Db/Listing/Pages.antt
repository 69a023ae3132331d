-- ===== src/Db/Listing/Pages.antt =====
-- Each query that lists rows answers with the first page of the rows that it asks for.
use mathlib.Core.List.{Perm}
use mathlib.Core.List.Perm
use w16crypto_engine.Db.Listing.{
  order_by, put_row, list_fills, list_markets, list_user_orders, list_withdrawals, MarketStatus,
  WithdrawalStatus, Db, Fill, ok, Market, if_asked, is_market_status, Order, WithdrawalRow,
  is_wanted, select, Result, decode_fills, err,
}
use w16crypto_engine.Base.{
  length, keep, ℕ, ◌≤◌, min, ◌≡◌, Bool, List, [], ◌∷◌, ◌++◌, arith, leb, ◌==◌, leb→le, Bool-cases,
  take, drop, take-drop, length-take, pos, refl, sym, ap, subst, ◌∙◌, inl, inr, ◌&&◌, Option, suc,
  ltb_ℤ, Table, false, ℤ,
}

unfoldable IsAtMost : {A : Type 0} → (A → ℕ) → ℕ → List A → Type 0
IsAtMost column n [] = Unit
IsAtMost column n (y ∷ ys) = (column y ≤ n) × IsAtMost column n ys

-- No row has a smaller column than one behind it.
unfoldable pub IsDescending : {A : Type 0} → (A → ℕ) → List A → Type 0
unfolding IsAtMost
IsDescending column [] = Unit
IsDescending column (x ∷ xs) = IsAtMost column (column x) xs × IsDescending column xs

-- The rows are the first `n` of all that pass the test, or all of them, in descending order.
unfoldable pub IsPage : {A : Type 0} → (A → Bool) → (A → ℕ) → ℕ → List A → List A → Type 0
IsPage {A} test column n table rows =
    (length rows ≡ min n (length (keep test table)))
    × ((rest : List A) × IsDescending column (rows ++ rest) × Perm (rows ++ rest) (keep test table))

put_row-Perm :
    {A : Type 0} (column : A → ℕ) (x : A) (ys : List A) → Perm (put_row column x ys) (x ∷ ys)
unfolding put_row
put_row-Perm column x [] = Perm.rfl
put_row-Perm column x (y ∷ ys) = elim (Bool-cases (leb (column y) (column x))) [
  | inl first ↦ rw first Perm.rfl
  | inr later ↦ rw later (Perm.trans (Perm.cons y (put_row-Perm column x ys)) (Perm.swap x y ys))
]

order_by-Perm : {A : Type 0} (column : A → ℕ) (xs : List A) → Perm (order_by column xs) xs
unfolding order_by
order_by-Perm column [] = Perm.nil
order_by-Perm column (x ∷ xs) =
    Perm.trans (put_row-Perm column x (order_by column xs)) (Perm.cons x (order_by-Perm column xs))

IsAtMost-more :
    {A : Type 0} (column : A → ℕ) (n m : ℕ) (ys : List A)
    → n ≤ m
    → IsAtMost column n ys
    → IsAtMost column m ys
unfolding IsAtMost
IsAtMost-more column n m [] le h = tt
IsAtMost-more column n m (y ∷ ys) le (small, h) = (omega arith, IsAtMost-more column n m ys le h)

put_row-IsAtMost :
    {A : Type 0} (column : A → ℕ) (n : ℕ) (x : A) (ys : List A)
    → column x ≤ n
    → IsAtMost column n ys
    → IsAtMost column n (put_row column x ys)
unfolding put_row IsAtMost
put_row-IsAtMost column n x [] le h = (le, tt)
put_row-IsAtMost column n x (y ∷ ys) le (small, h) = elim (Bool-cases (leb (column y) (column x))) [
  | inl first ↦ rw first (le, (small, h))
  | inr later ↦ rw later (small, put_row-IsAtMost column n x ys le h)
]

put_row-IsDescending :
    {A : Type 0} (column : A → ℕ) (x : A) (ys : List A)
    → IsDescending column ys
    → IsDescending column (put_row column x ys)
unfolding put_row IsDescending IsAtMost
put_row-IsDescending column x [] h = (tt, tt)
put_row-IsDescending column x (y ∷ ys) (below, h) = elim (Bool-cases (leb (column y) (column x))) [
  | inl first ↦
      let le : column y ≤ column x = leb→le _ _ first in
      rw first ((le, IsAtMost-more column (column y) (column x) ys le below), (below, h))
  | inr later ↦ rw later (
    put_row-IsAtMost column (column y) x ys (ground (arith, later)) below,
    put_row-IsDescending column x ys h,
  )
]

order_by-IsDescending :
    {A : Type 0} (column : A → ℕ) (xs : List A) → IsDescending column (order_by column xs)
unfolding order_by IsDescending
order_by-IsDescending column [] = tt
order_by-IsDescending column (x ∷ xs) =
    put_row-IsDescending column x (order_by column xs) (order_by-IsDescending column xs)

put_row-length :
    {A : Type 0} (column : A → ℕ) (x : A) (ys : List A)
    → length (put_row column x ys) ≡ suc (length ys)
unfolding put_row
put_row-length column x [] = refl
put_row-length column x (y ∷ ys) = elim (Bool-cases (leb (column y) (column x))) [
  | inl first ↦ rw first refl
  | inr later ↦ rw later (ap suc (put_row-length column x ys))
]

order_by-length :
    {A : Type 0} (column : A → ℕ) (xs : List A) → length (order_by column xs) ≡ length xs
unfolding order_by
order_by-length column [] = refl
order_by-length column (x ∷ xs) =
    put_row-length column x (order_by column xs) ∙ ap suc (order_by-length column xs)

take-IsPage :
    {A : Type 0} (test : A → Bool) (column : A → ℕ) (n : ℕ) (table : List A)
    → IsPage test column n table (take n (order_by column (keep test table)))
unfolding IsPage
take-IsPage test column n table =
    let rows = order_by column (keep test table) in
    let all = order_by-Perm column (keep test table) in
    let joined = take-drop n rows in
    (
      length-take n rows ∙ ap (λ k. min n k) (order_by-length column (keep test table)),
      (
        drop n rows,
        subst (IsDescending column) (sym joined) (order_by-IsDescending column (keep test table)),
        subst (λ xs. Perm xs (keep test table)) (sym joined) all,
      ),
    )

not_negative : (n : ℕ) → ltb_ℤ (pos n) (pos 0) ≡ false
not_negative n = ground arith

select-IsPage :
    {V : Type 0} (table : Db → Table V) (test : ℕ × V → Bool) (column : ℕ × V → ℕ) (n : ℕ) (db : Db)
    → (rows : List (ℕ × V)) × (select table test column (pos n) db ≡ (ok rows, db))
      × IsPage test column n (table db) rows
select-IsPage table test column n db = (
  take n (order_by column (keep test (table db))),
  rw (not_negative n) refl,
  take-IsPage test column n (table db),
)

-- With a limit that is not negative, each of the queries that list markets, a user's orders and
-- withdrawals leaves the tables alone and answers with the first page of the rows that it asks
-- for: as many as the limit allows, in descending order of its column, with none left out that has
-- a larger one.
pub lists-IsPage :
    (user n : ℕ) (of_market of_user : Option ℕ) (m_status : Option MarketStatus)
    (w_status : Option WithdrawalStatus) (created_at : ℕ → ℕ) (db : Db)
    → ((rows : List (ℕ × Market)) × (list_markets m_status db ≡ (ok rows, db))
        × IsPage
            (λ r. if_asked (λ s. is_market_status r.1.status s) m_status)
            (λ r. r.1.created_at)
            200
            db.markets
            rows)
      × ((rows : List (ℕ × Order)) × (list_user_orders user of_market (pos n) db ≡ (ok rows, db))
          × IsPage
              (λ r. (r.1.user_id == user) && if_asked (λ m. r.1.market_id == m) of_market)
              (λ r. r.1.created_at)
              n
              db.orders
              rows)
      × ((rows : List (ℕ × WithdrawalRow)) × (list_withdrawals created_at of_user w_status
              (pos n)
              db
            ≡ (ok rows, db))
          × IsPage (is_wanted of_user w_status) (λ r. created_at r.0) n db.withdrawals rows)
unfolding list_markets list_user_orders list_withdrawals
lists-IsPage user n of_market of_user m_status w_status created_at db = (
  select-IsPage (λ d. d.markets) _ _ 200 db,
  select-IsPage (λ d. d.orders) _ _ n db,
  select-IsPage (λ d. d.withdrawals) _ _ n db,
)

fills_decoded :
    (x : Result (List (ℕ × Fill)) × Db) (rows : List (ℕ × Fill))
    → (decode_fills x).0 ≡ ok rows
    → ok [] ≡ ok rows
fills_decoded (err e, db) rows h = cc
fills_decoded (ok [], db) rows h = h
fills_decoded (ok (r ∷ rs), db) rows h = cc

-- A list of fills that is answered is empty.
list_fills-empty :
    (market : ℕ) (limit : ℤ) (db : Db) (rows : List (ℕ × Fill))
    → (list_fills market limit db).0 ≡ ok rows
    → rows ≡ []
unfolding list_fills
list_fills-empty market limit db rows h = let same = fills_decoded _ rows h in cc
