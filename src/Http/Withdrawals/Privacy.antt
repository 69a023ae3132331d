-- ===== src/Http/Withdrawals/Privacy.antt =====
-- A user sees no withdrawals but the user's own.
use w16crypto_engine.Db.Listing.Rows.{select-ForAll}
use w16crypto_engine.Common.Error.{Result, ok, err}
use w16crypto_engine.Db.Listing.{is_wanted}
use w16crypto_engine.Db.Listing.{list_withdrawals}
use w16crypto_engine.Http.Withdrawals.{
  list_mine, page_limit, list_withdrawals, ListWithdrawalsQuery, status_of,
}
use w16crypto_engine.Db.State.{WithdrawalStatus, WithdrawalRow, Db, continue}
use w16crypto_engine.Http.{Web, AuthContext, Response, respond}
use w16crypto_engine.Base.{
  Option-cases, length, ForAll, ℤ, pos, pos_part, ℕ, ◌≤◌, ◌≡◌, inl, inr, true, Option, none, some,
  List, arith,
}

at_most : (l : Option ℤ) → pos_part (page_limit l (pos 50) (pos 200)) ≤ 200
at_most none = ground arith
at_most (some l) = ground arith

own_rows :
    (u : ℕ) (s : Option WithdrawalStatus) (r : ℕ × WithdrawalRow)
    → is_wanted (some u) s r ≡ true
    → r.1.user_id ≡ u
own_rows u s r h = ground (arith, h)

answered :
    (x : Result (List (ℕ × WithdrawalRow)) × Db) (resp : Response (List (ℕ × WithdrawalRow)))
    → (continue (λ rows. respond 200 rows) x).0 ≡ ok resp
    → x.0 ≡ ok resp.body
answered (ok rows, db) resp h = cc
answered (err e, db) resp h = cc

module _ (w : Web) where
  -- Whenever `list_mine` answers with rows, the caller's identifier is a UUID, every row is a withdrawal
  -- of that user, and there are at most 200, whatever status and limit the query asks for.
  pub list_mine-own :
      (created_at : ℕ → ℕ) (a : AuthContext) (q : ListWithdrawalsQuery) (db : Db)
      (resp : Response (List (ℕ × WithdrawalRow)))
      → (list_mine w created_at a q db).0 ≡ ok resp
      → (u : ℕ) × (w.parse_uuid a.user_id ≡ some u)
        × ForAll (λ r. r.1.user_id ≡ u) resp.body
        × (length resp.body ≤ 200)
  unfolding list_mine list_withdrawals
  list_mine-own created_at a q db resp found = elim (Option-cases (w.parse_uuid a.user_id)) [
    | inl none_known ↦ cc (rw none_known at found)
    | inr (u, known) ↦
        let limit = page_limit q.limit (pos 50) (pos 200) in
        let listed = answered _ resp (rw known at found) in
        let (own, few) =
          select-ForAll (λ r. r.1.user_id ≡ u) (λ d. d.withdrawals)
            (is_wanted (some u) (status_of q.status)) (λ r. created_at r.0) limit db resp.body
            (own_rows u (status_of q.status)) listed in
        (u, known, own, omega (arith, few, at_most q.limit))
  ]
