-- ===== src/Db/Positions.antt =====
-- api/crates/db/src/positions.rs: positions as the sums of their recorded changes.
pub mod Net
use w16crypto_engine.Common.Error.{ok, err, AppError, Fault, Result}
use w16crypto_engine.Db.State.{Call, PositionChange, Db}
use w16crypto_engine.Base.{
  ℕ, ◌==◌, if◌then◌else◌, keep, ℤ, pos, ◌+ℤ◌, ltb_ℤ, fits_i64, contains, Bool, not, ◌&&◌, ◌||◌,
  List, [], ◌∷◌, ◌++◌,
}

unfoldable pub record_position_change : ℕ → ℕ → ℕ → ℤ → Call Unit
record_position_change fill_id u m delta db =
    if contains fill_id db.fills && contains u db.users && contains m db.markets
    then (
      ok tt,
      record db {
        position_changes =
            db.position_changes
            ++ (record { fill_id = fill_id; user_id = u; market_id = m; delta = delta }) ∷ [];
      },
    )
    else (err (AppError.database Fault.foreign_key), db)

-- The share of one change in `u`'s position in `m`.
abbrev pub delta_in : ℕ → ℕ → PositionChange → ℤ
delta_in u m c = if c.user_id == u && c.market_id == m then c.delta else pos 0

-- SELECT SUM(delta) … WHERE user_id = u AND market_id = m; no rows sum to NULL, which is read as 0.
unfoldable pub net_position : ℕ → ℕ → List PositionChange → ℤ
net_position u m [] = pos 0
net_position u m (c ∷ cs) = delta_in u m c +ℤ net_position u m cs

-- `u`'s changes in `m`.
unfoldable pub changes_in : ℕ → ℕ → List PositionChange → List PositionChange
changes_in u m cs = keep (λ c. c.user_id == u && c.market_id == m) cs

-- PostgreSQL's SUM of a BIGINT is NUMERIC, which sqlx does not decode as `i64`. The SUM of no rows is
-- NULL, which it does decode, as `None`.
abbrev pub decode_sum : List PositionChange → Db → Result ℤ × Db
decode_sum [] db = (ok (pos 0), db)
decode_sum (c ∷ cs) db = (err (AppError.database Fault.not_decoded), db)

unfoldable pub get_position_for_user : ℕ → ℕ → Call ℤ
unfolding changes_in
get_position_for_user u m db = decode_sum (changes_in u m db.position_changes) db

-- The columns of `PositionRow` that the query selects.
pub record PositionRow : Type 0 where
  pub user_id : ℕ
  pub market_id : ℕ
  pub net_quantity : ℤ

-- The users with a change in the market, each once, in the order of their first change.
unfoldable pub traders : ℕ → List PositionChange → List ℕ
traders m [] = []
traders m (c ∷ cs) =
    let rest = traders m cs in
    if c.market_id == m then c.user_id ∷ keep (λ u. not (u == c.user_id)) rest else rest

abbrev is_nonzero : ℤ → Bool
is_nonzero a = ltb_ℤ a (pos 0) || ltb_ℤ (pos 0) a

unfoldable pub position_rows : ℕ → List PositionChange → List ℕ → List PositionRow
unfolding net_position
position_rows m cs [] = []
position_rows m cs (u ∷ us) =
    let net = net_position u m cs in
    let rest = position_rows m cs us in
    if is_nonzero net
    then (record { user_id = u; market_id = m; net_quantity = net }) ∷ rest
    else rest

-- `PositionRow` has eight columns and the query selects three, so no row is decoded.
abbrev pub decode_positions : List PositionRow → Db → Result (List PositionRow) × Db
decode_positions [] db = (ok [], db)
decode_positions (r ∷ rs) db = (err (AppError.database Fault.not_decoded), db)

-- SELECT user_id, market_id, SUM(delta) … GROUP BY user_id, market_id HAVING SUM(delta) != 0
unfoldable pub get_user_positions : ℕ → Call (List PositionRow)
unfolding position_rows traders
get_user_positions m db =
    decode_positions (position_rows m db.position_changes (traders m db.position_changes)) db
