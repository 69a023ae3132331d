-- ===== src/RateLimit.antt =====
-- api/crates/api-http/src/middleware/rate_limit.rs: `RateLimiter`. The key is the client's address,
-- here as a number; an instant is a number of milliseconds, `now` an argument.
pub mod Admission
use w16crypto_engine.Base.{
  ltb, leb, if◌then◌else◌, Table, lookup, insert, ℕ, ◌+◌, Bool, true, false, Option, none, some, [],
  ◌∷◌,
}

pub record Window : Type 0 where
  pub count : ℕ
  pub window_end : ℕ

pub record RateLimiter : Type 0 where
  pub windows : Table Window
  pub limit : ℕ
  pub period : ℕ

-- `RateLimiter::new`; the task that it spawns is `sweep`.
unfoldable pub new_limiter : ℕ → ℕ → RateLimiter
new_limiter limit period = record { windows = []; limit = limit; period = period }

abbrev live : ℕ → Table Window → Table Window
live now [] = []
live now ((key, w) ∷ t) =
    let rest = live now t in if ltb now w.window_end then (key, w) ∷ rest else rest

-- `windows.retain(|_, w| w.window_end > now)`
unfoldable pub sweep : ℕ → RateLimiter → RateLimiter
sweep now l = record l { windows = live now l.windows }

-- `entry(…).or_insert_with(…)`
abbrev pub entry : RateLimiter → ℕ → Option Window → Window
entry l now none = record { count = 0; window_end = now + l.period }
entry l now (some w) = w

-- What `check` does with the entry.
abbrev pub check_window : RateLimiter → ℕ → Window → Bool × Window
check_window l now w =
    if ltb w.window_end now
    then (true, record { count = 1; window_end = now + l.period })
    else if leb l.limit w.count
    then (false, w)
    else (true, record w { count = w.count + 1 })

unfoldable pub check : RateLimiter → ℕ → ℕ → Bool × RateLimiter
check l key now =
    let out = check_window l now (entry l now (lookup key l.windows)) in
    (out.0, record l { windows = insert key out.1 l.windows })

-- `auth_rate_limit` and `order_rate_limit` make these.
unfoldable pub auth_limiter : RateLimiter
unfolding new_limiter
auth_limiter = new_limiter 10 60000

unfoldable pub order_limiter : RateLimiter
unfolding new_limiter
order_limiter = new_limiter 60 1000
