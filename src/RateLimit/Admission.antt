-- ===== src/RateLimit/Admission.antt =====
-- How many requests the limiter admits.
use w16crypto_engine.RateLimit.{check, RateLimiter, Window}
use w16crypto_engine.Base.{
  leb, if◌then◌else◌, Bool-cases, lookup, lookup-insert_self, lookup-insert_ne, ℕ, suc, ◌+◌, ◌-◌,
  ◌≤◌, min, ◌≡◌, ◌≢◌, inl, inr, not, some, List, [], ◌∷◌, arith,
}

-- The number of requests of a client that are admitted, at the given instants.
pub admitted : RateLimiter → ℕ → List ℕ → ℕ
admitted l key [] = 0
admitted l key (now ∷ times) =
    (if (check l key now).0 then 1 else 0) + admitted (check l key now).1 key times

unfoldable pub AreWithin : ℕ → List ℕ → Type 0
AreWithin end [] = Unit
AreWithin end (t ∷ ts) = (t ≤ end) × AreWithin end ts

pub count_of : List ℕ → ℕ
count_of [] = 0
count_of (t ∷ ts) = suc (count_of ts)

check_step :
    (l : RateLimiter) (key now : ℕ) (w : Window)
    → lookup key l.windows ≡ some w
    → now ≤ w.window_end
    → let next = (if leb l.limit w.count then w else record w { count = w.count + 1 }) in
      ((check l key now).0 ≡ not (leb l.limit w.count))
      × (lookup key (check l key now).1.windows ≡ some next)
      × ((check l key now).1.limit ≡ l.limit)
unfolding check
check_step l key now w h t = elim (Bool-cases (leb l.limit w.count)) [
  | inl full ↦ ground (arith, lookup-insert_self key w l.windows)
  | inr room ↦ ground (arith, lookup-insert_self key (record w { count = w.count + 1 }) l.windows)
]

-- Of a client's requests until the end of its window, in whatever order they come, exactly as
-- many are admitted as there was room for, and no more.
pub admitted-window :
    (times : List ℕ) (l : RateLimiter) (key : ℕ) (w : Window)
    → lookup key l.windows ≡ some w
    → AreWithin w.window_end times
    → admitted l key times ≡ min (count_of times) (l.limit - w.count)
unfolding admitted AreWithin count_of
admitted-window [] l key w h t = ground arith
admitted-window (now ∷ times) l key w h t =
    let (answer, window, limit) = check_step l key now w h t.0 in
    elim (Bool-cases (leb l.limit w.count)) [
      | inl full ↦
          let rest = admitted-window times (check l key now).1 key w (ground (arith, window)) t.1 in
          ground (arith, answer, limit, rest)
      | inr room ↦
          let rest =
            admitted-window times (check l key now).1 key (record w { count = w.count + 1 })
              (ground (arith, window)) t.1 in
          ground (arith, answer, limit, rest)
    ]

-- A client's requests leave the other clients' windows as they are.
pub check-other :
    (l : RateLimiter) (key other now : ℕ)
    → other ≢ key
    → lookup other (check l key now).1.windows ≡ lookup other l.windows
unfolding check
check-other l key other now h = lookup-insert_ne other key _ l.windows h
