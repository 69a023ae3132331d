-- ===== src/Tests/Queues.antt =====
-- The retries of a transaction, a monitored position and a pair of markets.
use w16crypto_engine.Common.Floats.{Floats}
use w16crypto_engine.Base.{
  ◌==◌, length, pos, Table, ℕ, ◌*◌, ◌≤◌, ◌≡◌, List, [], ◌∷◌, arith, ltb, ◌+◌, ◌-◌, ◌/◌, min, max,
}
use w16crypto_engine.Blockchain.{PendingTransaction, Round, queued, retry_rounds}
use w16crypto_engine.Blockchain.Retry.{AreQueuedBy, AreSpaced, retry_rounds-drain}
use w16crypto_engine.Monitor.{Monitored, update_position}

-- A queue of two, of which the provider takes the second.
abbrev queue : Table (PendingTransaction ℕ)
queue = (1, queued 70 5) ∷ (2, queued 71 6) ∷ []

abbrev round_at : ℕ → Round
round_at now = record { now = now; block = 9; takes = λ h. h == 2 }

queue_early : AreQueuedBy 10 queue
unfolding AreQueuedBy
queue_early = (ground arith, (ground arith, tt))

abbrev rounds : List Round
rounds = round_at 40000 ∷ round_at 80000 ∷ round_at 120000 ∷ round_at 160000 ∷ []

rounds_spaced : AreSpaced 10 rounds
unfolding AreSpaced
rounds_spaced = (ground arith, (ground arith, (ground arith, (ground arith, tt))))

retry_rounds-drain_example :
    ((retry_rounds rounds queue).0 ≡ []) × ((retry_rounds rounds queue).1 ≤ 3 * length queue)
retry_rounds-drain_example =
    retry_rounds-drain 10 (round_at 40000) (round_at 80000) (round_at 120000) (round_at 160000)
      queue queue_early rounds_spaced

abbrev held : Monitored
held = update_position (pos 0) 1 7 5000 100 (pos 1) []

-- Floats that are natural numbers.
abbrev pub naturals : Floats
naturals = record {
  Float = ℕ;
  literal = λ n m. n / m;
  of_nat = λ n. n;
  add = λ a b. a + b;
  sub = λ a b. a - b;
  mul = λ a b. a * b;
  div = λ a b. a / b;
  neg = λ a. a;
  abs = λ a. a;
  sqrt = λ a. a;
  clamp = λ a lo hi. min (max a lo) hi;
  is_below = ltb;
  is_equal = λ a b. a == b;
  as_i32 = pos;
  as_u32 = λ a. a;
  as_u64 = λ a. a;
}
