-- ===== src/Blockchain.antt =====
-- api/crates/blockchain/src/transactions.rs: `TransactionManager`, which queues a transaction that
-- could not be sent and tries it again. The request is ethers' type and a parameter, as is the
-- hash of its JSON; whether a request can be sent is an argument. A time is in milliseconds, and a
-- round of the retry loop reads the clock once.
pub mod Retry
use w16crypto_engine.Common.Error.{Result, ok, err}
use w16crypto_engine.Base.{
  leb, if◌then◌else◌, Table, insert, length, u64_bound, ℕ, zero, suc, ◌+◌, ◌-◌, ◌*◌, ◌%◌, ◌^◌, min,
  Bool, true, false, Option, none, some, List, [], ◌∷◌,
}

pub record PendingTransaction (R : Type 0) : Type 0 where
  pub request : R
  pub submitted_at : ℕ
  pub retry_count : ℕ
  pub last_gas_bump_block : Option ℕ

pub record RetryConfig : Type 0 where
  pub max_retries : ℕ
  pub base_delay_ms : ℕ
  pub max_delay_ms : ℕ

-- `RetryConfig::default`, the only configuration there is.
abbrev pub retry_config : RetryConfig
retry_config = record { max_retries = 3; base_delay_ms = 1000; max_delay_ms = 30000 }

pub record TransactionManager (R : Type 0) : Type 0 where
  pub pending_transactions : Table (PendingTransaction R)
  pub next_nonce : ℕ

-- `TransactionManager::new`, once the task that asks for the first nonce has run.
unfoldable pub new_transactions : {R : Type 0} → Option ℕ → TransactionManager R
new_transactions none = record { pending_transactions = []; next_nonce = 0 }
new_transactions (some n) = record { pending_transactions = []; next_nonce = n }

unfoldable pub get_and_increment_nonce :
    {R : Type 0} → TransactionManager R → ℕ × TransactionManager R
get_and_increment_nonce m = (m.next_nonce, record m { next_nonce = (m.next_nonce + 1) % u64_bound })

unfoldable pub get_pending_count : {R : Type 0} → TransactionManager R → ℕ
get_pending_count m = length m.pending_transactions

abbrev pub queued : {R : Type 0} → R → ℕ → PendingTransaction R
queued r now = record {
  request = r;
  submitted_at = now;
  retry_count = 0;
  last_gas_bump_block = none;
}

-- `submit`, with what the provider answered.
unfoldable pub submit_transaction :
    {R X : Type 0}
    → (R → ℕ)
    → R
    → ℕ
    → Result X
    → TransactionManager R
    → Result X × TransactionManager R
submit_transaction hash r now (ok x) m = (ok x, m)
submit_transaction hash r now (err e) m = (
  err e,
  record m { pending_transactions = insert (hash r) (queued r now) m.pending_transactions },
)

abbrev pub should_gas_bump : ℕ → Option ℕ → Bool
should_gas_bump block none = leb 2 block
should_gas_bump block (some b) = leb (b + 2) block

-- The block is noted, but the request stays as it is.
abbrev pub bumped : {R : Type 0} → ℕ → PendingTransaction R → PendingTransaction R
bumped block p =
    if should_gas_bump block p.last_gas_bump_block
    then record p { last_gas_bump_block = some block }
    else p

unfoldable pub retry_delay : ℕ → ℕ
retry_delay n = min (1000 * 2 ^ n) 30000

-- What a round makes of a transaction: what is left of it, and how often it was sent.
pub record Retried (R : Type 0) : Type 0 where
  pub kept : Option (PendingTransaction R)
  pub attempts : ℕ

abbrev pub resend : {R : Type 0} → ℕ → Bool → PendingTransaction R → Retried R
resend now sent p = if sent then record { kept = none; attempts = 1 } else record {
  kept = some (record p { retry_count = p.retry_count + 1; submitted_at = now });
  attempts = 1;
}

unfoldable pub retry_one : {R : Type 0} → ℕ → ℕ → Bool → PendingTransaction R → Retried R
retry_one now block sent p =
    if leb 3 p.retry_count
    then record { kept = none; attempts = 0 }
    else if leb (retry_delay p.retry_count) (now - p.submitted_at)
    then resend now sent (bumped block p)
    else record { kept = some (bumped block p); attempts = 0 }

-- A round's time, the block's number (0 if the provider does not tell it), and by hash, which
-- transactions the provider takes.
pub record Round : Type 0 where
  pub now : ℕ
  pub block : ℕ
  pub takes : ℕ → Bool

abbrev pub and_kept :
    {R : Type 0}
    → ℕ
    → Option (PendingTransaction R)
    → Table (PendingTransaction R)
    → Table (PendingTransaction R)
and_kept h none t = t
and_kept h (some p) t = (h, p) ∷ t

-- One round of the loop, over the pending transactions: those that stay, and the attempts.
unfoldable pub retry_round :
    {R : Type 0} → Round → Table (PendingTransaction R) → Table (PendingTransaction R) × ℕ
retry_round r [] = ([], 0)
retry_round r (e ∷ t) =
    let one = retry_one r.now r.block (r.takes e.0) e.1 in
    let rest = retry_round r t in (and_kept e.0 one.kept rest.0, one.attempts + rest.1)

unfoldable pub retry_rounds :
    {R : Type 0} → List Round → Table (PendingTransaction R) → Table (PendingTransaction R) × ℕ
retry_rounds [] t = (t, 0)
retry_rounds (r ∷ rs) t =
    let first = retry_round r t in let rest = retry_rounds rs first.0 in (rest.0, first.1 + rest.1)
