-- ===== src/Polymarket/Budget.antt =====
-- How many orders of a client may fail before its circuit breaker keeps all others back.
use w16crypto_engine.Polymarket.Requests.{order_request, auth_headers}
use w16crypto_engine.Polymarket.Placing.{create_order, Placed, after_result}
use w16crypto_engine.Common.Error.{Result, ok, err, AppError, Part}
use w16crypto_engine.Orders.{CreateOrderRequest}
use w16crypto_engine.Polymarket.{
  Decoded, Reply, PolymarketClient, check_circuit_breaker, with_breaker, result_of, succeeded,
  failed, with_circuit_breaker,
}
use w16crypto_engine.Common.Breaker.{
  CircuitBreaker, CircuitState, allow_call, record_success, record_failure, new_breaker,
  CircuitBreakerConfig,
}
use w16crypto_engine.Base.{
  leb, length, ℕ, ◌+◌, ◌-◌, ◌<◌, String, ◌≡◌, refl, ◌⊎◌, inl, inr, false, List, [], ◌∷◌, arith,
  u64_bound, Bool-cases, ◌%◌, subst, ◌≤◌,
}

-- A call of `create_order`: the order, what the breaker's two clocks read, and the answer.
pub record Attempt (F : Type 0) : Type 0 where
  pub order : CreateOrderRequest F
  pub now : ℕ
  pub later : ℕ
  pub reply : Reply

-- The breaker's clock, a reading of an instant that was just taken, is short of the timeout.
unfoldable pub AreFresh : {F : Type 0} → ℕ → List (Attempt F) → Type 0
AreFresh timeout [] = Unit
AreFresh timeout (a ∷ rest) = (a.now < timeout) × AreFresh timeout rest

abbrev pub failures_of : {A : Type 0} → Result A → ℕ → ℕ
failures_of (ok a) n = 0
failures_of (err e) n = n

abbrev closed_at : ℕ → ℕ → ℕ → CircuitBreaker
closed_at n t u = record {
  state = CircuitState.closed;
  failures = n;
  last_failure_time = t;
  last_state_change = u;
}

abbrev open_at : ℕ → ℕ → ℕ → CircuitBreaker
open_at n t u = record {
  state = CircuitState.«open»;
  failures = n;
  last_failure_time = t;
  last_state_change = u;
}

Result-cases : {A : Type 0} (r : Result A) → ((a : A) × (r ≡ ok a)) ⊎ ((e : AppError) × (r ≡ err e))
Result-cases (ok a) = inl (a, refl)
Result-cases (err e) = inr (e, refl)

-- The limit is not reached by so many failures, or the breaker is open for good.
unfoldable Spent : PolymarketClient → ℕ → PolymarketClient → Type 0
Spent c k final =
    (k < c.config.failure_threshold)
    ⊎ ((k ≡ c.config.failure_threshold)
        × ((m : ℕ) × (v : ℕ) × (w : ℕ) × (final ≡ with_breaker (open_at m v w) c)))

module _ {F A : Type 0} (hash : String → String) (timestamp : String)
    (decode : String → Decoded A) where
  abbrev place : Attempt F → PolymarketClient → Placed F A
  place a c = create_order hash timestamp decode a.order a.now a.later a.reply c

  -- The client after the calls.
  unfoldable pub client_after : List (Attempt F) → PolymarketClient → PolymarketClient
  client_after [] c = c
  client_after (a ∷ rest) c = client_after rest (place a c).client

  -- The requests of the calls that reached the exchange and failed.
  unfoldable pub failed_requests : List (Attempt F) → PolymarketClient → ℕ
  failed_requests [] c = 0
  failed_requests (a ∷ rest) c =
      failures_of (place a c).result (length (place a c).sent)
      + failed_requests rest (place a c).client

  place-open :
      (a : Attempt F) (c : PolymarketClient) (n t u : ℕ)
      → a.now < c.config.reset_timeout
      → place a (with_breaker (open_at n t u) c) ≡ (record {
        result = err (AppError.external (Part.text "Circuit breaker open" ∷ []));
        sent = [];
        client = with_breaker (open_at n t u) c;
      })
  unfolding create_order check_circuit_breaker allow_call
  place-open a c n t u h =
      let early : leb c.config.reset_timeout (a.now - u) ≡ false = ground arith in rw early refl

  place-closed :
      (a : Attempt F) (c : PolymarketClient) (n t u : ℕ)
      → place a (with_breaker (closed_at n t u) c) ≡ (record {
        result = result_of decode a.reply;
        sent = order_request hash timestamp a.order c ∷ [];
        client = after_result (result_of decode a.reply) a.later (with_breaker (closed_at n t u) c);
      })
  unfolding create_order check_circuit_breaker allow_call order_request auth_headers
  place-closed a c n t u = refl

  open_keeps :
      (rest : List (Attempt F)) (c : PolymarketClient) (n t u : ℕ)
      → AreFresh c.config.reset_timeout rest
      → (failed_requests rest (with_breaker (open_at n t u) c) ≡ 0)
        × (client_after rest (with_breaker (open_at n t u) c) ≡ with_breaker (open_at n t u) c)
  unfolding AreFresh failed_requests client_after
  open_keeps [] c n t u h = (refl, refl)
  open_keeps (a ∷ rest) c n t u (early, h) =
      let (none_failed, kept) = open_keeps rest c n t u h in
      rw (place-open a c n t u early) (omega (arith, none_failed), kept)

  closed_spends :
      (rest : List (Attempt F)) (c : PolymarketClient) (n t u : ℕ)
      → n < c.config.failure_threshold
      → c.config.failure_threshold < u64_bound
      → AreFresh c.config.reset_timeout rest
      → Spent c
          (failed_requests rest (with_breaker (closed_at n t u) c) + n)
          (client_after rest (with_breaker (closed_at n t u) c))
  unfolding AreFresh failed_requests client_after Spent succeeded failed record_success
      record_failure
  closed_spends [] c n t u small fits h = inl (omega arith)
  closed_spends (a ∷ rest) c n t u small fits (early, h) =
      elim (Result-cases (result_of decode a.reply)) [
        | inl (v, good) ↦
            rw (place-closed a c n t u, good)
              (subst (λ k. Spent c k (client_after rest (with_breaker (closed_at n t u) c)))
                (omega arith) (closed_spends rest c n t u small fits h))
        | inr (e, bad) ↦
            let count : (n + 1) % u64_bound ≡ n + 1 = ground (arith, small, fits) in
            elim (Bool-cases (leb c.config.failure_threshold (n + 1))) [
              | inl last ↦
                  let (none_failed, kept) = open_keeps rest c (n + 1) a.later a.later h in
                  rw (place-closed a c n t u, bad, count, last)
                    (inr
                      (ground (arith, none_failed, small, last), (n + 1, a.later, a.later, kept)))
              | inr more ↦
                  rw (place-closed a c n t u, bad, count, more)
                    (subst
                      (λ k.
                        Spent c k
                          (client_after rest (with_breaker (closed_at (n + 1) a.later u) c)))
                      (omega arith)
                      (closed_spends rest c (n + 1) a.later u (ground (arith, more)) fits h))
            ]
      ]

  -- For a client with a new circuit breaker, whatever orders it is given and whatever the exchange
  -- answers, at most `failure_threshold` requests fail. Once so many have, no order reaches the
  -- exchange any more: successes in between do not count, and each reading of the breaker's clock is
  -- that of a fresh instant, short of the timeout.
  pub failed_requests-budget :
      (config : CircuitBreakerConfig) (rest : List (Attempt F)) (a : Attempt F)
      (c : PolymarketClient)
      → 0 < config.failure_threshold
      → config.failure_threshold < u64_bound
      → AreFresh config.reset_timeout rest
      → a.now < config.reset_timeout
      → (failed_requests rest (with_circuit_breaker config c) ≤ config.failure_threshold)
        × ((failed_requests rest (with_circuit_breaker config c) < config.failure_threshold)
            ⊎ ((place a (client_after rest (with_circuit_breaker config c))).sent ≡ []))
  unfolding with_circuit_breaker new_breaker Spent
  failed_requests-budget config rest a c positive fits h early =
      elim (closed_spends rest (record c { config = config }) 0 0 0 positive fits h) [
        | inl less ↦ (omega arith, inl (omega arith))
        | inr (all, (m, v, w, final)) ↦ (
          omega arith,
          inr (rw (final, place-open a (record c { config = config }) m v w early) refl),
        )
      ]
