-- ===== src/Common/Breaker/Registry.antt =====
-- The registry's two locks: what a second creator of a name does to the first one's breaker.
use w16crypto_engine.Common.Breaker.{
  get_breaker, put_breaker, Entry, str_eq, get_or_create, CircuitBreakerConfig, put_new,
  new_breaker, CircuitState,
}
use w16crypto_engine.Base.{
  ◌≡◌, some, List, [], ◌∷◌, arith, Bool-cases, Option-cases, String, refl, inl, inr,
}
use text.Mathlib.TextPositions.{eq_refl}

-- A name that was put is found, with a fresh breaker.
get_breaker-put_breaker :
    (x : Entry) (es : List Entry) → get_breaker x.name (put_breaker x es) ≡ some x
unfolding get_breaker put_breaker
get_breaker-put_breaker x [] = grind (arith, eq_refl x.name)
get_breaker-put_breaker x (e ∷ es) = elim (Bool-cases (str_eq x.name e.name)) [
  | inl same ↦ grind (arith, eq_refl x.name)
  | inr other ↦ ground (arith, get_breaker-put_breaker x es)
]

known :
    (name : String) (c : CircuitBreakerConfig) (es : List Entry)
    → (e : Entry) × (get_breaker name (get_or_create name c es) ≡ some e)
unfolding get_or_create put_new
known name c es = elim (Option-cases (get_breaker name es)) [
  | inl new ↦ (
    record { name = name; config = c; breaker = new_breaker },
    ground (
      arith,
      get_breaker-put_breaker (record { name = name; config = c; breaker = new_breaker }) es,
    ),
  )
  | inr (e, h) ↦ (e, ground arith)
]

stays :
    (name : String) (c : CircuitBreakerConfig) (es : List Entry) (e : Entry)
    → get_breaker name es ≡ some e
    → get_or_create name c es ≡ es
unfolding get_or_create
stays name c es e h = ground arith

-- After a call for a name there is a breaker of that name, and a later call for it, with whatever
-- configuration, changes nothing.
pub get_or_create_twice :
    (name : String) (c d : CircuitBreakerConfig) (es : List Entry)
    → let after = get_or_create name c es in
      ((e : Entry) × (get_breaker name after ≡ some e)) × (get_or_create name d after ≡ after)
get_or_create_twice name c d es =
    let (e, h) = known name c es in ((e, h), stays name d (get_or_create name c es) e h)

-- The second lock does not look again: a caller that found no breaker, and writes after others
-- have changed the registry, leaves under the name a new breaker with its configuration, closed and
-- without a failure, whatever was there.
pub put_new_replaces :
    (name : String) (c : CircuitBreakerConfig) (es : List Entry)
    → (e : Entry) × (get_breaker name (put_new name c es) ≡ some e)
      × (e.breaker.state ≡ CircuitState.closed)
      × (e.breaker.failures ≡ 0)
      × (e.config ≡ c)
unfolding put_new new_breaker
put_new_replaces name c es =
    let fresh : Entry = record { name = name; config = c; breaker = new_breaker } in
    (fresh, get_breaker-put_breaker fresh es, refl, refl, refl)
