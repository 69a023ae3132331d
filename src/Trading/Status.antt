-- ===== src/Trading/Status.antt =====
-- The engine answers nobody while its reader of market data runs.
use w16crypto_engine.Trading.{
  tasks_round, TradingEngine, get_status, initialize, start, task_round,
  spawn_graceful_shutdown_monitor, Task, halted_engine, LockCall, stop, Stream, round, goes_on,
}
use w16crypto_engine.Common.Error.{Result, ok, err}
use w16crypto_engine.Base.{ForAll, ◌≡◌, refl, Bool, true, false, List, [], ◌∷◌}

-- What may happen to an engine: calls, a breaker that trips, and rounds of its tasks in which the
-- reader receives something or does not.
pub data Action : Type 0 where
  initializes : Result Unit → Action
  starts monitors stops trips : Action
  works : Bool → Action

abbrev pub act : Action → TradingEngine → TradingEngine
act (initializes r) s = (initialize r s).1
act starts s = (start s).1
act monitors s = spawn_graceful_shutdown_monitor s
act stops s = stop s
act trips s = record s { breaker = true }
act (works received) s = round received s

unfoldable pub run_actions : List Action → TradingEngine → TradingEngine
run_actions [] s = s
run_actions (a ∷ rest) s = run_actions rest (act a s)

-- Nothing stops the engine.
unfoldable pub KeepsOn : Action → Type 0
KeepsOn stops = ⊥
KeepsOn trips = ⊥
KeepsOn _ = Unit

-- The reader receives nothing.
unfoldable pub IsSilent : Action → Type 0
IsSilent (works received) = received ≡ false
IsSilent _ = Unit

-- The reader holds the stream, and nothing makes it end.
unfoldable IsReading : TradingEngine → Type 0
IsReading s = (s.is_held ≡ true) × (s.running ≡ true) × (s.breaker ≡ false)

round-held :
    (received : Bool) (ts : List Task) (l : Stream)
    → l.is_held ≡ true
    → (tasks_round true received ts l).1.is_held ≡ true
unfolding tasks_round task_round
round-held received [] l h = h
round-held received (Task.initializing ∷ ts) l h = rw h (round-held received ts _ refl)
round-held received (Task.starting ∷ ts) l h = rw h (round-held received ts _ refl)
round-held received (Task.data_waiting ∷ ts) l h = rw h (round-held received ts _ refl)
round-held true (Task.data_reading ∷ ts) l h = round-held true ts _ refl
round-held false (Task.data_reading ∷ ts) l h = round-held false ts l h
round-held received (Task.generating ∷ ts) l h = round-held received ts l h
round-held received (Task.executing ∷ ts) l h = round-held received ts l h
round-held received (Task.monitoring ∷ ts) l h = round-held received ts l h

-- Without an event the holder of the lock keeps it, whether the engine goes on or not.
silent_round-held :
    (goes : Bool) (ts : List Task) (l : Stream)
    → l.is_held ≡ true
    → (tasks_round goes false ts l).1.is_held ≡ true
unfolding tasks_round task_round
silent_round-held goes [] l h = h
silent_round-held goes (Task.initializing ∷ ts) l h = rw h (silent_round-held goes ts _ refl)
silent_round-held goes (Task.starting ∷ ts) l h = rw h (silent_round-held goes ts _ refl)
silent_round-held goes (Task.data_waiting ∷ ts) l h = rw h (silent_round-held goes ts _ refl)
silent_round-held goes (Task.data_reading ∷ ts) l h = silent_round-held goes ts l h
silent_round-held true (Task.generating ∷ ts) l h = silent_round-held true ts l h
silent_round-held false (Task.generating ∷ ts) l h = silent_round-held false ts l h
silent_round-held true (Task.executing ∷ ts) l h = silent_round-held true ts l h
silent_round-held false (Task.executing ∷ ts) l h = silent_round-held false ts l h
silent_round-held true (Task.monitoring ∷ ts) l h = silent_round-held true ts l h
silent_round-held false (Task.monitoring ∷ ts) l h = silent_round-held false ts l h

act-IsReading : (a : Action) (s : TradingEngine) → KeepsOn a → IsReading s → IsReading (act a s)
unfolding KeepsOn IsReading initialize start spawn_graceful_shutdown_monitor round
act-IsReading (initializes (ok _)) s k (h, r, b) = rw h (refl, r, b)
act-IsReading (initializes (err e)) s k (h, r, b) = (h, r, b)
act-IsReading starts s k (h, r, b) = rw h (refl, refl, b)
act-IsReading monitors s k (h, r, b) = (h, r, b)
act-IsReading stops s k h = absurd k
act-IsReading trips s k h = absurd k
act-IsReading (works received) s k (h, r, b) =
    rw (r, b) (round-held received s.tasks _ h, refl, refl)

run-IsReading :
    (rest : List Action) (s : TradingEngine)
    → ForAll KeepsOn rest
    → IsReading s
    → IsReading (run_actions rest s)
unfolding run_actions ForAll
run-IsReading [] s k h = h
run-IsReading (a ∷ rest) s (k, ks) h = run-IsReading rest (act a s) ks (act-IsReading a s k h)

silent_act-held :
    (a : Action) (s : TradingEngine) → IsSilent a → s.is_held ≡ true → (act a s).is_held ≡ true
unfolding IsSilent initialize start spawn_graceful_shutdown_monitor round stop
silent_act-held (initializes (ok _)) s k h = rw h refl
silent_act-held (initializes (err e)) s k h = h
silent_act-held starts s k h = rw h refl
silent_act-held monitors s k h = h
silent_act-held stops s k h = h
silent_act-held trips s k h = h
silent_act-held (works received) s k h = rw k (silent_round-held (goes_on s) s.tasks _ h)

silent_run-held :
    (rest : List Action) (s : TradingEngine)
    → ForAll IsSilent rest
    → s.is_held ≡ true
    → (run_actions rest s).is_held ≡ true
unfolding run_actions ForAll
silent_run-held [] s k h = h
silent_run-held (a ∷ rest) s (k, ks) h = silent_run-held rest (act a s) ks (silent_act-held a s k h)

-- An engine that is initialized and started, and whose tasks have had their first round.
unfoldable pub running_engine : TradingEngine
unfolding initialize start halted_engine round
running_engine = round false (start (initialize (ok tt) (halted_engine false)).1).1

-- Once the tasks of an initialized and started engine have had their first round, and until the
-- engine is stopped or the breaker of the risk manager trips, each call of `get_status`, of `start` and
-- of an `initialize` whose client is made waits: the reader of market data keeps the stream's lock
-- for as long as it runs, whatever it receives and the other calls do.
pub status_waits :
    (rest : List Action)
    → ForAll KeepsOn rest
    → (get_status (run_actions rest running_engine) ≡ LockCall.waits)
      × ((start (run_actions rest running_engine)).0 ≡ LockCall.waits)
      × ((initialize (ok tt) (run_actions rest running_engine)).0 ≡ LockCall.waits)
unfolding get_status start initialize IsReading running_engine tasks_round task_round
status_waits rest keeps =
    let (held, running, whole) = run-IsReading rest running_engine keeps (refl, refl, refl) in
    (rw held refl, rw held refl, rw held refl)

-- The reader of an initialized and started engine keeps the stream's lock for as long as it receives
-- nothing, even if the engine is stopped or the breaker trips meanwhile: whatever the calls are,
-- `get_status`, `start` and an `initialize` whose client is made wait.
pub stopped_waits :
    (rest : List Action)
    → ForAll IsSilent rest
    → (get_status (run_actions rest running_engine) ≡ LockCall.waits)
      × ((start (run_actions rest running_engine)).0 ≡ LockCall.waits)
      × ((initialize (ok tt) (run_actions rest running_engine)).0 ≡ LockCall.waits)
unfolding get_status start initialize running_engine tasks_round task_round
stopped_waits rest silent =
    let held = silent_run-held rest running_engine silent refl in
    (rw held refl, rw held refl, rw held refl)
