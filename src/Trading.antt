-- ===== src/Trading.antt =====
-- api/crates/api-http/src/trading_engine.rs: `TradingEngine`, the tasks that it spawns and the lock on
-- the market-data stream, which the task that reads the stream holds for as long as it runs. The
-- children have what the tasks do with an event and with a signal.
pub mod Events
pub mod Execution
pub mod Status
use w16crypto_engine.Orders.{cancel_placed}
use w16crypto_engine.Common.Error.{Result, err, ok}
use w16crypto_engine.Common.Types.{Order}
use w16crypto_engine.Base.{
  if◌then◌else◌, ℕ, zero, suc, Bool, true, false, not, ◌&&◌, Option, none, some, List, [], ◌∷◌,
  ◌++◌,
}

-- What is left to run: a call of `initialize` or `start` that waits for the stream's lock, the reader
-- of market data, which first waits for that lock and then for what the stream receives, the loops of
-- the signals and of the orders, and the monitor.
pub data Task : Type 0 where
  initializing starting data_waiting data_reading generating executing monitoring : Task

-- Whether there is a client and a stream, whether the engine is meant to run, whether the risk
-- manager's breaker is active, whether a reader holds the stream, and the tasks that are alive.
pub record TradingEngine : Type 0 where
  pub connected : Bool
  pub stream : Bool
  pub running : Bool
  pub breaker : Bool
  pub is_held : Bool
  pub tasks : List Task

pub record TradingEngineStatus : Type 0 where
  pub running : Bool
  pub connected : Bool
  pub ws_connected : Bool
  pub circuit_breaker_active : Bool

unfoldable pub halted_engine : Bool → TradingEngine
halted_engine breaker = record {
  connected = false;
  stream = false;
  running = false;
  breaker = breaker;
  is_held = false;
  tasks = [];
}

-- What a call comes to: it waits for the stream's lock, or it answers.
pub data LockCall (A : Type 0) : Type 0 where
  waits : LockCall A
  answers : A → LockCall A

-- `initialize`, with what the making of the client answers. The client is stored before the stream.
unfoldable pub initialize : Result Unit → TradingEngine → LockCall (Result Unit) × TradingEngine
initialize (err e) s = (answers (err e), s)
initialize (ok _) s =
    if s.is_held
    then (waits, record s { connected = true; tasks = s.tasks ++ Task.initializing ∷ [] })
    else (answers (ok tt), record s { connected = true; stream = true })

abbrev pub loops : List Task
loops = Task.data_waiting ∷ Task.generating ∷ Task.executing ∷ []

-- `start`: `running` is set first, and the stream is looked at before the tasks are spawned.
unfoldable pub start : TradingEngine → LockCall (Result Unit) × TradingEngine
start s =
    if s.is_held
    then (waits, record s { running = true; tasks = s.tasks ++ Task.starting ∷ [] })
    else (answers (ok tt), record s { running = true; tasks = s.tasks ++ loops })

unfoldable pub get_status : TradingEngine → LockCall TradingEngineStatus
get_status s =
    if s.is_held
    then waits
    else answers (record {
      running = s.running;
      connected = s.connected;
      ws_connected = s.stream;
      circuit_breaker_active = s.breaker;
    })

unfoldable pub stop : TradingEngine → TradingEngine
stop s = record s { running = false }

unfoldable pub spawn_graceful_shutdown_monitor : TradingEngine → TradingEngine
spawn_graceful_shutdown_monitor s = record s { tasks = s.tasks ++ Task.monitoring ∷ [] }

-- The lock of the stream, and whether there is one.
pub record Stream : Type 0 where
  pub is_held : Bool
  pub is_there : Bool

-- The tasks that a round leaves in place of one, and the stream after it.
abbrev pub continued : Bool → Task → Stream → List Task × Stream
continued goes_on t l = if goes_on then (t ∷ [], l) else ([], l)

-- The reader tests whether to go on, with the lock held, and then waits for what is received.
abbrev pub read_on : Bool → Bool → List Task × Stream
read_on goes_on there =
    if goes_on
    then (Task.data_reading ∷ [], record { is_held = true; is_there = there })
    else ([], record { is_held = false; is_there = there })

-- One round of a task, as far as it gets. `goes_on` says that the engine runs and that the breaker is
-- not active, and `received` that a `recv` which waits returns, with an event or an error.
unfoldable pub task_round : Bool → Bool → Task → Stream → List Task × Stream
task_round goes_on received Task.initializing l =
    if l.is_held then (Task.initializing ∷ [], l) else ([], record l { is_there = true })
task_round goes_on received Task.starting l =
    if l.is_held then (Task.starting ∷ [], l) else (loops, l)
task_round goes_on received Task.data_waiting l =
    if l.is_held
    then (Task.data_waiting ∷ [], l)
    else if l.is_there
    then read_on goes_on l.is_there
    else ([], l)
task_round goes_on received Task.data_reading l =
    if received then read_on goes_on l.is_there else (Task.data_reading ∷ [], l)
task_round goes_on received Task.generating l = continued goes_on Task.generating l
task_round goes_on received Task.executing l = continued goes_on Task.executing l
task_round goes_on received Task.monitoring l = continued goes_on Task.monitoring l

-- A round of each task, in turn.
unfoldable pub tasks_round : Bool → Bool → List Task → Stream → List Task × Stream
tasks_round goes_on received [] l = ([], l)
tasks_round goes_on received (t ∷ ts) l =
    let (after, l₁) = task_round goes_on received t l in
    let (rest, l₂) = tasks_round goes_on received ts l₁ in (after ++ rest, l₂)

abbrev pub goes_on : TradingEngine → Bool
goes_on s = s.running && not s.breaker

unfoldable pub round : Bool → TradingEngine → TradingEngine
unfolding tasks_round
round received s =
    let (ts, l) =
      tasks_round (goes_on s) received s.tasks
        (record { is_held = s.is_held; is_there = s.stream }) in
    record s { tasks = ts; is_held = l.is_held; stream = l.is_there }

-- `cancel_all_open_orders` for what `list_all_active`, which is defined nowhere, answers: its result,
-- and the orders that could not be cancelled.
unfoldable pub cancel_each : List Order → List ℕ
cancel_each [] = []
cancel_each (o ∷ rest) = elim (cancel_placed o.user_id o.id) [
  | ok cancelled ↦ cancel_each rest
  | err e ↦ o.id ∷ cancel_each rest
]

unfoldable pub cancel_all_open_orders : Result (List Order) → Result Unit × List ℕ
unfolding cancel_each
cancel_all_open_orders (ok active) = (ok tt, cancel_each active)
cancel_all_open_orders (err e) = (err e, [])
