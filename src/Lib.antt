-- ===== src/Lib.antt =====
-- W16CryptoEngine: the services of a prediction market, W16CryptoEngine/api, in Rust, in front of a
-- matching engine in C++, W16CryptoEngine/engine. An order request passes the rate limiter and the
-- risk controls, is placed with its cost reserved in one transaction, and is sent to the engine as
-- bytes. The engine's fills come back; the fill processor moves money, positions and orders. A
-- market is created, paused, reopened, cancelled and settled by administrators, and users take
-- money out by withdrawals that an administrator reviews. The HTTP handlers authenticate a caller
-- and compose these calls; the handler of orders hands them to the order service instead, which
-- asks the risk manager of the analytics and sends them to an outside exchange. All other state is
-- in the database; in memory are the windows of the rate limiter, the circuit breakers, the pending
-- orders and transactions, and what the analytics keep of users, positions and sliced orders.
--
-- The files (paths of the code are under W16CryptoEngine/api/crates unless said otherwise):
--   Base      Booleans and tests, lists, the integers with the machine's ranges and casts, tables by
--             key, and totals over tables.
--   Common    Types, Price: common/src/types.rs. Error: common/src/error.rs. Breaker:
--             common/src/circuit_breaker.rs, with what it does over sequences of events in
--             Breaker/Trips, and the registry in Breaker/Registry. Floats and
--             Windows: what the analytics share.
--   Db        State: the tables of W16CryptoEngine/api/migrations as one record, and a call as a
--             function from the tables to a result and the tables after it; `transaction` rolls
--             back on an error. Balances, Withdrawals, Users, Fills, Positions, Markets, Orders and
--             Idempotency: the files of db/src of the same names, one function for each method, with
--             the CHECKs, the keys and the references that refuse a row. Below them: Balances/Funds,
--             Effects and Transfer, Withdrawals/Outcomes, Pending, Backing, Lifecycle, Conservation
--             and Finality, Positions/Net, Orders/Placement, Idempotency/Claims and Expiry.
--             Listing has the queries that list rows, with Pages and Rows.
--   Positions the fill processor of positions/src/lib.rs and the retry round of
--             positions/src/processor.rs; below it Process, Dedup, ZeroSum and Orders.
--   Markets   markets/src/lib.rs; Markets/Machine has the calls on a market as a step relation.
--   Settlement settlement/src/lib.rs, with Payouts and Once.
--   Risk      risk/src/lib.rs, with Limits.
--   RateLimit api-http/src/middleware/rate_limit.rs, with Admission.
--   Messaging the encodings of messaging/src/lib.rs and the reads of
--             W16CryptoEngine/engine/src/main.cpp; Messaging/Wire puts them together.
--   Reconciliation orders/src/reconciliation.rs.
--   Exposure  analytics/src/risk.rs, the risk manager and its checks, with Fills (what a fill and
--             the end of a day do) and Breaker.
--   Execution analytics/src/execution.rs: the orders that are cut into slices, with Volume (the
--             profiles, VWAP and smart orders), Executor (the check before sending and a round of
--             the loop), and Slices, Weights, Creation, Conservation and Completion.
--   Pnl       analytics/src/pnl.rs, with Daily (the end of a day and the metrics), Closing, Waiting.
--   Monitor   analytics/src/position_monitor.rs, with Net.
--   Arbitrage analytics/src/arbitrage.rs, with Detection (the opportunities) and Windows.
--   Signals   analytics/src/signals.rs: the windows of fills and books; below it Generation (the
--             checks and the signals), Direction and Market.
--   Regime    analytics/src/regime.rs, with Agreement and Windows.
--   Polymarket polymarket/src/client.rs: the client of the exchange, with Requests, Placing (an order
--             behind the circuit breaker) and Budget.
--   Trading   api-http/src/trading_engine.rs: the engine's calls and tasks, with Events (market data),
--             Execution (the loop of the orders and the cancelling of orders), and Status.
--   Blockchain blockchain/src/transactions.rs, the queue of transactions, with Retry.
--   Orders    orders/src/lib.rs, the order service in front of the exchange, with Placing.
--   Auth      auth/src/lib.rs: the tokens and the passwords, with Equality (the comparison in
--             constant time) and Tokens.
--   Http      api-http/src/middleware/auth.rs, and the handlers of api-http/src/handlers: Deposits,
--             Withdrawals, Administration (markets.rs) and Orders. They compose the calls of Db,
--             Markets, Settlement and the order service; below them Auth, Deposits/Once,
--             Withdrawals/Safety and Privacy, Administration/Admins and Orders/Retry.
--   Tests     the theorems at concrete values.
--
-- Numbers: a field of an unsigned type is a natural number, an `i64` and a BIGINT an integer. A cast
-- wraps as in Rust (`u64_as_i64`), a saturating operation clamps, a BIGINT column that would leave
-- its range is an error of the database, and `-` stops at 0 where the code saturates. Arithmetic
-- that overflows in Rust is that of a release build.
-- Recursion is on lists and on the number of slices, so no fuel is needed.
--
-- What is taken as given. A statement or a transaction runs alone: PostgreSQL's isolation and
-- the locks that the code asks for (FOR SHARE) make it so. A method of several statements runs
-- without another one between them, but in Breaker/Registry, where two creators overlap. sqlx
-- decodes a row when its columns are those of the Rust type and their types match, and reports an
-- error otherwise: Db/Positions and Db/Listing say where that is so. The job that deletes the
-- idempotency keys of a day ago may run between two requests: what is proved of a later request
-- asks for the key's row. Keys that the server or the code draws at random and the readings of
-- clocks are arguments. A lost connection is modelled in Positions only, as an argument that
-- says which calls are cut off. rust_decimal's `Decimal`, `String::trim` and `Uuid::to_string`
-- are parameters, the first with named hypotheses where a theorem needs them; so are the floats
-- and text functions of the handlers and the monitor (`Web`, `Ratios`), those of the analytics
-- (`Floats`), serde_json (`Json`, `OrderJson`), the exchange (`Exchange`), and what makes the
-- tokens and the hashes of passwords (`Crypto`, `Hashing`). What a call draws
-- at random or reads from a clock is an argument of it. A lock that its holder asks for again is
-- never given, so that call and those after it wait; the locks are fields of the state (Pnl,
-- Trading). A panic
-- of the executor's task ends it (Execution/Executor).
--
-- Not modelled: the clients of the blockchain but for the queue of transactions, the sockets of the
-- exchange and its order signatures, the prediction models of analytics, the audit trail, the
-- handlers of accounts and analytics, the cache, start-up and routing, and the engine itself but
-- for what it reads of a message.
pub mod Base
pub mod Common
pub mod Db
pub mod Positions
pub mod Markets
pub mod Settlement
pub mod Risk
pub mod RateLimit
pub mod Messaging
pub mod Reconciliation
pub mod Exposure
pub mod Execution
pub mod Pnl
pub mod Monitor
pub mod Arbitrage
pub mod Signals
pub mod Regime
pub mod Orders
pub mod Polymarket
pub mod Blockchain
pub mod Trading
pub mod Auth
pub mod Http
pub mod Tests
