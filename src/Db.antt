-- ===== src/Db.antt =====
-- api/crates/db/src and api/migrations: the PostgreSQL tables and the statements over them.
pub mod State
pub mod Balances
pub mod Withdrawals
pub mod Fills
pub mod Positions
pub mod Markets
pub mod Orders
pub mod Idempotency
pub mod Users
pub mod Listing
