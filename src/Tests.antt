-- ===== src/Tests.antt =====
-- The theorems on concrete tables, messages and limits.
pub mod Fixture
pub mod Money
pub mod Trading
pub mod Edges
pub mod Web
pub mod Service
pub mod Analytics
pub mod Queues
pub mod Engine
pub mod Lists
pub mod Tokens
